-- ===== src/Seen/Age.antt =====
-- The age in the reply to a query: seenTimeText of seen.go, with the numbers and their units in
-- place of the text.
use dflybot.Prelude.{
  ℕ, ◌+◌, ◌*◌, ◌/◌, ◌%◌, ◌-◌, ◌≤◌, ◌<◌, true, List, [], ◌∷◌, ◌≡◌, arith, if◌then◌else◌, ltb,
  Bool-cases, inl, inr,
}

pub data AgeUnit : Type 0 where
  seconds minutes hours days months years : AgeUnit

abbrev pub unit_length : AgeUnit → ℕ
unit_length seconds = 1
unit_length minutes = 60
unit_length hours = 3600
unit_length days = 86400
unit_length months = 2592000
unit_length years = 31536000

-- The larger unit and, if its number is not zero, the smaller one.
unfoldable pub two_units : ℕ → AgeUnit → ℕ → AgeUnit → List (ℕ × AgeUnit)
two_units n u m v = if ltb 0 m then (n, u) ∷ (m, v) ∷ [] else (n, u) ∷ []

-- By the seconds `d` since the event.
unfoldable pub age_of : ℕ → List (ℕ × AgeUnit)
unfolding two_units
age_of d =
    if ltb d 60
    then (d, seconds) ∷ []
    else if ltb d 3600
    then (d / 60, minutes) ∷ []
    else if ltb d 86400
    then two_units (d / 3600) hours (d % 3600 / 60) minutes
    else if ltb d 2592000
    then two_units (d / 86400) days (d % 86400 / 3600) hours
    else if ltb d 31536000
    then two_units (d / 2592000) months (d % 2592000 / 86400) days
    else two_units (d / 31536000) years (d % 31536000 / 2592000) months

unfoldable pub seen_age : ℕ → ℕ → List (ℕ × AgeUnit)
unfolding age_of
seen_age u now = age_of (now - u)

-- The seconds that an age stands for.
unfoldable pub age_seconds : List (ℕ × AgeUnit) → ℕ
age_seconds [] = 0
age_seconds ((n, u) ∷ ages) = n * unit_length u + age_seconds ages

-- The smaller unit of the age that is shown, or its only one where it has one.
abbrev pub resolution : ℕ → ℕ
resolution d =
    if ltb d 60
    then 1
    else if ltb d 86400
    then 60
    else if ltb d 2592000
    then 3600
    else if ltb d 31536000
    then 86400
    else 2592000

two_units-seconds :
    (n : ℕ) (u : AgeUnit) (m : ℕ) (v : AgeUnit)
    → age_seconds (two_units n u m v) ≡ n * unit_length u + m * unit_length v
unfolding two_units age_seconds
two_units-seconds n u m v = elim (Bool-cases (ltb 0 m)) [
  | inl e ↦ rw (e, two_units, age_seconds) (omega arith)
  | inr e ↦ let z : m ≡ 0 = ground (arith, e) in rw (e, z, two_units, age_seconds) (omega arith)
]

abbrev Rounds : ℕ → ℕ → ℕ → Type 0
Rounds d age size = (age ≤ d) × (d < age + size)

age_of-Rounds : (d : ℕ) → Rounds d (age_seconds (age_of d)) (resolution d)
unfolding age_of age_seconds
age_of-Rounds d = elim (Bool-cases (ltb d 60)) [
  | inl a ↦ rw (a, age_of, age_seconds) (omega arith)
  | inr a ↦ elim (Bool-cases (ltb d 3600)) [
    | inl b ↦
        let c : ltb d 86400 ≡ true = ground (arith, b) in
        rw (a, b, c, age_of, age_seconds) (omega arith)
    | inr b ↦ elim (Bool-cases (ltb d 86400)) [
      | inl c ↦ rw (a, b, c, age_of, two_units-seconds) (omega arith)
      | inr c ↦ elim (Bool-cases (ltb d 2592000)) [
        | inl e ↦ rw (a, b, c, e, age_of, two_units-seconds) (omega arith)
        | inr e ↦ elim (Bool-cases (ltb d 31536000)) [
          | inl f ↦ rw (a, b, c, e, f, age_of, two_units-seconds) (omega arith)
          | inr f ↦ rw (a, b, c, e, f, age_of, two_units-seconds) (omega arith)
        ]
      ]
    ]
  ]
]

-- The age that is shown is not more than the real one and less than a unit below it; an event in
-- the future has the age 0.
pub seen_age_rounds :
    (u now : ℕ)
    → (age_seconds (seen_age u now) ≤ now - u)
      × (now - u < age_seconds (seen_age u now) + resolution (now - u))
unfolding seen_age
seen_age_rounds u now = age_of-Rounds (now - u)
