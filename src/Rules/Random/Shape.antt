-- ===== src/Rules/Random/Shape.antt =====
-- The shape of random keys, and the bytes that a random identifier needs.
use mathlib.Core.List.{append_assoc}
use dflybot.Prelude.{
  ℕ, zero, suc, ◌%◌, ◌≤◌, ◌<◌, Bool, true, false, ◌&&◌, ◌||◌, Option, none, some, List, [], ◌∷◌,
  ◌++◌, ◌≡◌, ◌≢◌, inl, inr, refl, ap, arith, ◌*◌, if◌then◌else◌, leb, length, All, Bool-cases,
}
use dflybot.Prelude.Bytes.{Bytes, lit, eq_iff}
use dflybot.Store.Error.{Result, ok, err, Result-cases}
use dflybot.Rules.Key.{slash, validate_key}
use dflybot.Rules.Key.Valid.{validate_key_hidden}
use dflybot.Rules.Random.{
  base62_alphabet, get_or, base62, random_id, ends_with_slash, attempts, generate_random_key,
}

unfoldable pub is_base62 : ℕ → Bool
is_base62 c = leb b'0' c && leb c b'9' || leb b'A' c && leb c b'Z' || leb b'a' c && leb c b'z'

pass : List ℕ → Bool
pass [] = true
pass (c ∷ s) = is_base62 c && pass s

base62_alphabet-pass : pass base62_alphabet ≡ true
unfolding pass is_base62
base62_alphabet-pass = refl

pass-get_or : (s : List ℕ) (i : ℕ) → pass s ≡ true → i < length s → is_base62 (get_or s i 0) ≡ true
unfolding pass
pass-get_or [] i h lt = elim lt [ ]
pass-get_or (c ∷ s) zero h lt = ground arith
pass-get_or (c ∷ s) (suc i) h lt = pass-get_or s i (ground arith) (omega arith)

base62-is_base62 : (b : ℕ) → is_base62 (base62 b) ≡ true
unfolding base62
base62-is_base62 b = pass-get_or base62_alphabet (b % 62) base62_alphabet-pass (omega arith)

-- An identifier of `n` characters.
pub record IsId (n : ℕ) (id : Bytes) : Type 0 where
  pub size : length id ≡ n
  pub chars : All (λ c. is_base62 c ≡ true) id

random_id-accepted :
    (n b : ℕ) (reads : List (Option ℕ)) (id : Bytes) (rest : List (Option ℕ))
    → leb (62 * 4) b ≡ false
    → random_id (suc n) (some b ∷ reads) ≡ some (ok id, rest)
    → (later : Bytes) × (id ≡ base62 b ∷ later) × (random_id n reads ≡ some (ok later, rest))
unfolding random_id
random_id-accepted n b reads id rest a h = go (random_id n reads) refl
  where
    go :
        (o : Option (Result Bytes × List (Option ℕ)))
        → random_id n reads ≡ o
        → (later : Bytes) × (id ≡ base62 b ∷ later) × (random_id n reads ≡ some (ok later, rest))
    go none e = absurd (ground arith)
    go (some (ok later, used)) e = (later, ground arith, ground arith)
    go (some (err x, used)) e = absurd (ground arith)

random_id-IsId :
    (n : ℕ) (reads : List (Option ℕ)) (id : Bytes) (rest : List (Option ℕ))
    → random_id n reads ≡ some (ok id, rest)
    → IsId n id
unfolding random_id
random_id-IsId zero reads [] rest h = record { size = refl; chars = tt }
random_id-IsId zero reads (c ∷ id) rest h = absurd (ground arith)
random_id-IsId (suc n) [] id rest h = absurd (ground arith)
random_id-IsId (suc n) (none ∷ reads) id rest h = absurd (ground arith)
random_id-IsId (suc n) (some b ∷ reads) id rest h = elim (Bool-cases (leb (62 * 4) b)) [
  | inl rejected ↦ random_id-IsId (suc n) reads id rest (rw (rejected, random_id) at h)
  | inr accepted ↦
      let (later, e, g) = random_id-accepted n b reads id rest accepted h in
      let ih = random_id-IsId n reads later rest g in
      record { size = rw e (ap suc ih.size); chars = rw e (base62-is_base62 b, ih.chars) }
]

-- The bytes among the reads that random_id accepts.
unfoldable pub accepted : List (Option ℕ) → ℕ
accepted [] = 0
accepted (none ∷ reads) = accepted reads
accepted (some b ∷ reads) = let rest = accepted reads in if leb (62 * 4) b then rest else suc rest

random_id_ends :
    (n : ℕ) (reads : List (Option ℕ))
    → All (λ r. r ≢ none) reads
    → n ≤ accepted reads
    → (id : Bytes) × (rest : List (Option ℕ)) × (random_id n reads ≡ some (ok id, rest))
unfolding random_id accepted
random_id_ends zero reads h e = ([], reads, refl)
random_id_ends (suc n) [] h e = absurd (omega arith)
random_id_ends (suc n) (none ∷ reads) h e = absurd (h.0 refl)
random_id_ends (suc n) (some b ∷ reads) h e = elim (Bool-cases (leb (62 * 4) b)) [
  | inl rejected ↦
      let (id, rest, g) = random_id_ends (suc n) reads h.1 (ground arith) in
      (id, rest, rw (rejected, random_id) g)
  | inr accepted ↦
      let (id, rest, g) = random_id_ends n reads h.1 (ground arith) in
      (base62 b ∷ id, rest, ground arith)
]

-- randomID ends with an identifier as soon as rand.Read, failing in no call, has given `n` bytes
-- below 248, however many others come between.
pub random_id_total :
    (n : ℕ) (reads : List (Option ℕ))
    → All (λ r. r ≢ none) reads
    → n ≤ accepted reads
    → (id : Bytes) × (rest : List (Option ℕ)) × (random_id n reads ≡ some (ok id, rest)) × IsId n id
random_id_total n reads h e =
    let (id, rest, g) = random_id_ends n reads h e in
    (id, rest, g, random_id-IsId n reads id rest g)

abbrev IsRandom : Bytes → (Bytes → Result Bool) → Bytes → Type 0
IsRandom namespace is_free key =
    (id : Bytes) × (key ≡ namespace ++ lit "~" ++ id) × IsId 12 id × (is_free key ≡ ok true)

attempts-IsRandom :
    (n : ℕ) (namespace : Bytes) (is_free : Bytes → Result Bool) (reads : List (Option ℕ))
    (key : Bytes)
    → attempts n namespace is_free reads ≡ some (ok key)
    → IsRandom namespace is_free key
unfolding attempts
attempts-IsRandom zero namespace is_free reads key h = absurd (ground arith)
attempts-IsRandom (suc n) namespace is_free reads key h =
    go (random_id 12 reads) refl (λ rest. attempts-IsRandom n namespace is_free rest key)
  where
    go :
        (o : Option (Result Bytes × List (Option ℕ)))
        → random_id 12 reads ≡ o
        → ((rest : List (Option ℕ))
            → attempts n namespace is_free rest ≡ some (ok key)
            → IsRandom namespace is_free key)
        → IsRandom namespace is_free key
    go none e ih = absurd (ground arith)
    go (some (err x, rest)) e ih = absurd (ground arith)
    go (some (ok id, rest)) e ih = elim (Result-cases (is_free (namespace ++ lit "~" ++ id))) [
      | inr (x, f) ↦ absurd (ground arith)
      | inl (b, f) ↦ elim (Bool-cases b) [
        | inl t ↦
            let same : key ≡ namespace ++ lit "~" ++ id = ground arith in
            (id, same, random_id-IsId 12 reads id rest e, ground arith)
        | inr t ↦ ih rest (ground arith)
      ]
    ]

-- A random key is the namespace, a tilde and twelve base62 characters, and was free when asked.
pub generate_random_key_sound :
    (namespace : Bytes) (is_free : Bytes → Result Bool) (reads : List (Option ℕ)) (key : Bytes)
    → generate_random_key namespace is_free reads ≡ some (ok key)
    → (id : Bytes) × (key ≡ namespace ++ lit "~" ++ id)
      × IsId 12 id
      × (is_free key ≡ ok true)
      × (ends_with_slash namespace ≡ true)
unfolding generate_random_key
generate_random_key_sound namespace is_free reads key h =
    elim (Bool-cases (ends_with_slash namespace)) [
      | inr bad ↦ absurd (ground arith)
      | inl good ↦
          let (id, e, i, f) = attempts-IsRandom 10 namespace is_free reads key (ground arith) in
          (id, e, i, f, good)
    ]

ends_with_slash-append :
    (s : Bytes) → ends_with_slash s ≡ true → (a : Bytes) × (s ≡ a ++ slash ∷ [])
unfolding ends_with_slash
ends_with_slash-append [] h = absurd (ground arith)
ends_with_slash-append (c ∷ []) h = ([], ground (arith, eq_iff (lit "/") (c ∷ [])))
ends_with_slash-append (c ∷ d ∷ s) h =
    let (a, e) = ends_with_slash-append (d ∷ s) h in (c ∷ a, ap (◌∷◌ c) e)

tilde_segment :
    (namespace a id key : Bytes)
    → key ≡ namespace ++ lit "~" ++ id
    → namespace ≡ a ++ slash ∷ []
    → key ≡ a ++ slash ∷ b'~' ∷ id
tilde_segment namespace a id key e g = rw e (rw g (simp append_assoc))

-- No random key is a key that ValidateKey accepts: explicit keys and rule keys never meet them.
pub random_key-validate_key :
    (namespace : Bytes) (is_free : Bytes → Result Bool) (reads : List (Option ℕ)) (key : Bytes)
    → generate_random_key namespace is_free reads ≡ some (ok key)
    → validate_key key ≢ none
random_key-validate_key namespace is_free reads key h =
    let (id, e, i, f, slashed) = generate_random_key_sound namespace is_free reads key h in
    let (a, g) = ends_with_slash-append namespace slashed in
    rw (tilde_segment namespace a id key e g) (validate_key_hidden a id b'~' (inr refl))
