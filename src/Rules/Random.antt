-- ===== src/Rules/Random.antt =====
-- randomID and GenerateRandomKey of urlshort/rules.go.
pub mod Shape
use dflybot.Prelude.{
  ℕ, zero, suc, ◌+◌, ◌-◌, ◌*◌, ◌%◌, Bool, true, false, Option, none, some, List, [], ◌∷◌, ◌++◌,
  if◌then◌else◌, leb, length,
}
use dflybot.Prelude.Bytes.{Bytes, ◌==◌, lit}
use dflybot.Store.Error.{Result, ok, err, bad_namespace, no_random_key, random_failed}

abbrev pub base62_alphabet : Bytes
base62_alphabet = lit "0123456789ABCDEFGHIJKLMNOPQRSTUVWXYZabcdefghijklmnopqrstuvwxyz"

abbrev pub get_or : List ℕ → ℕ → ℕ → ℕ
get_or [] i d = d
get_or (x ∷ xs) zero d = x
get_or (x ∷ xs) (suc i) d = get_or xs i d

-- The character of an accepted byte.
unfoldable pub base62 : ℕ → ℕ
base62 b = get_or base62_alphabet (b % 62) 0

-- `reads` are the results of rand.Read in order, `none` for an error. The loop has no bound of its
-- own: `none` is the run that wants more reads than are given. The unused reads are returned.
unfoldable pub random_id : ℕ → List (Option ℕ) → Option (Result Bytes × List (Option ℕ))
unfolding base62
random_id zero reads = some (ok [], reads)
random_id (suc n) [] = none
random_id (suc n) (none ∷ reads) = some (err random_failed, reads)
random_id (suc n) (some b ∷ reads) = elim (leb (62 * 4) b) [
  | true ↦ random_id (suc n) reads
  | false ↦ elim (random_id n reads) [
    | none ↦ none
    | some (r, rest) ↦ some (elim r [ ok id ↦ ok (base62 b ∷ id) | err e ↦ err e ], rest)
  ]
]

-- strings.HasSuffix(namespace, "/")
unfoldable pub ends_with_slash : Bytes → Bool
ends_with_slash [] = false
ends_with_slash (c ∷ []) = lit "/" == (c ∷ [])
ends_with_slash (c ∷ d ∷ s) = ends_with_slash (d ∷ s)

-- What a free key, a taken one or an error means for the attempts that are left.
unfoldable pub attempt : Bytes → Result Bool → Option (Result Bytes) → Option (Result Bytes)
attempt key (err e) later = some (err e)
attempt key (ok true) later = some (ok key)
attempt key (ok false) later = later

unfoldable pub attempts :
    ℕ → Bytes → (Bytes → Result Bool) → List (Option ℕ) → Option (Result Bytes)
unfolding random_id attempt
attempts zero namespace is_free reads = some (err no_random_key)
attempts (suc n) namespace is_free reads = elim (random_id 12 reads) [
  | none ↦ none
  | some (r, rest) ↦ elim r [
    | err e ↦ some (err e)
    | ok id ↦
        let later = attempts n namespace is_free rest in
        attempt (namespace ++ lit "~" ++ id) (is_free (namespace ++ lit "~" ++ id)) later
  ]
]

unfoldable pub generate_random_key :
    Bytes → (Bytes → Result Bool) → List (Option ℕ) → Option (Result Bytes)
unfolding ends_with_slash attempts
generate_random_key namespace is_free reads =
    if ends_with_slash namespace
    then attempts 10 namespace is_free reads
    else some (err bad_namespace)
