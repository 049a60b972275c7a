-- ===== src/Store/Error.antt =====
-- The error values of urlshort/store.go and urlshort/rules.go, as the handlers tell them apart.
use dflybot.Prelude.{◌≡◌, refl, ◌⊎◌, inl, inr}

-- ErrNotFound, ErrConflict and ErrForbidden are the sentinels that `errors.Is` finds through
-- wrapping; every other error is a message, here one constructor for each place that makes one.
pub data Error : Type 0 where
  not_found conflict forbidden : Error
  inconsistent invalid_link no_generator empty_key : Error
  marshal_failed put_failed commit_failed : Error
  invalid_key empty_hash bad_namespace no_random_key random_failed render_failed : Error

-- The results `(value, err)` of Go, where only one of the two counts.
pub data Result {ℓ} (T : Type ℓ) : Type ℓ where
  err : Error → Result T
  ok : T → Result T

infixl 10 ◌>>=◌
abbrev pub ◌>>=◌ {ℓ κ} : {S : Type ℓ} {T : Type κ} → Result S → (S → Result T) → Result T
(err x) >>= next = err x
(ok s) >>= next = next s

-- `if err != nil { return err }` was passed.
pub >>=-eq-ok {ℓ κ} :
    {S : Type ℓ} {T : Type κ} (r : Result S) (next : S → Result T) {t : T}
    → (r >>= next) ≡ ok t
    → (s : S) × (r ≡ ok s) × (next s ≡ ok t)
>>=-eq-ok (err x) next h = cc
>>=-eq-ok (ok s) next h = (s, refl, h)

pub Result-cases {ℓ} :
    {A : Type ℓ} (r : Result A) → ((a : A) × (r ≡ ok a)) ⊎ ((e : Error) × (r ≡ err e))
Result-cases (ok a) = inl (a, refl)
Result-cases (err e) = inr (e, refl)
