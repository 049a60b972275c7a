-- ===== src/GitMonitor/Send/Batch.antt =====
-- The batches of a branch's messages: nothing is lost, and no post is too long.
use mathlib.Core.List.{map}
use dflybot.Prelude.{
  ℕ, ◌+◌, ◌≤◌, ◌<◌, false, List, [], ◌∷◌, ◌++◌, ◌≡◌, ◌≢◌, ◌⊎◌, inl, inr, arith, refl, ap, ◌∙◌,
  length, length-append, All, All-map, Bool-cases, leb, leb→le,
}
use dflybot.Prelude.Bytes.{Bytes}
use dflybot.GitMonitor.Send.{join, separator, sep_len, batches, prompt_of, branch_posts}

unfoldable pub concat : List (List Bytes) → List Bytes
concat [] = []
concat (b ∷ bs) = b ++ concat bs

append_assoc_one :
    (batch : List Bytes) (am : Bytes) (ams : List Bytes)
    → (batch ++ am ∷ []) ++ ams ≡ batch ++ am ∷ ams
append_assoc_one [] am ams = refl
append_assoc_one (b ∷ batch) am ams = ap (λ l. b ∷ l) (append_assoc_one batch am ams)

-- Every message of the branch stands in one batch, and their order is kept.
pub batches-concat :
    (max prompt : ℕ) (batch : List Bytes) (cur : ℕ) (ms : List Bytes)
    → concat (batches max prompt batch cur ms) ≡ batch ++ ms
unfolding batches concat
batches-concat max prompt [] cur [] = refl
batches-concat max prompt (b ∷ batch) cur [] = refl
batches-concat max prompt batch cur (am ∷ ams) =
    elim (Bool-cases (leb (cur + sep_len batch + length am + prompt) max)) [
      | inl e ↦
          rw (e, batches)
            (batches-concat max prompt (batch ++ am ∷ []) (cur + (sep_len batch + length am)) ams
              ∙ append_assoc_one batch am ams)
      | inr e ↦
          rw (e, batches, concat)
            (ap (λ l. batch ++ l) (batches-concat max prompt (am ∷ []) (length am) ams))
    ]

pub join-append :
    (batch : List Bytes) (am : Bytes)
    → length (join separator (batch ++ am ∷ []))
      ≡ length (join separator batch) + sep_len batch + length am
unfolding join
join-append [] am = omega arith
join-append (b ∷ []) am =
    rw (length-append b (separator ++ am), length-append separator am) (omega arith)
join-append (b ∷ c ∷ batch) am =
    rw
      (
        length-append b (separator ++ join separator (c ∷ batch ++ am ∷ [])),
        length-append separator (join separator (c ∷ batch ++ am ∷ [])),
        length-append b (separator ++ join separator (c ∷ batch)),
        length-append separator (join separator (c ∷ batch)),
      )
      (omega (arith, join-append (c ∷ batch) am))

-- A batch is not empty, and it fits with the prompt.
abbrev pub Fits : ℕ → ℕ → List Bytes → Type 0
Fits max prompt batch = (batch ≢ []) × (length (join separator batch) + prompt ≤ max)

abbrev IsOpen : ℕ → ℕ → List Bytes → ℕ → Type 0
IsOpen max prompt batch cur =
    (length (join separator batch) ≡ cur) × ((batch ≡ []) ⊎ Fits max prompt batch)

pub append_nonempty : (batch : List Bytes) (am : Bytes) → batch ++ am ∷ [] ≢ []
append_nonempty [] am = λ e. ground (arith, e)
append_nonempty (b ∷ batch) am = λ e. ground (arith, e)

sep_len-empty : (batch : List Bytes) → batch ≡ [] → sep_len batch ≡ 0
sep_len-empty [] e = refl
sep_len-empty (b ∷ batch) e = ground (arith, e)

-- A message that fits alone can only be too long for a batch that is not empty.
overflows :
    (max prompt : ℕ) (batch : List Bytes) (cur : ℕ) (am : Bytes)
    → IsOpen max prompt batch cur
    → length am + prompt ≤ max
    → leb (cur + sep_len batch + length am + prompt) max ≡ false
    → Fits max prompt batch
unfolding join
overflows max prompt [] cur am (l, h) a e = ground (arith, l, a, e)
overflows max prompt (b ∷ batch) cur am (l, inl e') a e = ground (arith, e')
overflows max prompt (b ∷ batch) cur am (l, inr f) a e = f

pub batches-Fits :
    (max prompt : ℕ) (batch : List Bytes) (cur : ℕ) (ms : List Bytes)
    → IsOpen max prompt batch cur
    → All (λ (m : Bytes). length m + prompt ≤ max) ms
    → All (Fits max prompt) (batches max prompt batch cur ms)
unfolding batches join
batches-Fits max prompt [] cur [] o h = tt
batches-Fits max prompt (b ∷ batch) cur [] (l, inl e) h = ground (arith, e)
batches-Fits max prompt (b ∷ batch) cur [] (l, inr f) h = (f, tt)
batches-Fits max prompt batch cur (am ∷ ams) o (a, h) =
    elim (Bool-cases (leb (cur + sep_len batch + length am + prompt) max)) [
      | inl e ↦
          let j = join-append batch am in
          let b = leb→le (cur + sep_len batch + length am + prompt) max e in
          rw (e, batches)
            (batches-Fits max prompt (batch ++ am ∷ []) (cur + (sep_len batch + length am)) ams
              (omega (arith, j, o.0), inr (append_nonempty batch am, omega (arith, j, o.0, b))) h)
      | inr e ↦
          rw (e, batches)
            (
              overflows max prompt batch cur am o a e,
              batches-Fits max prompt (am ∷ []) (length am) ams
                  (refl, inr ((λ z. ground (arith, z)), a)) h,
            )
    ]

map-All-length :
    (max : ℕ) (prompt : Bytes) (bs : List (List Bytes))
    → All (Fits max (length prompt)) bs
    → All (λ (p : Bytes). length p ≤ max) (map (λ batch. prompt ++ join separator batch) bs)
map-All-length max prompt [] h = tt
map-All-length max prompt (b ∷ bs) ((n, f), h) =
    (omega (arith, length-append prompt (join separator b), f), map-All-length max prompt bs h)

-- If each message of a branch fits in a post with the branch's prompt, then no post for the branch
-- is longer than the poster allows, and none is without a message.
pub branch_posts_fit :
    (max : ℕ) (name b : Bytes) (ms : List Bytes)
    → All (λ (m : Bytes). length m + length (prompt_of name b) ≤ max) ms
    → All (λ (p : Bytes). length p ≤ max) (branch_posts max name b ms)
      × All (λ (batch : List Bytes). batch ≢ []) (batches max (length (prompt_of name b)) [] 0 ms)
unfolding branch_posts
branch_posts_fit max name b ms h =
    let f = batches-Fits max (length (prompt_of name b)) [] 0 ms (refl, inl refl) h in
    (
      map-All-length max (prompt_of name b) (batches max (length (prompt_of name b)) [] 0 ms) f,
      All-map _ _ (batches max (length (prompt_of name b)) [] 0 ms) (λ batch k. k.0) f,
    )

-- A first message that is too long is preceded by a batch that is empty: a post of the prompt only.
pub oversized_first :
    (max prompt : ℕ) (am : Bytes) (ams : List Bytes)
    → max < length am + prompt
    → batches max prompt [] 0 (am ∷ ams) ≡ [] ∷ batches max prompt (am ∷ []) (length am) ams
unfolding batches
oversized_first max prompt am ams h =
    let e : leb (0 + sep_len [] + length am + prompt) max ≡ false = ground (arith, h) in
    rw (e, batches) refl
