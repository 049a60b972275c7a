-- ===== src/Feed/Posts.antt =====
-- The lines and the lengths of the posts of announce (Feed).
use mathlib.Core.Path.{subst}
use dflybot.Prelude.{
  ℕ, ◌+◌, ◌≤◌, List, [], ◌∷◌, ◌++◌, ◌≡◌, arith, refl, sym, ap, ◌∙◌, inl, inr, length, Bool-cases,
  leb, All, ◌≢◌, ◌⊎◌, leb→le,
}
use dflybot.Prelude.Bytes.{Bytes}
use dflybot.Feed.{flush, announce_batches}
use dflybot.GitMonitor.Send.{join, separator, sep_len, batches}
use dflybot.GitMonitor.Send.Batch.{concat, batches-concat, join-append}

-- The batches without those that have no line.
unfoldable pub full : List (List Bytes) → List (List Bytes)
full [] = []
full ([] ∷ bs) = full bs
full ((l ∷ ls) ∷ bs) = (l ∷ ls) ∷ full bs

full-flush :
    (texts : List Bytes) (bs : List (List Bytes)) → full (texts ∷ bs) ≡ flush texts (full bs)
unfolding full
full-flush [] bs = refl
full-flush (l ∷ ls) bs = refl

-- The batches are those of the git monitor's announcements, without the empty one.
pub announce_batches-batches :
    (max prompt : ℕ) (texts : List Bytes) (cur : ℕ) (lines : List Bytes)
    → announce_batches max prompt texts cur lines ≡ full (batches max prompt texts cur lines)
unfolding announce_batches batches full
announce_batches-batches max prompt [] cur [] = refl
announce_batches-batches max prompt (l ∷ ls) cur [] = refl
announce_batches-batches max prompt texts cur (x ∷ lines) =
    let go =
      announce_batches-batches max prompt (texts ++ x ∷ []) (cur + (sep_len texts + length x))
        lines in
    let start = announce_batches-batches max prompt (x ∷ []) (length x) lines in
    elim (Bool-cases (leb (cur + sep_len texts + length x + prompt) max)) [
      | inl e ↦ rw (e, announce_batches, batches) go
      | inr e ↦ rw (e, announce_batches, batches, full-flush) (ap (flush texts) start)
    ]

concat-full : (bs : List (List Bytes)) → concat (full bs) ≡ concat bs
unfolding concat full
concat-full [] = refl
concat-full ([] ∷ bs) = concat-full bs
concat-full ((l ∷ ls) ∷ bs) = ap (λ r. (l ∷ ls) ++ r) (concat-full bs)

full-nonempty : (bs : List (List Bytes)) → All (λ b. b ≢ []) (full bs)
unfolding full
full-nonempty [] = tt
full-nonempty ([] ∷ bs) = full-nonempty bs
full-nonempty ((l ∷ ls) ∷ bs) = ((λ e. ground (arith, e)), full-nonempty bs)

-- A post fits, or it is one line.
abbrev pub FitsOrSingle : ℕ → ℕ → List Bytes → Type 0
FitsOrSingle max prompt b = (length b ≡ 1) ⊎ (length (join separator b) + prompt ≤ max)

abbrev IsOpen : ℕ → ℕ → List Bytes → ℕ → Type 0
IsOpen max prompt texts cur =
    (length (join separator texts) ≡ cur) × ((texts ≡ []) ⊎ FitsOrSingle max prompt texts)

flush_All :
    (max prompt : ℕ) (texts : List Bytes) (bs : List (List Bytes))
    → (texts ≡ []) ⊎ FitsOrSingle max prompt texts
    → All (FitsOrSingle max prompt) bs
    → All (FitsOrSingle max prompt) (flush texts bs)
flush_All max prompt [] bs o h = h
flush_All max prompt (t ∷ texts) bs (inl e) h = ground (arith, e)
flush_All max prompt (t ∷ texts) bs (inr f) h = (f, h)

IsOpen-start : (max prompt : ℕ) → IsOpen max prompt [] 0
unfolding join
IsOpen-start max prompt = (refl, inl refl)

announce_batches-FitsOrSingle :
    (max prompt : ℕ) (texts : List Bytes) (cur : ℕ) (lines : List Bytes)
    → IsOpen max prompt texts cur
    → All (FitsOrSingle max prompt) (announce_batches max prompt texts cur lines)
unfolding announce_batches join
announce_batches-FitsOrSingle max prompt texts cur [] o = flush_All max prompt texts [] o.1 tt
announce_batches-FitsOrSingle max prompt texts cur (x ∷ lines) o =
    elim (Bool-cases (leb (cur + sep_len texts + length x + prompt) max)) [
      | inl e ↦
          let j = join-append texts x in
          let b = leb→le (cur + sep_len texts + length x + prompt) max e in
          rw (e, announce_batches)
            (announce_batches-FitsOrSingle max prompt (texts ++ x ∷ [])
              (cur + (sep_len texts + length x)) lines
              (omega (arith, j, o.0), inr (inr (omega (arith, j, o.0, b)))))
      | inr e ↦
          rw (e, announce_batches)
            (flush_All max prompt texts (announce_batches max prompt (x ∷ []) (length x) lines) o.1
              (announce_batches-FitsOrSingle max prompt (x ∷ []) (length x) lines
                (refl, inr (inl refl))))
    ]

-- Every line of a poll is posted once and in order, no post is without a line, and a post of more
-- than one line is no longer than the poster allows.
pub announce_batches_post :
    (max prompt : ℕ) (lines : List Bytes)
    → let posts = announce_batches max prompt [] 0 lines in
      (concat posts ≡ lines) × All (λ b. b ≢ []) posts × All (FitsOrSingle max prompt) posts
announce_batches_post max prompt lines =
    let e = announce_batches-batches max prompt [] 0 lines in
    let bs = batches max prompt [] 0 lines in
    (
      ap concat e ∙ concat-full bs ∙ batches-concat max prompt [] 0 lines,
      subst (All (λ b. b ≢ [])) (sym e) (full-nonempty bs),
      announce_batches-FitsOrSingle max prompt [] 0 lines (IsOpen-start max prompt),
    )
