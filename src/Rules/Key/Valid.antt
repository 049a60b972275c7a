-- ===== src/Rules/Key/Valid.antt =====
-- Which keys ValidateKey accepts.
use mathlib.Core.Path.{ap₂}
use dflybot.Prelude.{
  ℕ, ◌≤◌, true, false, none, List, [], ◌∷◌, ◌++◌, ◌≡◌, ◌≢◌, ◌↔◌, ◌⊎◌, inl, inr, refl, sym, ap, ◌∙◌,
  arith, All, In, Bool-cases, length, eqb,
}
use dflybot.Prelude.Bytes.{Bytes, lit, ◌==◌, eq_iff}
use dflybot.Rules.Key.{
  slash, valid_char, check_chars, cons_head, split_slash, is_hidden, check_segments,
  reserved_exact_keys, check_reserved, starts_with_slash, validate_key,
}

-- A letter, a digit, or one of the bytes / . _ ~ and -.
abbrev pub IsKeyByte : ℕ → Type 0
IsKeyByte c =
    ((65 ≤ c) × (c ≤ 90))
    ⊎ ((97 ≤ c) × (c ≤ 122))
    ⊎ ((48 ≤ c) × (c ≤ 57))
    ⊎ (c ≡ 47)
    ⊎ (c ≡ 46)
    ⊎ (c ≡ 95)
    ⊎ (c ≡ 126)
    ⊎ (c ≡ 45)

-- The keys of section 7.5 of the design: what ValidateKey promises of a key that it accepts. No
-- slash is followed by a dot or a tilde.
pub record IsKey (key : Bytes) : Type 0 where
  pub rooted : (rest : Bytes) × (key ≡ b'/' ∷ rest)
  pub short : length key ≤ 256
  pub chars : All IsKeyByte key
  pub visible : (a b : Bytes) (c : ℕ) → key ≡ a ++ b'/' ∷ c ∷ b → (c ≢ 46) × (c ≢ 126)
  pub unreserved : (key ≢ lit "/") × (key ≢ lit "/robots.txt") × (key ≢ lit "/favicon.ico")

valid_char_iff : (c : ℕ) → (valid_char c ≡ true) ↔ IsKeyByte c
unfolding valid_char
valid_char_iff c = ((λ h. ground (arith, h)), (λ h. ground (arith, h)))

All_valid : (s : Bytes) → All (λ c. valid_char c ≡ true) s ↔ All IsKeyByte s
All_valid [] = ((λ h. tt), (λ h. tt))
All_valid (c ∷ s) = (
  (λ (v, h). ((valid_char_iff c).0 v, (All_valid s).0 h)),
  (λ (v, h). ((valid_char_iff c).1 v, (All_valid s).1 h)),
)

chars_iff : (s : Bytes) → (check_chars s ≡ none) ↔ All (λ c. valid_char c ≡ true) s
unfolding check_chars
chars_iff [] = ((λ h. tt), (λ h. refl))
chars_iff (c ∷ s) =
    let (f, g) = chars_iff s in
    ((λ h. (ground arith, f (ground arith))), (λ h. ground (arith, g h.1)))

-- The test for ".." only chooses the message: such a segment starts with a dot.
hidden-dot_dot : (seg : Bytes) → (seg == lit "..") ≡ true → is_hidden seg ≡ true
unfolding is_hidden
hidden-dot_dot [] h = ground (arith, eq_iff [] (lit ".."))
hidden-dot_dot (c ∷ s) h = ground (arith, eq_iff (c ∷ s) (lit ".."))

segments_iff :
    (segs : List Bytes) → (check_segments segs ≡ none) ↔ All (λ seg. is_hidden seg ≡ false) segs
unfolding check_segments
segments_iff [] = ((λ h. tt), (λ h. refl))
segments_iff (seg ∷ segs) =
    let (f, g) = segments_iff segs in
    (
      (λ h. (ground (arith, hidden-dot_dot seg), f (ground (arith, hidden-dot_dot seg)))),
      (λ h. ground (arith, hidden-dot_dot seg, g h.1)),
    )

reserved_sound : (key : Bytes) (ks : List Bytes) → check_reserved key ks ≡ none → ¬ In key ks
unfolding check_reserved
reserved_sound key [] h i = i
reserved_sound key (k ∷ ks) h (inl e) = ground (arith, eq_iff key k)
reserved_sound key (k ∷ ks) h (inr i) = reserved_sound key ks (ground arith) i

reserved_complete : (key : Bytes) (ks : List Bytes) → ¬ In key ks → check_reserved key ks ≡ none
unfolding check_reserved
reserved_complete key [] h = refl
reserved_complete key (k ∷ ks) h = elim (Bool-cases (key == k)) [
  | inl e ↦ absurd (h (inl ((eq_iff key k).0 e)))
  | inr e ↦ rw e (reserved_complete key ks (λ i. h (inr i)))
]

tail : List Bytes → List Bytes
tail [] = []
tail (s ∷ ss) = ss

check-tail : (segs : List Bytes) → check_segments (tail segs) ≢ none → check_segments segs ≢ none
unfolding check_segments tail
check-tail [] h = h
check-tail (s ∷ ss) h = ground arith

tail-cons_head : (c : ℕ) (segs : List Bytes) → tail (cons_head c segs) ≡ tail segs
unfolding tail cons_head
tail-cons_head c [] = refl
tail-cons_head c (s ∷ ss) = refl

cons_head_visible :
    (c : ℕ) (segs : List Bytes)
    → (c ≢ 46) × (c ≢ 126)
    → All (λ seg. is_hidden seg ≡ false) (tail segs)
    → All (λ seg. is_hidden seg ≡ false) (cons_head c segs)
unfolding cons_head tail is_hidden
cons_head_visible c [] n h = (ground (arith, n), tt)
cons_head_visible c (s ∷ ss) n h = (ground (arith, n), h)

-- The first segment is visible where the text does not start with a dot or a tilde.
visible_all :
    (s : Bytes)
    → ((c : ℕ) (b : Bytes) → s ≡ c ∷ b → (c ≢ 46) × (c ≢ 126))
    → All (λ seg. is_hidden seg ≡ false) (tail (split_slash s))
    → All (λ seg. is_hidden seg ≡ false) (split_slash s)
unfolding split_slash tail is_hidden
visible_all [] n h = (refl, tt)
visible_all (c ∷ s) n h = elim (Bool-cases (eqb c slash)) [
  | inl e ↦ rw e (refl, (rw e at h))
  | inr e ↦ rw e (cons_head_visible c (split_slash s) (n c s refl) (rw (e, tail-cons_head) at h))
]

hidden_cons :
    (c : ℕ) (segs : List Bytes)
    → ((c ≡ b'.') ⊎ (c ≡ b'~'))
    → check_segments (cons_head c segs) ≢ none
unfolding check_segments cons_head
hidden_cons c [] h = ground arith
hidden_cons c (s ∷ ss) h = ground arith

hidden_head :
    (c : ℕ) (b : Bytes) → ((c ≡ b'.') ⊎ (c ≡ b'~')) → check_segments (split_slash (c ∷ b)) ≢ none
unfolding split_slash
hidden_head c b h =
    let not_slash : eqb c slash ≡ false = ground arith in
    rw not_slash (hidden_cons c (split_slash b) h)

hidden_in_tail :
    (a b : Bytes) (c : ℕ)
    → ((c ≡ b'.') ⊎ (c ≡ b'~'))
    → check_segments (tail (split_slash (a ++ slash ∷ c ∷ b))) ≢ none
unfolding split_slash tail
hidden_in_tail [] b c h = hidden_head c b h
hidden_in_tail (x ∷ a) b c h =
    let ih = hidden_in_tail a b c h in
    elim (Bool-cases (eqb x slash)) [
      | inl e ↦ rw e (check-tail (split_slash (a ++ slash ∷ c ∷ b)) ih)
      | inr e ↦ rw e (rw tail-cons_head ih)
    ]

-- No key with a segment that starts with a dot or a tilde is accepted, wherever the segment stands:
-- so none lies below /.api/ or /.well-known/, and none is a random key.
pub validate_key_hidden :
    (a b : Bytes) (c : ℕ) → ((c ≡ b'.') ⊎ (c ≡ b'~')) → validate_key (a ++ slash ∷ c ∷ b) ≢ none
unfolding validate_key
validate_key_hidden a b c h =
    let key : Bytes = a ++ slash ∷ c ∷ b in
    let seen = check-tail (split_slash key) (hidden_in_tail a b c h) in ground (arith, seen)

-- Without a dot or a tilde after a slash all segments but the first are visible.
visible_tail :
    (s : Bytes)
    → ((a b : Bytes) (c : ℕ) → s ≡ a ++ slash ∷ c ∷ b → (c ≢ 46) × (c ≢ 126))
    → All (λ seg. is_hidden seg ≡ false) (tail (split_slash s))
unfolding split_slash tail
visible_tail [] h = tt
visible_tail (x ∷ s) h =
    let ih = visible_tail s (λ a b c e. h (x ∷ a) b c (ap (λ l. x ∷ l) e)) in
    elim (Bool-cases (eqb x slash)) [
      | inl e ↦
          let q : x ≡ slash = ground (arith, e) in
          rw e (visible_all s (λ c b w. h [] b c (ap₂ (λ (y : ℕ) (l : Bytes). y ∷ l) q w)) ih)
      | inr e ↦ rw e (rw tail-cons_head ih)
    ]

visible_key : (key : Bytes) → IsKey key → All (λ seg. is_hidden seg ≡ false) (split_slash key)
visible_key key h =
    let (rest, r) = h.rooted in
    visible_all key (λ c b w. ground (arith, sym w ∙ r)) (visible_tail key h.visible)

starts_iff : (key : Bytes) → starts_with_slash key ≡ true → (rest : Bytes) × (key ≡ b'/' ∷ rest)
unfolding starts_with_slash
starts_iff [] h = ground (arith, h)
starts_iff (c ∷ s) h = (s, ap (λ x. x ∷ s) (ground (arith, h)))

reserved_iff :
    (key : Bytes)
    → (check_reserved key reserved_exact_keys ≡ none)
      ↔ ((key ≢ lit "/") × (key ≢ lit "/robots.txt") × (key ≢ lit "/favicon.ico"))
reserved_iff key = (
  (λ h.
      let n = reserved_sound key reserved_exact_keys h in
      ((λ e. n (inl e)), (λ e. n (inr (inl e))), (λ e. n (inr (inr (inl e)))))),
  (λ (a, b, c). reserved_complete key reserved_exact_keys (λ i. elim i [
    | inl e ↦ a e
    | inr (inl e) ↦ b e
    | inr (inr (inl e)) ↦ c e
    | inr (inr (inr x)) ↦ elim x [ ]
  ])),
)

-- What the checks say of a key that passes them all.
validate_key_checks :
    (key : Bytes)
    → validate_key key ≡ none
    → (starts_with_slash key ≡ true)
      × (length key ≤ 256)
      × (check_chars key ≡ none)
      × (check_reserved key reserved_exact_keys ≡ none)
unfolding validate_key
validate_key_checks key h = (ground arith, ground arith, ground arith, ground arith)

validate_key_sound : (key : Bytes) → validate_key key ≡ none → IsKey key
validate_key_sound key h =
    let (r, l, c, u) = validate_key_checks key h in
    record {
      rooted = starts_iff key r;
      short = l;
      chars = (All_valid key).0 ((chars_iff key).0 c);
      visible = λ a b c e. (
        (λ d. validate_key_hidden a b c (inl d) (ap validate_key (sym e) ∙ h)),
        (λ d. validate_key_hidden a b c (inr d) (ap validate_key (sym e) ∙ h)),
      );
      unreserved = (reserved_iff key).0 u;
    }

validate_key_complete : (key : Bytes) → IsKey key → validate_key key ≡ none
unfolding validate_key starts_with_slash
validate_key_complete key h =
    let chars = (chars_iff key).1 ((All_valid key).1 h.chars) in
    let visible = (segments_iff (split_slash key)).1 (visible_key key h) in
    let unreserved = (reserved_iff key).1 h.unreserved in
    let (rest, e) = h.rooted in
    let rooted : starts_with_slash key ≡ true = rw e refl in
    let short = h.short in ground (arith, eq_iff key [], chars, visible, unreserved, rooted, short)

-- ValidateKey accepts exactly the keys that start with a slash, have at most 256 bytes, all of them
-- letters, digits or one of / . _ ~ and -, have no dot or tilde after a slash, and are none of /,
-- /robots.txt and /favicon.ico.
pub validate_key_iff : (key : Bytes) → (validate_key key ≡ none) ↔ IsKey key
validate_key_iff key = (validate_key_sound key, validate_key_complete key)
