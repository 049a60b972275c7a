-- ===== src/Rules/Generate/Shortest.antt =====
-- Which key GenerateKey chooses.
use dflybot.Prelude.{
  ℕ, zero, suc, ◌+◌, ◌-◌, ◌≤◌, ◌<◌, Bool, true, false, some, [], ◌≡◌, ◌∙◌, ◌≢◌, ◌↔◌, ◌⊎◌, inl, inr,
  arith, length, take, Bool-cases, Option-cases, refl,
}
use dflybot.Prelude.Bytes.{Bytes, ◌==◌, eq_iff}
use dflybot.Store.Error.{Result, ok, err, >>=-eq-ok, conflict}
use dflybot.Rules.Key.Valid.{IsKey, validate_key_iff}
use dflybot.Rules.Match.{Rule, Vars, set_var}
use dflybot.Rules.Generate.{checked, render, plain_key, hash_loop, min_length, generate_key}

-- What Render returns is a valid key.
pub render-IsKey : (r : Rule) (vars : Vars) (key : Bytes) → render r vars ≡ ok key → IsKey key
unfolding render
render-IsKey r vars key h =
    let (k, e, c) = >>=-eq-ok (r.execute vars) checked h in (validate_key_iff key).0 (ground arith)

plain_key-eq-ok :
    (r : Rule) (vars : Vars) (is_free : Bytes → Result Bool) (key : Bytes)
    → plain_key r vars is_free ≡ ok key
    → (render r vars ≡ ok key) × (is_free key ≡ ok true)
unfolding plain_key
plain_key-eq-ok r vars is_free key h =
    let (k, e, f) = >>=-eq-ok (render r vars) _ h in
    let (b, g, i) = >>=-eq-ok (is_free k) _ f in (ground arith, ground arith)

eq-or-lt : (a b : ℕ) → a ≤ b → (a ≡ b) ⊎ (a + 1 ≤ b)
eq-or-lt a b h = omega arith

module _ (r : Rule) (vars : Vars) (hash_val : Bytes) (is_free : Bytes → Result Bool) where
  -- The key for the first `l` characters of the hash.
  abbrev pub prefix_key : ℕ → Result Bytes
  prefix_key l = render r (set_var r.hash (take l hash_val) vars)

  -- The key of that length is another target's.
  abbrev pub IsTaken : ℕ → Type 0
  IsTaken l = (key : Bytes) × (prefix_key l ≡ ok key) × (is_free key ≡ ok false)

  -- `i` is the first length from `l` on whose key is free, and below `l + n`.
  pub record IsFirst (n l i : ℕ) (key : Bytes) : Type 0 where
    pub from : l ≤ i
    pub below : i < l + n
    pub rendered : prefix_key i ≡ ok key
    pub free : is_free key ≡ ok true
    pub earlier : (j : ℕ) → l ≤ j → j < i → IsTaken j

  hash_loop-step :
      (n l : ℕ) (key : Bytes)
      → hash_loop r vars hash_val is_free (suc n) l ≡ ok key
      → ((prefix_key l ≡ ok key) × (is_free key ≡ ok true))
        ⊎ (IsTaken l × (hash_loop r vars hash_val is_free n (l + 1) ≡ ok key))
  unfolding hash_loop
  hash_loop-step n l key h =
      let (k, e, f) = >>=-eq-ok (prefix_key l) _ h in
      let (b, g, i) = >>=-eq-ok (is_free k) _ f in
      elim (Bool-cases b) [
        | inl t ↦ inl (ground arith, ground arith)
        | inr t ↦ inr ((k, e, ground arith), ground arith)
      ]

  hash_loop-IsFirst :
      (n l : ℕ) (key : Bytes)
      → hash_loop r vars hash_val is_free n l ≡ ok key
      → (i : ℕ) × IsFirst n l i key
  unfolding hash_loop
  hash_loop-IsFirst zero l key h = absurd (ground arith)
  hash_loop-IsFirst (suc n) l key h = elim (hash_loop-step n l key h) [
    | inl (e, f) ↦ (
      l,
      record {
        from = omega arith;
        below = omega arith;
        rendered = e;
        free = f;
        earlier = λ j a b. absurd (omega arith);
      },
    )
    | inr (t, rest) ↦
        let (i, first) = hash_loop-IsFirst n (l + 1) key rest in
        (
          i,
          record {
            from = omega (arith, first.from);
            below = omega (arith, first.below);
            rendered = first.rendered;
            free = first.free;
            earlier = λ j a b. elim (eq-or-lt l j a) [
              | inl same ↦ rw (← same) t
              | inr later ↦ first.earlier j later b
            ];
          },
        )
  ]

  hash_loop_skip :
      (n l : ℕ)
      → IsTaken l
      → hash_loop r vars hash_val is_free (suc n) l ≡ hash_loop r vars hash_val is_free n (l + 1)
  unfolding hash_loop
  hash_loop_skip n l (key, e, f) = ground arith

  hash_loop_taken :
      (n l : ℕ)
      → ((j : ℕ) → l ≤ j → j < l + n → IsTaken j)
      → hash_loop r vars hash_val is_free n l ≡ err conflict
  unfolding hash_loop
  hash_loop_taken zero l h = refl
  hash_loop_taken (suc n) l h =
      hash_loop_skip n l (h l (omega arith) (omega arith))
      ∙ hash_loop_taken n (l + 1) (λ j a b. h j (omega arith) (omega arith))

  hash_loop_first :
      (n l i : ℕ) (key : Bytes) → IsFirst n l i key → hash_loop r vars hash_val is_free n l ≡ ok key
  unfolding hash_loop
  hash_loop_first zero l i key h = absurd (omega (arith, h.below, h.from))
  hash_loop_first (suc n) l i key h = elim (eq-or-lt l i h.from) [
    | inl same ↦ let rendered : prefix_key l ≡ ok key = rw same h.rendered in ground (arith, h.free)
    | inr later ↦
        hash_loop_skip n l (h.earlier l (omega arith) (omega arith))
        ∙ hash_loop_first n (l + 1) i key (record {
          from = later;
          below = omega (arith, h.below);
          rendered = h.rendered;
          free = h.free;
          earlier = λ j a b. h.earlier j (omega arith) b;
        })
  ]

  abbrev lengths : ℕ
  lengths = length hash_val + 1 - min_length r hash_val

  hash_rule_eq :
      r.hash ≢ []
      → vars r.hash ≡ some hash_val
      → hash_val ≢ []
      → generate_key r vars is_free
        ≡ hash_loop r vars hash_val is_free lengths (min_length r hash_val)
  unfolding generate_key
  hash_rule_eq n e m = ground (arith, eq_iff r.hash [], eq_iff hash_val [])

  lengths_range : min_length r hash_val + lengths ≡ length hash_val + 1
  lengths_range = ground arith

  -- The key of a hash rule is that of the shortest prefix of the hash, of at least the configured
  -- length (or of the whole hash, if that is shorter), whose key is free: GenerateKey returns a key
  -- exactly when there is such a prefix before which every key renders and is taken.
  pub generate_key_hash_iff :
      (key : Bytes)
      → r.hash ≢ []
      → vars r.hash ≡ some hash_val
      → hash_val ≢ []
      → (generate_key r vars is_free ≡ ok key) ↔ (
          (i : ℕ) × IsFirst
            (length hash_val + 1 - min_length r hash_val)
            (min_length r hash_val)
            i
            key)
  generate_key_hash_iff key n e m = rw (hash_rule_eq n e m) (
    hash_loop-IsFirst lengths (min_length r hash_val) key,
    (λ x. let (i, first) = x in hash_loop_first lengths (min_length r hash_val) i key first),
  )

  -- If the keys of all admissible prefixes are taken, up to the whole hash, GenerateKey reports a
  -- conflict.
  pub generate_key_exhausted :
      r.hash ≢ []
      → vars r.hash ≡ some hash_val
      → hash_val ≢ []
      → ((j : ℕ) → min_length r hash_val ≤ j → j ≤ length hash_val → IsTaken j)
      → generate_key r vars is_free ≡ err conflict
  generate_key_exhausted n e m h = rw (hash_rule_eq n e m) (
      hash_loop_taken lengths (min_length r hash_val)
        (λ j a b. h j a (omega (arith, lengths_range))))

-- Whatever the rule and the variables, a generated key is a valid key and was free when the rule
-- engine asked.
pub generate_key_sound :
    (r : Rule) (vars : Vars) (is_free : Bytes → Result Bool) (key : Bytes)
    → generate_key r vars is_free ≡ ok key
    → IsKey key × (is_free key ≡ ok true)
unfolding generate_key
generate_key_sound r vars is_free key h = elim (Bool-cases (r.hash == [])) [
  | inl plain ↦
      let (e, f) = plain_key-eq-ok r vars is_free key (ground arith) in
      (render-IsKey r vars key e, f)
  | inr hashed ↦ elim (Option-cases (vars r.hash)) [
    | inl no_group ↦ absurd (ground arith)
    | inr (hash_val, group) ↦ elim (Bool-cases (hash_val == [])) [
      | inl blank ↦ absurd (ground arith)
      | inr given ↦
          let (i, first) =
            hash_loop-IsFirst r vars hash_val is_free (length hash_val + 1 - min_length r hash_val)
              (min_length r hash_val) key (ground arith) in
          (render-IsKey r (set_var r.hash (take i hash_val) vars) key first.rendered, first.free)
    ]
  ]
]
