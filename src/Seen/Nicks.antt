-- ===== src/Seen/Nicks.antt =====
-- What a change of one record of a channel and the removal of one do to the others.
use mathlib.Core.Path.{subst}
use dflybot.Prelude.{
  Bool, true, false, none, some, [], ◌≡◌, inl, inr, arith, refl, sym, ap, ◌∙◌, Bool-cases,
  if◌then◌else◌,
}
use dflybot.Prelude.Bytes.{Bytes, ◌==◌, eq_iff, eq_refl}
use dflybot.Prelude.Sorted.{lookup, insert, remove, lookup-insert, lookup-remove}
use dflybot.Seen.{SeenEntry, Nicks, ci_key, key_for, change_nick, get_nick, or_no_entry}
use dflybot.Seen.Keys.{has, IsFold, HasOneEach, has-insert, has-remove, ci_key-Finds}

module _ (same : Bytes → Bytes → Bool) (fold : IsFold same) where
  pub get_nick-eq :
      (ns : Nicks) (k x : Bytes)
      → HasOneEach same ns
      → has k ns ≡ true
      → same k x ≡ true
      → get_nick same ns x ≡ lookup k ns
  unfolding get_nick
  get_nick-eq ns k x u h s = elim (ci_key-Finds same ns x u.named) [
    | inl (a, b, g) ↦
        let c = ci_key same ns x in
        rw (a, get_nick)
          (ap (λ j. lookup j ns) (u.one c k b h (fold.same_trans c x k g (fold.same_sym k x s))))
    | inr (a, b) ↦ ground (arith, b k h, s)
  ]

  pub get_nick-none :
      (ns : Nicks) (x : Bytes)
      → has [] ns ≡ false
      → ((k : Bytes) → has k ns ≡ true → same k x ≡ false)
      → get_nick same ns x ≡ none
  unfolding get_nick
  get_nick-none ns x n h = elim (ci_key-Finds same ns x n) [
    | inl (a, b, g) ↦ ground (arith, h (ci_key same ns x) b, g)
    | inr (a, b) ↦ rw (a, get_nick) refl
  ]

  -- The key under which the record of a nick is kept.
  record IsKeyFor (ns : Nicks) (nick key : Bytes) : Type 0 where
    pub fits : same key nick ≡ true
    pub is_named : key == [] ≡ false
    pub only : (k : Bytes) → has k ns ≡ true → same k nick ≡ true → k ≡ key
    pub entry : lookup key ns ≡ get_nick same ns nick

  has-none : (k : Bytes) (ns : Nicks) → has k ns ≡ false → lookup k ns ≡ none
  has-none k ns h = ground (arith, h)

  key_for-IsKeyFor :
      (ns : Nicks) (nick : Bytes)
      → HasOneEach same ns
      → nick == [] ≡ false
      → IsKeyFor ns nick (key_for same ns nick)
  unfolding key_for get_nick
  key_for-IsKeyFor ns nick u n = elim (ci_key-Finds same ns nick u.named) [
    | inl (a, b, g) ↦
        let c = ci_key same ns nick in
        rw (a, key_for)
          (record {
            fits = g;
            is_named = a;
            only = λ k h s. u.one k c h b (fold.same_trans k nick c s (fold.same_sym c nick g));
            entry = rw (a, get_nick) refl;
          })
    | inr (a, b) ↦
        rw (a, key_for)
          (record {
            fits = fold.same_refl nick;
            is_named = n;
            only = λ k h s. ground (arith, b k h, s);
            entry =
                rw (a, get_nick)
                  (has-none nick ns (elim (Bool-cases (has nick ns)) [
                    | inl h ↦ ground (arith, b nick h, fold.same_refl nick)
                    | inr h ↦ h
                  ]));
          })
  ]

  apart :
      (nick key x c : Bytes)
      → same key nick ≡ true
      → same c x ≡ true
      → same nick x ≡ false
      → (key == c) ≡ false
  apart nick key x c k g s = elim (Bool-cases (key == c)) [
    | inl p ↦
        let q = subst (λ y. same y x ≡ true) (sym ((eq_iff key c).0 p)) g in
        ground (arith, s, fold.same_trans nick key x (fold.same_sym key nick k) q)
    | inr p ↦ p
  ]

  differs_too :
      (nick key x : Bytes) → same key nick ≡ true → same nick x ≡ false → same key x ≡ false
  differs_too nick key x k s = elim (Bool-cases (same key x)) [
    | inl q ↦ ground (arith, s, fold.same_trans nick key x (fold.same_sym key nick k) q)
    | inr q ↦ q
  ]

  insert-HasOneEach :
      (ns : Nicks) (nick key : Bytes) (e : SeenEntry)
      → HasOneEach same ns
      → IsKeyFor ns nick key
      → HasOneEach same (insert key e ns)
  insert-HasOneEach ns nick key e u i = record {
    one = λ j k hj hk s. elim (Bool-cases (key == j)) [
      | inl p ↦ elim (Bool-cases (key == k)) [
        | inl q ↦ sym ((eq_iff key j).0 p) ∙ (eq_iff key k).0 q
        | inr q ↦
            let h : has k ns ≡ true = ground (arith, has-insert key k e ns, q, hk) in
            let f = subst (λ y. same y nick ≡ true) ((eq_iff key j).0 p) i.fits in
            sym (i.only k h (fold.same_trans k j nick (fold.same_sym j k s) f) ∙ (eq_iff key j).0 p)
      ]
      | inr p ↦
          let h : has j ns ≡ true = ground (arith, has-insert key j e ns, p, hj) in
          elim (Bool-cases (key == k)) [
            | inl q ↦
                let f = subst (λ y. same y nick ≡ true) ((eq_iff key k).0 q) i.fits in
                i.only j h (fold.same_trans j k nick s f) ∙ (eq_iff key k).0 q
            | inr q ↦ u.one j k h (ground (arith, has-insert key k e ns, q, hk)) s
          ]
    ];
    named = ground (arith, has-insert key [] e ns, i.is_named, u.named);
  }

  insert-get :
      (ns : Nicks) (nick key x : Bytes) (e : SeenEntry)
      → HasOneEach same ns
      → IsKeyFor ns nick key
      → get_nick same (insert key e ns) x ≡ (if same nick x then some e else get_nick same ns x)
  insert-get ns nick key x e u i =
      let v = insert-HasOneEach ns nick key e u i in
      elim (Bool-cases (same nick x)) [
        | inl s ↦
            let h : has key (insert key e ns) ≡ true =
              ground (arith, has-insert key key e ns, eq_refl key) in
            rw s (
              get_nick-eq (insert key e ns) key x v h (fold.same_trans key nick x i.fits s)
              ∙ rw (lookup-insert key key e ns, eq_refl key) refl)
        | inr s ↦ elim (ci_key-Finds same ns x u.named) [
          | inl (a, b, g) ↦
              let c = ci_key same ns x in
              let d : (key == c) ≡ false = apart nick key x c i.fits g s in
              rw s (
                get_nick-eq (insert key e ns) c x v (ground (arith, has-insert key c e ns, b, d)) g
                ∙ (rw (lookup-insert key c e ns, d) refl)
                ∙ sym (get_nick-eq ns c x u b g))
          | inr (a, b) ↦ rw s (
              get_nick-none (insert key e ns) x v.named (λ k h. elim (Bool-cases (key == k)) [
                | inl q ↦
                    subst (λ y. same y x ≡ false) ((eq_iff key k).0 q)
                      (differs_too nick key x i.fits s)
                | inr q ↦ b k (ground (arith, has-insert key k e ns, q, h))
              ])
              ∙ sym (get_nick-none ns x u.named b))
        ]
      ]

  -- A change of a nick's record leaves one record for each nick and changes that of no other nick.
  pub change_nick-get :
      (ns : Nicks) (nick x : Bytes) (f : SeenEntry → SeenEntry)
      → HasOneEach same ns
      → nick == [] ≡ false
      → HasOneEach same (change_nick same nick f ns)
        × (get_nick same (change_nick same nick f ns) x ≡ (
            if same nick x
            then some (f (or_no_entry (get_nick same ns nick)))
            else get_nick same ns x))
  unfolding change_nick
  change_nick-get ns nick x f u n =
      let key = key_for same ns nick in
      let i = key_for-IsKeyFor ns nick u n in
      let e = f (or_no_entry (lookup key ns)) in
      (
        insert-HasOneEach ns nick key e u i,
        insert-get ns nick key x e u i
            ∙ ap (λ o. if same nick x then some (f (or_no_entry o)) else get_nick same ns x)
                i.entry,
      )

  -- Without the record of a nick every other nick has its record.
  pub remove-get :
      (ns : Nicks) (nick x : Bytes)
      → HasOneEach same ns
      → ci_key same ns nick == [] ≡ false
      → HasOneEach same (remove (ci_key same ns nick) ns)
        × (get_nick same (remove (ci_key same ns nick) ns) x
            ≡ (if same nick x then none else get_nick same ns x))
  remove-get ns nick x u n = elim (ci_key-Finds same ns nick u.named) [
    | inl (a, b, g) ↦
        let key = ci_key same ns nick in
        let v : HasOneEach same (remove key ns) = record {
          one = λ j k hj hk s.
              u.one j k (ground (arith, has-remove key j ns, hj))
                (ground (arith, has-remove key k ns, hk)) s;
          named = ground (arith, has-remove key [] ns, u.named);
        } in
        (
          v,
          elim (Bool-cases (same nick x)) [
            | inl s ↦ rw s (
                get_nick-none (remove key ns) x v.named (λ k h. elim (Bool-cases (same k x)) [
                  | inl t ↦
                      let w = fold.same_trans k x nick t (fold.same_sym nick x s) in
                      let q =
                        u.one k key (ground (arith, has-remove key k ns, h)) b
                          (fold.same_trans k nick key w (fold.same_sym key nick g)) in
                      ground (arith, has-remove key k ns, h, (eq_iff key k).1 (sym q))
                  | inr t ↦ t
                ]))
            | inr s ↦ elim (ci_key-Finds same ns x u.named) [
              | inl (c, d, t) ↦
                  let k = ci_key same ns x in
                  let e : (key == k) ≡ false = apart nick key x k g t s in
                  rw s (
                    get_nick-eq (remove key ns) k x v (ground (arith, has-remove key k ns, d, e)) t
                    ∙ (rw (lookup-remove key k ns, e) refl)
                    ∙ sym (get_nick-eq ns k x u d t))
              | inr (c, d) ↦ rw s (
                  get_nick-none (remove key ns) x v.named
                    (λ k h. d k (ground (arith, has-remove key k ns, h)))
                  ∙ sym (get_nick-none ns x u.named d))
            ]
          ],
        )
    | inr (a, b) ↦ ground (arith, a, n)
  ]
