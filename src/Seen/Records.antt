-- ===== src/Seen/Records.antt =====
-- The records of the nicks over the operations of the store.
use mathlib.Core.Path.{subst}
use dflybot.Prelude.{
  ℕ, Bool, false, Option, none, some, [], ◌≡◌, inl, inr, arith, refl, sym, ap, ◌∙◌, Bool-cases,
  Option-cases, if◌then◌else◌,
}
use dflybot.Prelude.Bytes.{Bytes, ◌==◌}
use dflybot.Prelude.Sorted.{lookup, lookup-insert}
use dflybot.Seen.{
  SeenEntry, Nicks, SeenData, SeenStore, ci_key, change_nick, get_nick, or_no_entry, set, data_of,
  quit_nick, rename_nick, change_all, quit, rename, get, join, leave, message,
}
use dflybot.Seen.Nicks.{change_nick-get}
use dflybot.Seen.Keys.{IsFold, HasOneEach}
use dflybot.Seen.Store.{
  IsStore, or_same, changed, change_all-lookup, of_data, get-of_data, renamed, rename_nick-get,
  rename_nick-missing, after_rename, change_all-IsStore, rename_nick-HasOneEach,
  quit_nick-HasOneEach, quit_nick-change,
}

module _ (same : Bytes → Bytes → Bool) (fold : IsFold same) where
  data_of-HasOneEach :
      (ch : Bytes) (st : SeenStore)
      → IsStore same st
      → HasOneEach same (data_of ch (lookup ch st.channels)).nicks
  unfolding lookup
  data_of-HasOneEach ch st i = elim (Option-cases (lookup ch st.channels)) [
    | inl e ↦ rw e (record { one = λ j k hj hk s. ground (arith, hj); named = refl })
    | inr (d, e) ↦ rw e (i ch d e)
  ]

  data_of-get :
      (ch x : Bytes) (st : SeenStore)
      → get_nick same (data_of ch (lookup ch st.channels)).nicks x ≡ get same ch x st
  unfolding get get_nick ci_key ◌==◌
  data_of-get ch x st = elim (Option-cases (lookup ch st.channels)) [
    | inl e ↦ rw (e, get) refl
    | inr (d, e) ↦ rw (e, get) refl
  ]

  -- The records of the channel after a mark.
  marked : Bytes → Bytes → (SeenEntry → SeenEntry) → SeenStore → SeenData
  marked ch nick f st =
      let d = data_of ch (lookup ch st.channels) in
      record d { nicks = change_nick same nick f d.nicks }

  set-lookup :
      (ch nick : Bytes) (f : SeenEntry → SeenEntry) (st : SeenStore) (c : Bytes)
      → ch == [] ≡ false
      → nick == [] ≡ false
      → lookup c (set same ch nick f st).channels
        ≡ (if ch == c then some (marked ch nick f st) else lookup c st.channels)
  unfolding set marked
  set-lookup ch nick f st c n m =
      rw (n, m, set) (lookup-insert ch c (marked ch nick f st) st.channels)

  set-IsStore :
      (ch nick : Bytes) (f : SeenEntry → SeenEntry) (st : SeenStore)
      → IsStore same st
      → IsStore same (set same ch nick f st)
  unfolding set marked
  set-IsStore ch nick f st i = elim (Bool-cases (ch == [])) [
    | inl e ↦ rw (e, set) i
    | inr e ↦ elim (Bool-cases (nick == [])) [
      | inl n ↦ rw (e, n, set) i
      | inr n ↦ λ c d h. elim (Bool-cases (ch == c)) [
        | inl p ↦
            let q : some (marked ch nick f st) ≡ some d =
              rw p at (sym (set-lookup ch nick f st c e n) ∙ h) in
            let r : marked ch nick f st ≡ d = ground (arith, q) in
            subst (λ (x : SeenData). HasOneEach same x.nicks) r
              (change_nick-get same fold (data_of ch (lookup ch st.channels)).nicks nick nick f
                (data_of-HasOneEach ch st i) n).0
        | inr p ↦ i c d (rw p at (sym (set-lookup ch nick f st c e n) ∙ h))
      ]
    ]
  ]

  -- A mark of a nick in a channel changes its record, in all its spellings, and no other record.
  pub set-get :
      (ch nick : Bytes) (f : SeenEntry → SeenEntry) (st : SeenStore) (c x : Bytes)
      → IsStore same st
      → ch == [] ≡ false
      → nick == [] ≡ false
      → get same c x (set same ch nick f st) ≡ (
          if ch == c
          then (if same nick x
              then some (f (or_no_entry (get same ch nick st)))
              else get same ch x st)
          else get same c x st)
  unfolding marked
  set-get ch nick f st c x i n m =
      let d = data_of ch (lookup ch st.channels) in
      let k = change_nick-get same fold d.nicks nick x f (data_of-HasOneEach ch st i) m in
      get-of_data same fold c x (set same ch nick f st)
      ∙ ap (of_data same fold x) (set-lookup ch nick f st c n m)
      ∙ (elim (Bool-cases (ch == c)) [
        | inl p ↦ rw p (k.1 ∙ rw (data_of-get ch nick st, data_of-get ch x st) refl)
        | inr p ↦ rw p (sym (get-of_data same fold c x st))
      ])

  some_data :
      (ch x : Bytes) (st : SeenStore) (e : SeenEntry)
      → get same ch x st ≡ some e
      → (d : SeenData) × (lookup ch st.channels ≡ some d)
        × ((y : Bytes) → get same ch y st ≡ get_nick same d.nicks y)
  some_data ch x st e h = elim (Option-cases (lookup ch st.channels)) [
    | inl l ↦ ground (arith, sym h ∙ get-of_data same fold ch x st ∙ ap (of_data same fold x) l)
    | inr (d, l) ↦ (d, l, λ y. get-of_data same fold ch y st ∙ ap (of_data same fold y) l)
  ]

  all-get :
      (f : Nicks → Option Nicks) (ch x : Bytes) (st : SeenStore) (d : SeenData)
      → lookup ch st.channels ≡ some d
      → get same ch x (change_all f st.channels st.dirty)
        ≡ get_nick same (or_same d (f d.nicks)).nicks x
  all-get f ch x st d l =
      get-of_data same fold ch x (change_all f st.channels st.dirty)
      ∙ ap (of_data same fold x) (change_all-lookup f st.channels st.dirty ch ∙ ap (changed f) l)

  rename-get_found :
      (old neu ch x : Bytes) (st : SeenStore) (e : SeenEntry)
      → IsStore same st
      → old == [] ≡ false
      → neu == [] ≡ false
      → same old neu ≡ false
      → get same ch old st ≡ some e
      → get same ch x (rename same old neu st)
        ≡ renamed same fold old neu e x (get same ch neu st) (get same ch x st)
  unfolding rename
  rename-get_found old neu ch x st e i m n s h =
      let (d, l, g) = some_data ch old st e h in
      let (ns, q, u, r) =
        rename_nick-get same fold d.nicks old neu e (i ch d l) n s (sym (g old) ∙ h) in
      rw (m, n, s, rename)
        (all-get (rename_nick same old neu) ch x st d l ∙ rw (q, g neu, g x) (r x))

  rename-get_missing :
      (old neu ch x : Bytes) (st : SeenStore)
      → IsStore same st
      → old == [] ≡ false
      → neu == [] ≡ false
      → same old neu ≡ false
      → get same ch old st ≡ none
      → get same ch x (rename same old neu st) ≡ get same ch x st
  unfolding rename
  rename-get_missing old neu ch x st i m n s h =
      let f = rename_nick same old neu in
      let all = change_all f st.channels st.dirty in
      let found = λ (y : Bytes) (r : SeenStore). get-of_data same fold ch y r in
      let after = change_all-lookup f st.channels st.dirty ch in
      rw (m, n, s, rename)
        (elim (Option-cases (lookup ch st.channels)) [
          | inl l ↦
              found x all
              ∙ ap (of_data same fold x) (after ∙ ap (changed f) l)
              ∙ sym (found x st ∙ ap (of_data same fold x) l)
          | inr (d, l) ↦
              let g : get same ch x st ≡ get_nick same d.nicks x =
                found x st ∙ ap (of_data same fold x) l in
              let k : get_nick same d.nicks old ≡ none =
                sym (found old st ∙ ap (of_data same fold old) l) ∙ h in
              all-get f ch x st d l
              ∙ rw (rename_nick-missing same fold d.nicks old neu (i ch d l) k) (sym g)
        ])

  -- In a store with one record for each nick in each channel, as the operations keep it, a change of
  -- nick, between two that are not blank and not the same but for letter case: in each
  -- channel with a record of the old nick the new one has its times afterwards where it has none of
  -- its own, the old one has no record any more, and no other record changes; and in each channel
  -- without a record of the old nick no record changes.
  pub rename-get :
      (old neu ch x : Bytes) (st : SeenStore)
      → IsStore same st
      → old == [] ≡ false
      → neu == [] ≡ false
      → same old neu ≡ false
      → get same ch x (rename same old neu st)
        ≡ after_rename same fold old neu x
            (get same ch old st)
            (get same ch neu st)
            (get same ch x st)
  rename-get old neu ch x st i m n s = elim (Option-cases (get same ch old st)) [
    | inl h ↦ rename-get_missing old neu ch x st i m n s h ∙ rw h refl
    | inr (e, h) ↦ rename-get_found old neu ch x st e i m n s h ∙ rw h refl
  ]

  -- A quit marks the exit of the nick in each channel that has its record, and changes no other record.
  pub quit-get :
      (nick ch x : Bytes) (t : ℕ) (st : SeenStore) (e : SeenEntry)
      → IsStore same st
      → nick == [] ≡ false
      → get same ch nick st ≡ some e
      → get same ch x (quit same nick t st)
        ≡ (if same nick x then some (record e { exit = t }) else get same ch x st)
  unfolding quit
  quit-get nick ch x t st e i n h =
      let (d, l, g) = some_data ch nick st e h in
      let q = quit_nick-change same fold d.nicks nick t e (sym (g nick) ∙ h) in
      let c = change_nick-get same fold d.nicks nick x (λ e. record e { exit = t }) (i ch d l) n in
      rw (n, quit)
        (all-get (quit_nick same nick t) ch x st d l
          ∙ rw (q, g x) (c.1 ∙ rw (sym (g nick) ∙ h) refl))

  quit-IsStore :
      (nick : Bytes) (t : ℕ) (st : SeenStore) → IsStore same st → IsStore same (quit same nick t st)
  unfolding quit
  quit-IsStore nick t st i = elim (Bool-cases (nick == [])) [
    | inl e ↦ rw (e, quit) i
    | inr e ↦
        rw (e, quit)
          (change_all-IsStore same fold (quit_nick same nick t) st
            (λ ns. quit_nick-HasOneEach same fold ns nick t e) i)
  ]

  rename-IsStore :
      (old neu : Bytes) (st : SeenStore) → IsStore same st → IsStore same (rename same old neu st)
  unfolding rename
  rename-IsStore old neu st i = elim (Bool-cases (old == [])) [
    | inl m ↦ rw (m, rename) i
    | inr m ↦ elim (Bool-cases (neu == [])) [
      | inl n ↦ rw (m, n, rename) i
      | inr n ↦ elim (Bool-cases (same old neu)) [
        | inl s ↦ rw (m, n, s, rename) i
        | inr s ↦
            rw (m, n, s, rename)
              (change_all-IsStore same fold (rename_nick same old neu) st
                (λ ns. rename_nick-HasOneEach same fold ns old neu n s) i)
      ]
    ]
  ]

  -- Every operation keeps one record for each nick in each channel, so that what is found of a nick
  -- does not depend on the order in which the code goes through a map.
  pub operations-IsStore :
      (ch nick neu : Bytes) (t : ℕ) (st : SeenStore)
      → IsStore same st
      → IsStore same (join same ch nick t st)
        × IsStore same (leave same ch nick t st)
        × IsStore same (message same ch nick t st)
        × IsStore same (quit same nick t st)
        × IsStore same (rename same nick neu st)
  unfolding join leave message
  operations-IsStore ch nick neu t st i = (
    set-IsStore ch nick (λ e. record e { join = t }) st i,
    set-IsStore ch nick (λ e. record e { exit = t }) st i,
    set-IsStore ch nick (λ e. record e { message = t }) st i,
    quit-IsStore nick t st i,
    rename-IsStore nick neu st i,
  )
