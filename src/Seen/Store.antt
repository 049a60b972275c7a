-- ===== src/Seen/Store.antt =====
-- What the operations of the store do to the record of each nick in each channel.
use mathlib.Core.Path.{subst}
use dflybot.Prelude.{
  ℕ, Bool, true, false, Option, none, some, List, [], ◌∷◌, ◌≡◌, inl, inr, arith, refl, sym, ap, ◌∙◌,
  Bool-cases, Option-cases, if◌then◌else◌,
}
use dflybot.Prelude.Bytes.{Bytes, ◌==◌}
use dflybot.Prelude.Sorted.{lookup, remove}
use dflybot.Seen.{
  SeenEntry, Nicks, SeenData, SeenStore, ci_key, key_for, change_nick, get_nick, or_no_entry,
  quit_nick, fill_entry, rename_nick, put_nicks, change_all, get,
}
use dflybot.Seen.Nicks.{change_nick-get, remove-get}
use dflybot.Seen.Keys.{IsFold, HasOneEach, ci_key-Finds}

-- In each channel each nick has one record.
abbrev pub IsStore : (Bytes → Bytes → Bool) → SeenStore → Type 0
IsStore same st =
    (ch : Bytes) (d : SeenData) → lookup ch st.channels ≡ some d → HasOneEach same d.nicks

abbrev pub or_same : SeenData → Option Nicks → SeenData
or_same d none = d
or_same d (some ns) = record d { nicks = ns }

abbrev pub changed : (Nicks → Option Nicks) → Option SeenData → Option SeenData
changed f none = none
changed f (some d) = some (or_same d (f d.nicks))

put_nicks-lookup :
    (c ch : Bytes) (d : SeenData) (o : Option Nicks) (st : SeenStore)
    → lookup c (put_nicks ch d o st).channels
      ≡ (if ch == c then some (or_same d o) else lookup c st.channels)
unfolding lookup
put_nicks-lookup c ch d none st = refl
put_nicks-lookup c ch d (some ns) st = refl

pub change_all-lookup :
    (f : Nicks → Option Nicks) (chs : List (Bytes × SeenData)) (dirty : List (Bytes × Bool))
    (c : Bytes)
    → lookup c (change_all f chs dirty).channels ≡ changed f (lookup c chs)
unfolding change_all lookup
change_all-lookup f [] dirty c = refl
change_all-lookup f ((ch, d) ∷ chs) dirty c =
    put_nicks-lookup c ch d (f d.nicks) (change_all f chs dirty) ∙ (elim (Bool-cases (ch == c)) [
      | inl e ↦ rw e refl
      | inr e ↦ rw e (change_all-lookup f chs dirty c)
    ])

module _ (same : Bytes → Bytes → Bool) (fold : IsFold same) where
  abbrev pub of_data : Bytes → Option SeenData → Option SeenEntry
  of_data x none = none
  of_data x (some d) = get_nick same d.nicks x

  pub get-of_data :
      (ch x : Bytes) (st : SeenStore) → get same ch x st ≡ of_data x (lookup ch st.channels)
  unfolding get
  get-of_data ch x st = elim (Option-cases (lookup ch st.channels)) [
    | inl e ↦ rw (e, get) refl
    | inr (d, e) ↦ rw (e, get) refl
  ]

  -- The record of a nick under a rename of `old`, whose record is `e`, to `neu`.
  abbrev pub renamed :
      Bytes → Bytes → SeenEntry → Bytes → Option SeenEntry → Option SeenEntry → Option SeenEntry
  renamed old neu e x of_neu of_x =
      if same neu x
      then some (fill_entry e (or_no_entry of_neu))
      else if same old x
      then none
      else of_x

  get_nick-found :
      (ns : Nicks) (nick : Bytes) (e : SeenEntry)
      → get_nick same ns nick ≡ some e
      → (ci_key same ns nick == [] ≡ false) × (lookup (ci_key same ns nick) ns ≡ some e)
  unfolding get_nick
  get_nick-found ns nick e h = elim (Bool-cases (ci_key same ns nick == [])) [
    | inl f ↦ ground (arith, rw (f, get_nick) at h)
    | inr f ↦ (f, rw (f, get_nick) at h)
  ]

  pub rename_nick-get :
      (ns : Nicks) (old neu : Bytes) (e : SeenEntry)
      → HasOneEach same ns
      → neu == [] ≡ false
      → same old neu ≡ false
      → get_nick same ns old ≡ some e
      → (ns' : Nicks) × (rename_nick same old neu ns ≡ some ns')
        × HasOneEach same ns'
        × ((x : Bytes)
            → get_nick same ns' x ≡ renamed old neu e x (get_nick same ns neu) (get_nick same ns x))
  unfolding rename_nick
  rename_nick-get ns old neu e u n s h =
      let (f, l) = get_nick-found ns old e h in
      let ns1 = remove (ci_key same ns old) ns in
      let r = remove-get same fold ns old in
      let c = λ (x : Bytes). change_nick-get same fold ns1 neu x (fill_entry e) (r old u f).0 n in
      (
        change_nick same neu (fill_entry e) ns1,
        rw (f, l, rename_nick) refl,
        (c old).0,
        λ x. (c x).1 ∙ rw ((r x u f).1, (r neu u f).1, s) refl,
      )

  pub get_nick-missing :
      (ns : Nicks) (nick : Bytes)
      → HasOneEach same ns
      → get_nick same ns nick ≡ none
      → ci_key same ns nick == [] ≡ true
  unfolding get_nick
  get_nick-missing ns nick u h = elim (Bool-cases (ci_key same ns nick == [])) [
    | inl f ↦ f
    | inr f ↦ elim (ci_key-Finds same ns nick u.named) [
      | inl (a, b, g) ↦
          let l : lookup (ci_key same ns nick) ns ≡ none = rw (f, get_nick) at h in
          ground (arith, l, b)
      | inr (a, b) ↦ a
    ]
  ]

  -- In a channel without a record of the old nick nothing changes.
  pub rename_nick-missing :
      (ns : Nicks) (old neu : Bytes)
      → HasOneEach same ns
      → get_nick same ns old ≡ none
      → rename_nick same old neu ns ≡ none
  unfolding rename_nick
  rename_nick-missing ns old neu u h = rw (get_nick-missing ns old u h, rename_nick) refl

  -- What is found of a nick after a rename, by what was found of the old one.
  abbrev pub after_rename :
      Bytes
      → Bytes
      → Bytes
      → Option SeenEntry
      → Option SeenEntry
      → Option SeenEntry
      → Option SeenEntry
  after_rename old neu x none of_neu of_x = of_x
  after_rename old neu x (some e) of_neu of_x = renamed old neu e x of_neu of_x

  abbrev pub or_nicks : Nicks → Option Nicks → Nicks
  or_nicks ns none = ns
  or_nicks ns (some ns') = ns'

  or_same-HasOneEach :
      (d : SeenData) (o : Option Nicks)
      → HasOneEach same (or_nicks d.nicks o)
      → HasOneEach same (or_same d o).nicks
  or_same-HasOneEach d none u = u
  or_same-HasOneEach d (some ns) u = u

  pub quit_nick-change :
      (ns : Nicks) (nick : Bytes) (t : ℕ) (e : SeenEntry)
      → get_nick same ns nick ≡ some e
      → quit_nick same nick t ns ≡ some (change_nick same nick (λ e. record e { exit = t }) ns)
  unfolding quit_nick change_nick key_for
  quit_nick-change ns nick t e h =
      let f = (get_nick-found ns nick e h).0 in rw (f, quit_nick, key_for) refl

  -- A change of the channels' records keeps one record for each nick if it does in each channel.
  pub change_all-IsStore :
      (f : Nicks → Option Nicks) (st : SeenStore)
      → ((ns : Nicks) → HasOneEach same ns → HasOneEach same (or_nicks ns (f ns)))
      → IsStore same st
      → IsStore same (change_all f st.channels st.dirty)
  change_all-IsStore f st k i ch d h =
      let e = change_all-lookup f st.channels st.dirty ch in
      elim (Option-cases (lookup ch st.channels)) [
        | inl l ↦ ground (arith, sym h ∙ e ∙ ap (changed f) l)
        | inr (d0, l) ↦
            let q : or_same d0 (f d0.nicks) ≡ d = ground (arith, sym h ∙ e ∙ ap (changed f) l) in
            subst (λ (x : SeenData). HasOneEach same x.nicks) q
              (or_same-HasOneEach d0 (f d0.nicks) (k d0.nicks (i ch d0 l)))
      ]

  pub rename_nick-HasOneEach :
      (ns : Nicks) (old neu : Bytes)
      → neu == [] ≡ false
      → same old neu ≡ false
      → HasOneEach same ns
      → HasOneEach same (or_nicks ns (rename_nick same old neu ns))
  unfolding rename_nick
  rename_nick-HasOneEach ns old neu n s u = elim (Option-cases (get_nick same ns old)) [
    | inl h ↦ rw (get_nick-missing ns old u h, rename_nick) u
    | inr (e, h) ↦ let (ns', q, v, g) = rename_nick-get ns old neu e u n s h in rw q v
  ]

  pub quit_nick-HasOneEach :
      (ns : Nicks) (nick : Bytes) (t : ℕ)
      → nick == [] ≡ false
      → HasOneEach same ns
      → HasOneEach same (or_nicks ns (quit_nick same nick t ns))
  unfolding quit_nick
  quit_nick-HasOneEach ns nick t n u = elim (Option-cases (get_nick same ns nick)) [
    | inl h ↦ rw (get_nick-missing ns nick u h, quit_nick) u
    | inr (e, h) ↦
        rw (quit_nick-change ns nick t e h)
          (change_nick-get same fold ns nick nick (λ e. record e { exit = t }) u n).0
  ]
