-- ===== src/GitMonitor/Send/Group.antt =====
-- The messages of a branch in the posts: all of them, in the order of the commits.
use mathlib.Core.List.{append-nil}
use dflybot.Prelude.{
  false, List, [], ◌∷◌, ◌++◌, ◌≡◌, ◌≢◌, inl, inr, refl, sym, ap, ◌∙◌, Bool-cases, if◌then◌else◌,
}
use dflybot.Prelude.Bytes.{Bytes, ◌==◌, eq_iff}
use dflybot.Prelude.Sorted.{lookup, insert, lookup-insert}
use dflybot.GitMonitor.{Announcement}
use dflybot.GitMonitor.Visit.{differs}
use dflybot.GitMonitor.Send.{Groups, group, or_empty, commit_message}

-- The messages of one branch.
unfoldable pub messages_of : (Bytes → List Bytes) → Bytes → List Announcement → List Bytes
messages_of fields b [] = []
messages_of fields b (a ∷ ans) =
    let rest = messages_of fields b ans in
    if a.branch == b then commit_message fields a ∷ rest else rest

assoc_one : (xs : List Bytes) (y : Bytes) (ys : List Bytes) → (xs ++ y ∷ []) ++ ys ≡ xs ++ y ∷ ys
assoc_one [] y ys = refl
assoc_one (x ∷ xs) y ys = ap (λ l. x ∷ l) (assoc_one xs y ys)

abbrev add_message : (Bytes → List Bytes) → Announcement → Groups → Groups
add_message fields a groups =
    if a.branch == []
    then groups
    else insert a.branch (or_empty (lookup a.branch groups) ++ commit_message fields a ∷ []) groups

module _ (fields : Bytes → List Bytes) (b : Bytes) where
  add_message-lookup :
      (a : Announcement) (groups : Groups)
      → b ≢ []
      → or_empty (lookup b (add_message fields a groups)) ≡ (
          if a.branch == b
          then or_empty (lookup b groups) ++ commit_message fields a ∷ []
          else or_empty (lookup b groups))
  add_message-lookup a groups n =
      let m = or_empty (lookup a.branch groups) ++ commit_message fields a ∷ [] in
      elim (Bool-cases (a.branch == [])) [
        | inl e ↦
            let f : (a.branch == b) ≡ false =
              differs a.branch b (λ g. n (sym g ∙ (eq_iff a.branch []).0 e)) in
            rw (e, f) refl
        | inr e ↦ elim (Bool-cases (a.branch == b)) [
          | inl f ↦
              let g = (eq_iff a.branch b).0 f in
              rw (e, lookup-insert a.branch b m groups, f)
                (ap (λ x. or_empty (lookup x groups) ++ commit_message fields a ∷ []) g)
          | inr f ↦ rw (e, lookup-insert a.branch b m groups, f) refl
        ]
      ]

  pub group-messages :
      (ans : List Announcement) (groups : Groups)
      → b ≢ []
      → or_empty (lookup b (group fields ans groups))
        ≡ or_empty (lookup b groups) ++ messages_of fields b ans
  unfolding group messages_of
  group-messages [] groups n = sym (append-nil (or_empty (lookup b groups)))
  group-messages (a ∷ ans) groups n =
      let ih =
        group-messages ans (add_message fields a groups) n
        ∙ ap (λ l. l ++ messages_of fields b ans) (add_message-lookup a groups n) in
      elim (Bool-cases (a.branch == b)) [
        | inl e ↦
            let k = rw e at ih in
            rw (e, messages_of)
              (k
                ∙ assoc_one (or_empty (lookup b groups)) (commit_message fields a)
                    (messages_of fields b ans))
        | inr e ↦ let k = rw e at ih in rw (e, messages_of) k
      ]
