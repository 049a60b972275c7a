-- ===== src/JenkinsMonitor/Nodes/Alternate.antt =====
-- What pollNodes of jenkins-monitor/monitor.go says of a node.
use mathlib.Core.Path.{ap₂, subst}
use mathlib.Core.List.{append_assoc, append-nil}
use dflybot.Prelude.{
  ℕ, Bool, true, false, Option, none, some, List, [], ◌∷◌, ◌++◌, ◌≡◌, inl, inr, arith, refl, sym,
  ap, ◌∙◌, if◌then◌else◌, Bool-cases,
}
use dflybot.Prelude.Bytes.{Bytes, ◌==◌, eq_iff}
use dflybot.Prelude.Sorted.{lookup, insert, lookup-insert}
use dflybot.JenkinsMonitor.{
  NodeState, Config, Note, failure, recovery, node_offline, node_online, stuck, cleared, Effect,
  post, log,
}
use dflybot.JenkinsMonitor.Nodes.{
  Node, Nodes, some_node, node_wanted, update_node, poll_node, poll_computers, keep_nodes,
  poll_nodes, poll_answer, with_nodes,
}

abbrev about : Bytes → Note → List Bool
about k (failure job b n) = []
about k (recovery job b n) = []
about k (node_offline name reason) = if name == k then true ∷ [] else []
about k (node_online name) = if name == k then false ∷ [] else []
about k (stuck job why age) = []
about k (cleared job age) = []

-- What the posts say of a node: true for offline.
unfoldable pub reports : Bytes → List Effect → List Bool
reports k [] = []
reports k (post n ∷ es) = about k n ++ reports k es
reports k (log h ∷ es) = reports k es

-- The values that differ from the one before.
unfoldable pub changes : Bool → List Bool → List Bool
changes s [] = []
changes s (b ∷ bs) =
    let rest = changes b bs in
    if b then (if s then rest else b ∷ rest) else (if s then b ∷ rest else rest)

abbrev pub last_known : Bool → List Bool → Bool
last_known s [] = s
last_known s (b ∷ bs) = last_known b bs

-- What Jenkins says of a node, in an answer and in those of polls.
unfoldable pub answers_of : Bytes → List Node → List Bool
answers_of k [] = []
answers_of k (n ∷ computers) =
    let rest = answers_of k computers in if n.display_name == k then n.offline ∷ rest else rest

unfoldable pub answers : Bytes → List (ℕ × Option (List Node)) → List Bool
unfolding answers_of
answers k [] = []
answers k ((now, none) ∷ polls) = answers k polls
answers k ((now, some computers) ∷ polls) = answers_of k computers ++ answers k polls

abbrev offline_of : Option NodeState → Bool
offline_of none = false
offline_of (some st) = st.offline

-- The last known state of a node, online where it is not known.
unfoldable pub is_offline : Bytes → Nodes → Bool
is_offline k nodes = offline_of (lookup k nodes)

reports-append :
    (k : Bytes) (xs ys : List Effect) → reports k (xs ++ ys) ≡ reports k xs ++ reports k ys
unfolding reports
reports-append k [] ys = refl
reports-append k (post n ∷ xs) ys =
    ap (λ l. about k n ++ l) (reports-append k xs ys)
    ∙ sym (append_assoc (about k n) (reports k xs) (reports k ys))
reports-append k (log h ∷ xs) ys = reports-append k xs ys

changes-append :
    (s : Bool) (xs ys : List Bool)
    → changes s (xs ++ ys) ≡ changes s xs ++ changes (last_known s xs) ys
unfolding changes
changes-append s [] ys = refl
changes-append true (true ∷ xs) ys = changes-append true xs ys
changes-append false (true ∷ xs) ys = ap (λ l. true ∷ l) (changes-append true xs ys)
changes-append true (false ∷ xs) ys = ap (λ l. false ∷ l) (changes-append false xs ys)
changes-append false (false ∷ xs) ys = changes-append false xs ys

last_known-append :
    (s : Bool) (xs ys : List Bool) → last_known s (xs ++ ys) ≡ last_known (last_known s xs) ys
last_known-append s [] ys = refl
last_known-append s (x ∷ xs) ys = last_known-append x xs ys

-- After these answers of a node the posts are of its changes, and its last answer is known.
abbrev Tells : Bytes → Bool → List Bool → Nodes → List Effect → Type 0
Tells k s bs nodes effects =
    (reports k effects ≡ changes s bs) × (is_offline k nodes ≡ last_known s bs)

Tells-append :
    (k : Bytes) (s : Bool) (xs ys : List Bool) (nodes nodes1 : Nodes) (es fs : List Effect)
    → Tells k s xs nodes es
    → Tells k (is_offline k nodes) ys nodes1 fs
    → Tells k s (xs ++ ys) nodes1 (es ++ fs)
Tells-append k s xs ys nodes nodes1 es fs (p, q) (r, t) = (
  reports-append k es fs
      ∙ ap₂ (λ (a b : List Bool). a ++ b) p (r ∙ ap (λ v. changes v ys) q)
      ∙ sym (changes-append s xs ys),
  t ∙ ap (λ v. last_known v ys) q ∙ sym (last_known-append s xs ys),
)

update_node-Tells :
    (now : ℕ) (k : Bytes) (n : Node) (st : Option NodeState) (b : Bool)
    → (n.display_name == k) ≡ true
    → let r = update_node now n st b in
      (reports k r.1 ≡ changes (offline_of st) (b ∷ [])) × (r.0.offline ≡ b)
unfolding reports changes
update_node-Tells now k n none true e = (rw e refl, refl)
update_node-Tells now k n none false e = (refl, refl)
update_node-Tells now k n (some st) true e = ground (arith, e)
update_node-Tells now k n (some st) false e = ground (arith, e)

update_node-apart :
    (now : ℕ) (k : Bytes) (n : Node) (st : Option NodeState) (b : Bool)
    → (n.display_name == k) ≡ false
    → reports k (update_node now n st b).1 ≡ []
unfolding reports
update_node-apart now k n none true e = rw e refl
update_node-apart now k n none false e = refl
update_node-apart now k n (some st) true e = ground (arith, e)
update_node-apart now k n (some st) false e = ground (arith, e)

poll_node-Tells :
    (now : ℕ) (k : Bytes) (n : Node) (nodes : Nodes)
    → let r = poll_node now n nodes in Tells k (is_offline k nodes) (answers_of k (n ∷ [])) r.0 r.1
unfolding poll_node is_offline changes answers_of
poll_node-Tells now k n nodes =
    let st = lookup n.display_name nodes in
    let r = update_node now n st n.offline in
    let l = lookup-insert n.display_name k r.0 nodes in
    elim (Bool-cases (n.display_name == k)) [
      | inl e ↦
          let u = update_node-Tells now k n st n.offline e in
          let q = (eq_iff n.display_name k).0 e in
          let at_k : lookup k (insert n.display_name r.0 nodes) ≡ some r.0 = l ∙ rw e refl in
          rw e (
            u.0 ∙ ap (λ x. changes (offline_of (lookup x nodes)) (n.offline ∷ [])) q,
            ap offline_of at_k ∙ u.1,
          )
      | inr e ↦
          let at_k : lookup k (insert n.display_name r.0 nodes) ≡ lookup k nodes = l ∙ rw e refl in
          rw e (update_node-apart now k n st n.offline e, ap offline_of at_k)
    ]

answers_of-cons :
    (k : Bytes) (n : Node) (computers : List Node)
    → answers_of k (n ∷ computers) ≡ answers_of k (n ∷ []) ++ answers_of k computers
unfolding answers_of
answers_of-cons k n computers = ground arith

-- A node that is not wanted is not this one.
unwanted_answers :
    (cfg : Config) (k : Bytes) (n : Node) (computers : List Node)
    → node_wanted cfg k ≡ true
    → node_wanted cfg n.display_name ≡ false
    → answers_of k (n ∷ computers) ≡ answers_of k computers
unfolding answers_of
unwanted_answers cfg k n computers w u = elim (Bool-cases (n.display_name == k)) [
  | inl e ↦ ground (arith, sym w ∙ ap (node_wanted cfg) (sym ((eq_iff n.display_name k).0 e)) ∙ u)
  | inr e ↦ rw e refl
]

poll_computers-Tells :
    (cfg : Config) (now : ℕ) (k : Bytes) (computers : List Node) (nodes : Nodes)
    → node_wanted cfg k ≡ true
    → let r = poll_computers cfg now computers nodes in
      Tells k (is_offline k nodes) (answers_of k computers) r.0 r.1
unfolding poll_computers changes reports answers_of
poll_computers-Tells cfg now k [] nodes w = (refl, refl)
poll_computers-Tells cfg now k (n ∷ computers) nodes w =
    elim (Bool-cases (node_wanted cfg n.display_name)) [
      | inl e ↦
          let r = poll_node now n nodes in
          let later = poll_computers cfg now computers r.0 in
          rw (e, poll_computers)
            (subst (λ bs. Tells k (is_offline k nodes) bs later.0 (r.1 ++ later.1))
              (sym (answers_of-cons k n computers))
              (Tells-append k (is_offline k nodes) (answers_of k (n ∷ [])) (answers_of k computers)
                r.0 later.0 r.1 later.1 (poll_node-Tells now k n nodes)
                (poll_computers-Tells cfg now k computers r.0 w)))
      | inr e ↦
          let later = poll_computers cfg now computers nodes in
          rw (e, poll_computers)
            (subst (λ bs. Tells k (is_offline k nodes) bs later.0 later.1)
              (sym (unwanted_answers cfg k n computers w e))
              (poll_computers-Tells cfg now k computers nodes w))
    ]

keep_nodes-wanted :
    (cfg : Config) (seen : List Bytes) (k : Bytes) (nodes : Nodes)
    → node_wanted cfg k ≡ true
    → lookup k (keep_nodes cfg seen nodes) ≡ lookup k nodes
unfolding keep_nodes lookup
keep_nodes-wanted cfg seen k [] w = refl
keep_nodes-wanted cfg seen k ((name, st) ∷ nodes) w =
    ground (arith, keep_nodes-wanted cfg seen k nodes w, eq_iff name k, w)

with_nodes-wanted :
    (fold : Bytes → Bytes → Bool) (k : Bytes) (ns : List Bytes) (nodes : Nodes)
    (r : Nodes × List Effect × Bool)
    → some_node fold ns k ≡ true
    → with_nodes ns nodes r ≡ r
with_nodes-wanted fold k [] nodes r w = ground (arith, w)
with_nodes-wanted fold k (n ∷ ns) nodes r w = refl

poll_nodes-Tells :
    (cfg : Config) (now : ℕ) (k : Bytes) (o : Option (List Node)) (nodes : Nodes)
    → node_wanted cfg k ≡ true
    → let r = poll_nodes cfg now o nodes in
      Tells k (is_offline k nodes) (answers k ((now, o) ∷ [])) r.0 r.1
unfolding poll_nodes node_wanted is_offline reports answers changes
poll_nodes-Tells cfg now k none nodes w =
    rw (with_nodes-wanted cfg.equal_fold k cfg.nodes nodes (poll_answer cfg now none nodes) w)
      (refl, refl)
poll_nodes-Tells cfg now k (some computers) nodes w =
    let (nodes1, effects, seen) = poll_computers cfg now computers nodes in
    let t = poll_computers-Tells cfg now k computers nodes w in
    rw
      (
        with_nodes-wanted cfg.equal_fold k cfg.nodes nodes
            (poll_answer cfg now (some computers) nodes) w,
        append-nil (answers_of k computers),
      )
      (t.0, ap offline_of (keep_nodes-wanted cfg seen k nodes1 w) ∙ t.1)

-- Polls one after the other, and their effects.
unfoldable pub run_nodes : Config → List (ℕ × Option (List Node)) → Nodes → Nodes × List Effect
unfolding poll_nodes
run_nodes cfg [] nodes = (nodes, [])
run_nodes cfg ((now, computers) ∷ polls) nodes =
    let p = poll_nodes cfg now computers nodes in
    let (nodes1, later) = run_nodes cfg polls p.0 in (nodes1, p.1 ++ later)

answers-cons :
    (k : Bytes) (p : ℕ × Option (List Node)) (polls : List (ℕ × Option (List Node)))
    → answers k (p ∷ polls) ≡ answers k (p ∷ []) ++ answers k polls
unfolding answers
answers-cons k (now, none) polls = refl
answers-cons k (now, some computers) polls =
    ap (λ l. l ++ answers k polls) (sym (append-nil (answers_of k computers)))

-- However the polls end, the posts on a monitored node are exactly the changes in what Jenkins says
-- of it, from the state that was known first (online if none was), each to offline or back online and
-- in their order; and the state that is known in the end is what Jenkins said last.
pub run_nodes-alternate :
    (cfg : Config) (k : Bytes) (polls : List (ℕ × Option (List Node))) (nodes : Nodes)
    → node_wanted cfg k ≡ true
    → let r = run_nodes cfg polls nodes in
      (reports k r.1 ≡ changes (is_offline k nodes) (answers k polls))
      × (is_offline k r.0 ≡ last_known (is_offline k nodes) (answers k polls))
unfolding run_nodes reports changes answers
run_nodes-alternate cfg k [] nodes w = (refl, refl)
run_nodes-alternate cfg k ((now, o) ∷ polls) nodes w =
    let p = poll_nodes cfg now o nodes in
    let later = run_nodes cfg polls p.0 in
    subst (λ bs. Tells k (is_offline k nodes) bs later.0 (p.1 ++ later.1))
      (sym (answers-cons k (now, o) polls))
      (Tells-append k (is_offline k nodes) (answers k ((now, o) ∷ [])) (answers k polls) p.0 later.0
        p.1 later.1 (poll_nodes-Tells cfg now k o nodes w) (run_nodes-alternate cfg k polls p.0 w))
