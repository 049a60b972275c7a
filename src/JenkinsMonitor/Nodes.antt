-- ===== src/JenkinsMonitor/Nodes.antt =====
-- The nodes: pollNodes of jenkins-monitor/monitor.go and nodeWanted of jenkins-monitor/main.go.
pub mod Alternate
use dflybot.Prelude.{
  ℕ, Bool, true, false, ◌&&◌, ◌||◌, Option, none, some, List, [], ◌∷◌, ◌++◌, if◌then◌else◌,
}
use dflybot.Prelude.Bytes.{Bytes, ◌==◌}
use dflybot.Prelude.Sorted.{lookup, insert}
use dflybot.JenkinsMonitor.{
  NodeState, Config, node_offline, node_online, node_line, Effect, post, log,
}

pub record Node : Type 0 where
  pub display_name : Bytes
  pub offline : Bool
  pub cause : Bytes

abbrev pub Nodes : Type 0
Nodes = List (Bytes × NodeState)

abbrev pub some_node : (Bytes → Bytes → Bool) → List Bytes → Bytes → Bool
some_node fold [] name = false
some_node fold (n ∷ ns) name = if fold n name then true else some_node fold ns name

unfoldable pub node_wanted : Config → Bytes → Bool
node_wanted cfg name = some_node cfg.equal_fold cfg.nodes name

abbrev down : ℕ → Node → NodeState
down now n = record { offline = true; reason = n.cause; seen = now }

abbrev up : ℕ → NodeState
up now = record { offline = false; reason = []; seen = now }

abbrev went_down : ℕ → Node → NodeState × List Effect
went_down now n = (
  down now n,
  post (node_offline n.display_name n.cause) ∷ log (node_line n.display_name (down now n)) ∷ [],
)

-- The state of a node and the effects, by its last state and whether it was and is offline.
abbrev pub update_node : ℕ → Node → Option NodeState → Bool → NodeState × List Effect
update_node now n none true = went_down now n
update_node now n none false = (record { offline = false; reason = n.cause; seen = now }, [])
update_node now n (some st) true =
    if st.offline then (record st { seen = now }, []) else went_down now n
update_node now n (some st) false =
    if st.offline
    then (up now, post (node_online n.display_name) ∷ log (node_line n.display_name (up now)) ∷ [])
    else (record st { seen = now }, [])

unfoldable pub poll_node : ℕ → Node → Nodes → Nodes × List Effect
poll_node now n nodes =
    let (st, effects) = update_node now n (lookup n.display_name nodes) n.offline in
    (insert n.display_name st nodes, effects)

-- The loop over the computers, and the names of those that are wanted.
unfoldable pub poll_computers : Config → ℕ → List Node → Nodes → Nodes × List Effect × List Bytes
unfolding poll_node node_wanted
poll_computers cfg now [] nodes = (nodes, [], [])
poll_computers cfg now (n ∷ computers) nodes =
    let (nodes1, effects) = poll_node now n nodes in
    let (nodes2, later, seen) = poll_computers cfg now computers nodes1 in
    let skipped = poll_computers cfg now computers nodes in
    if node_wanted cfg n.display_name
    then (nodes2, effects ++ later, n.display_name ∷ seen)
    else skipped

abbrev was_seen : Bytes → List Bytes → Bool
was_seen s [] = false
was_seen s (t ∷ ts) = if t == s then true else was_seen s ts

-- The nodes without those that have disappeared and are not wanted.
unfoldable pub keep_nodes : Config → List Bytes → Nodes → Nodes
unfolding node_wanted
keep_nodes cfg seen [] = []
keep_nodes cfg seen ((name, st) ∷ nodes) =
    let rest = keep_nodes cfg seen nodes in
    if was_seen name seen || node_wanted cfg name then (name, st) ∷ rest else rest

abbrev pub poll_answer : Config → ℕ → Option (List Node) → Nodes → Nodes × List Effect × Bool
poll_answer cfg now none nodes = (nodes, [], false)
poll_answer cfg now (some computers) nodes =
    let (nodes1, effects, seen) = poll_computers cfg now computers nodes in
    (keep_nodes cfg seen nodes1, effects, true)

abbrev pub with_nodes : List Bytes → Nodes → Nodes × List Effect × Bool → Nodes × List Effect × Bool
with_nodes [] nodes answer = (nodes, [], true)
with_nodes (n ∷ ns) nodes answer = answer

-- The nodes afterwards, the effects, and whether there was no error; the computers are none after an
-- error.
unfoldable pub poll_nodes : Config → ℕ → Option (List Node) → Nodes → Nodes × List Effect × Bool
unfolding poll_computers keep_nodes
poll_nodes cfg now computers nodes =
    with_nodes cfg.nodes nodes (poll_answer cfg now computers nodes)
