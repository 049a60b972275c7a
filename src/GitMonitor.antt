-- ===== src/GitMonitor.antt =====
-- The poll of a git repository: listRefs, revList, getCommitInfo, seedState and
-- collectAnnouncements of git-monitor/monitor.go. What git prints is the environment's, by lines
-- that are trimmed; the maps of the source are lists in the order of their keys, in which it sorts
-- the names.
pub mod Refs
pub mod Visit
pub mod Branches
pub mod TagVisit
pub mod Tags
pub mod Seeding
pub mod Send
mod Tests
use dflybot.Prelude.{
  ℕ, Bool, true, false, Option, none, some, List, [], ◌∷◌, ◌++◌, ◌&&◌, if◌then◌else◌, leb, length,
}
use dflybot.Prelude.Bytes.{Bytes, ◌==◌, lit}
use dflybot.Prelude.Sorted.{lookup, insert}

abbrev pub Map : Type 0
Map = List (Bytes × Bytes)

-- What the commands of one poll print, none where the command or the scan of its output fails:
-- for-each-ref by lines, rev-list by lines, the first five lines of show, which its format always
-- has, the fields of rev-list --parents, and rev-parse of a tag's commit.
pub record Git : Type 0 where
  pub for_each_ref : Bytes → Option (List Bytes)
  pub rev_list : Bytes → Bytes → Option (List Bytes)
  pub show : Bytes → Option (Bytes × Bytes × Bytes × Bytes × Bytes)
  pub parents : Bytes → Option (List Bytes)
  pub rev_parse : Bytes → Option Bytes

pub record State : Type 0 where
  pub last_seen : Map
  pub seen_tags : Map
  pub updated_at : ℕ

pub record CommitInfo : Type 0 where
  pub hash : Bytes
  pub author_name : Bytes
  pub author_email : Bytes
  pub date : Bytes
  pub subject : Bytes

-- The blank branch or tag stands for none.
pub record Announcement : Type 0 where
  pub branch : Bytes
  pub tag : Bytes
  pub info : CommitInfo
  pub tag_updated : Bool
  pub is_merge : Bool
  pub link : Bytes

-- strings.Split at the spaces.
unfoldable pub split_space : Bytes → List Bytes
split_space [] = [] ∷ []
split_space (c ∷ s) =
    let rest = split_space s in
    if (c ∷ []) == lit " "
    then [] ∷ rest
    else elim rest [ [] ↦ (c ∷ []) ∷ [] | part ∷ parts ↦ (c ∷ part) ∷ parts ]

-- A line that does not have two parts is ignored; the blank one has one.
unfoldable pub add_ref : List Bytes → Map → Map
add_ref [] refs = refs
add_ref (name ∷ []) refs = refs
add_ref (name ∷ sha ∷ []) refs = insert name sha refs
add_ref (name ∷ sha ∷ more ∷ parts) refs = refs

unfoldable pub parse_refs : List Bytes → Map → Map
unfolding split_space add_ref
parse_refs [] refs = refs
parse_refs (line ∷ lines) refs = parse_refs lines (add_ref (split_space line) refs)

unfoldable pub list_refs : Git → Bytes → Option Map
unfolding parse_refs
list_refs git prefix = elim (git.for_each_ref prefix) [
  | none ↦ none
  | some lines ↦ some (parse_refs lines [])
]

unfoldable pub skip_blank : List Bytes → List Bytes
skip_blank [] = []
skip_blank ([] ∷ lines) = skip_blank lines
skip_blank ((c ∷ line) ∷ lines) = (c ∷ line) ∷ skip_blank lines

unfoldable pub rev_list : Git → Bytes → Bytes → Option (List Bytes)
unfolding skip_blank
rev_list git old new = elim (git.rev_list old new) [
  | none ↦ none
  | some lines ↦ some (skip_blank lines)
]

unfoldable pub get_commit_info : Git → Bytes → Option CommitInfo
get_commit_info git sha = elim (git.show sha) [
  | none ↦ none
  | some (h, an, ae, ad, s) ↦
      some (record { hash = h; author_name = an; author_email = ae; date = ad; subject = s })
]

-- A merge has more than one parent after its own sha; a failure counts as no merge.
unfoldable pub is_merge_commit : Git → Bytes → Bool
is_merge_commit git sha = elim (git.parents sha) [
  | none ↦ false
  | some parts ↦ leb 3 (length parts)
]

abbrev pub heads : Bytes
heads = lit "refs/heads"

abbrev pub tags : Bytes
tags = lit "refs/tags"

abbrev pub ref_of : Bytes → Bytes
ref_of b = lit "branch:" ++ b

unfoldable pub get_or_blank : Bytes → Map → Bytes
get_or_blank k m = elim (lookup k m) [ none ↦ [] | some sha ↦ sha ]

-- The commits of one branch, oldest first; the last one that is announced is what was seen.
unfoldable pub scan_commits : Git → Bytes → List Bytes → Map → Map × List Announcement
unfolding get_commit_info is_merge_commit
scan_commits git b [] seen = (seen, [])
scan_commits git b (sha ∷ shas) seen =
    let skipped = scan_commits git b shas seen in
    let (seen1, later) = scan_commits git b shas (insert (ref_of b) sha seen) in
    elim (get_commit_info git sha) [
      | none ↦ skipped
      | some ci ↦ (
        seen1,
        record {
          branch = b;
          tag = [];
          info = ci;
          tag_updated = false;
          is_merge = is_merge_commit git sha;
          link = [];
        }
            ∷ later,
      )
    ]

-- A branch that was not seen before is only seeded.
unfoldable pub visit_branch : Git → Bytes → Bytes → Map → Map × List Announcement
unfolding get_or_blank rev_list scan_commits
visit_branch git b new seen =
    let old = get_or_blank (ref_of b) seen in
    if old == []
    then (insert (ref_of b) new seen, [])
    else if old == new
    then (seen, [])
    else elim (rev_list git old new) [
      | none ↦ (seen, [])
      | some shas ↦ scan_commits git b shas seen
    ]

-- The loop over the names in order, each with what is done for one of them.
unfoldable pub visit_refs :
    (Bytes → Bytes → Map → Map × List Announcement) → Map → Map → Map × List Announcement
visit_refs visit [] seen = (seen, [])
visit_refs visit ((name, sha) ∷ refs) seen =
    let (seen1, ans) = visit name sha seen in
    let (seen2, later) = visit_refs visit refs seen1 in (seen2, ans ++ later)

unfoldable pub collect_branches : Git → Map → Map × List Announcement
unfolding list_refs visit_refs visit_branch
collect_branches git seen = elim (list_refs git heads) [
  | none ↦ (seen, [])
  | some refs ↦ visit_refs (visit_branch git) refs seen
]

abbrev pub has_sha : Option Bytes → Bytes → Bool
has_sha none sha = false
has_sha (some prev) sha = prev == sha

abbrev pub is_some : Option Bytes → Bool
is_some none = false
is_some (some sha) = true

-- The commit of a tag, or else its own object.
unfoldable pub commit_of : Git → Bytes → Bytes → Bytes
commit_of git t sha = elim (git.rev_parse t) [ none ↦ sha | some commit ↦ commit ]

abbrev pub announce_tag : Bytes → Bool → Option CommitInfo → List Announcement
announce_tag t updated none = []
announce_tag t updated (some ci) =
    record { branch = []; tag = t; info = ci; tag_updated = updated; is_merge = false; link = [] }
    ∷ []

unfoldable pub visit_tag : Git → Bytes → Bytes → Map → Map × List Announcement
unfolding commit_of get_commit_info
visit_tag git t sha seen = if has_sha (lookup t seen) sha then (seen, []) else (
  insert t (commit_of git t sha) seen,
  announce_tag t (is_some (lookup t seen)) (get_commit_info git (commit_of git t sha)),
)

unfoldable pub collect_tags : Git → Map → Map × List Announcement
unfolding list_refs visit_refs visit_tag
collect_tags git seen = elim (list_refs git tags) [
  | none ↦ (seen, [])
  | some refs ↦ visit_refs (visit_tag git) refs seen
]

unfoldable pub collect_announcements : Git → State → State × List Announcement
unfolding collect_branches collect_tags
collect_announcements git st =
    let (last_seen, branch_ans) = collect_branches git st.last_seen in
    let (seen_tags, tag_ans) = collect_tags git st.seen_tags in
    (record st { last_seen = last_seen; seen_tags = seen_tags }, branch_ans ++ tag_ans)

-- The two loops of seedState, with the key under which a name's sha is kept.
unfoldable pub seed_refs : (Bytes → Bytes) → Map → Map → Map
seed_refs key [] seen = seen
seed_refs key ((name, sha) ∷ refs) seen = seed_refs key refs (insert (key name) sha seen)

abbrev pub itself : Bytes → Bytes
itself t = t

abbrev pub is_blank : Map → Bool
is_blank [] = true
is_blank (e ∷ m) = false

unfoldable pub seed_tags : Git → ℕ → State → State × Bool
unfolding list_refs seed_refs
seed_tags git now st = elim (list_refs git tags) [
  | none ↦ (st, false)
  | some refs ↦
      (record st { seen_tags = seed_refs itself refs st.seen_tags; updated_at = now }, true)
]

-- The state, and whether the branches and the tags could be listed; a failure after the branches
-- leaves those seeded.
unfoldable pub seed_state : Git → ℕ → State → State × Bool
unfolding list_refs seed_refs seed_tags
seed_state git now st =
    if is_blank st.last_seen && is_blank st.seen_tags
    then elim (list_refs git heads) [
      | none ↦ (st, false)
      | some refs ↦ seed_tags git now (record st { last_seen = seed_refs ref_of refs st.last_seen })
    ]
    else (st, true)

-- The state of a new monitor.
abbrev pub fresh_state : State
fresh_state = record { last_seen = []; seen_tags = []; updated_at = 0 }

-- monitor.Loop: the polls one after the other, each with what git prints at its time.
unfoldable pub collects : List Git → State → State × List Announcement
unfolding collect_announcements
collects [] st = (st, [])
collects (git ∷ gits) st =
    let (st1, ans) = collect_announcements git st in
    let (st2, later) = collects gits st1 in (st2, ans ++ later)
