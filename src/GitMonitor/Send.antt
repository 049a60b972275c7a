-- ===== src/GitMonitor/Send.antt =====
-- The posts for what was collected: sendAnnouncements, resolveLinks, formatCommit and sanitize of
-- git-monitor/monitor.go. The fields of a text, the commit URL's template and the shortener are
-- not the program's; a post is its text.
pub mod Batch
pub mod Group
pub mod Links
use mathlib.Core.List.{map}
use dflybot.Prelude.{
  ℕ, ◌+◌, Bool, true, false, not, Option, none, some, List, [], ◌∷◌, ◌++◌, if◌then◌else◌, leb, eqb,
  length,
}
use dflybot.Prelude.Bytes.{Bytes, ◌==◌, lit}
use dflybot.Prelude.Sorted.{lookup, insert}
use dflybot.GitMonitor.{Map, CommitInfo, Announcement}

unfoldable pub join : Bytes → List Bytes → Bytes
join sep [] = []
join sep (s ∷ []) = s
join sep (s ∷ t ∷ ss) = s ++ (sep ++ join sep (t ∷ ss))

abbrev pub dash : Bytes
dash = 32 ∷ 226 ∷ 128 ∷ 148 ∷ 32 ∷ []

abbrev pub separator : Bytes
separator = lit " || "

abbrev pub is_break : ℕ → Bool
is_break c = if eqb c 13 then true else if eqb c 10 then true else eqb c 9

-- The three calls of ReplaceAll.
unfoldable pub replace_breaks : Bytes → Bytes
replace_breaks [] = []
replace_breaks (c ∷ s) = (if is_break c then 32 else c) ∷ replace_breaks s

-- `fields` is strings.Fields.
unfoldable pub sanitize : (Bytes → List Bytes) → Bytes → Bytes
unfolding replace_breaks join
sanitize fields [] = []
sanitize fields (c ∷ s) = join (lit " ") (fields (replace_breaks (c ∷ s)))

abbrev pub add_part : Bytes → Bytes → Bytes
add_part s [] = s
add_part s (c ∷ part) = s ++ (dash ++ c ∷ part)

unfoldable pub format_commit : (Bytes → List Bytes) → CommitInfo → Bytes → Bytes
unfolding sanitize
format_commit fields ci link =
    add_part (add_part (sanitize fields ci.subject) (sanitize fields ci.author_name)) link

unfoldable pub tag_message : (Bytes → List Bytes) → Bytes → Announcement → Bytes
unfolding format_commit
tag_message fields name a =
    let tag = lit "tag:" ++ a.tag ++ (if a.tag_updated then lit " (updated)" else []) in
    lit "[" ++ name ++ lit "] " ++ tag ++ dash ++ format_commit fields a.info a.link

unfoldable pub tag_posts : (Bytes → List Bytes) → Bytes → List Announcement → List Bytes
unfolding tag_message
tag_posts fields name [] = []
tag_posts fields name (a ∷ ans) =
    let rest = tag_posts fields name ans in
    if a.tag == [] then rest else tag_message fields name a ∷ rest

unfoldable pub commit_message : (Bytes → List Bytes) → Announcement → Bytes
unfolding format_commit
commit_message fields a =
    (if a.is_merge then lit "(merge) " else []) ++ format_commit fields a.info a.link

abbrev pub Groups : Type 0
Groups = List (Bytes × List Bytes)

abbrev pub or_empty : Option (List Bytes) → List Bytes
or_empty none = []
or_empty (some ms) = ms

-- The messages of the commits by branch.
unfoldable pub group : (Bytes → List Bytes) → List Announcement → Groups → Groups
unfolding commit_message
group fields [] groups = groups
group fields (a ∷ ans) groups = group fields ans (
    if a.branch == []
    then groups
    else insert a.branch (or_empty (lookup a.branch groups) ++ commit_message fields a ∷ []) groups)

abbrev pub sep_len : List Bytes → ℕ
sep_len [] = 0
sep_len (m ∷ batch) = length separator

abbrev pub last_batch : List Bytes → List (List Bytes)
last_batch [] = []
last_batch (m ∷ batch) = (m ∷ batch) ∷ []

-- The loop over a branch's messages, by batches; `cur` is the source's curLen, and the length of
-- the prompt is on the left of the comparison.
unfoldable pub batches : ℕ → ℕ → List Bytes → ℕ → List Bytes → List (List Bytes)
batches max prompt batch cur [] = last_batch batch
batches max prompt batch cur (am ∷ ams) =
    let longer = batches max prompt (batch ++ am ∷ []) (cur + (sep_len batch + length am)) ams in
    let started = batches max prompt (am ∷ []) (length am) ams in
    if leb (cur + sep_len batch + length am + prompt) max then longer else batch ∷ started

unfoldable pub prompt_of : Bytes → Bytes → Bytes
prompt_of name b = lit "[" ++ name ++ lit ":" ++ b ++ lit "] "

unfoldable pub branch_posts : ℕ → Bytes → Bytes → List Bytes → List Bytes
unfolding batches join prompt_of
branch_posts max name b ms =
    map (λ batch. prompt_of name b ++ join separator batch)
      (batches max (length (prompt_of name b)) [] 0 ms)

unfoldable pub commit_posts : ℕ → Bytes → Groups → List Bytes
unfolding branch_posts
commit_posts max name [] = []
commit_posts max name ((b, ms) ∷ groups) =
    branch_posts max name b ms ++ commit_posts max name groups

-- resolveLinks: the commit's URL, where a template is set and renders.
unfoldable pub set_link : Option (CommitInfo → Option Bytes) → Announcement → Announcement
set_link none a = a
set_link (some render) a = elim (render a.info) [ none ↦ a | some url ↦ record a { link = url } ]

abbrev pub mem : Bytes → List Bytes → Bool
mem s [] = false
mem s (t ∷ ts) = if t == s then true else mem s ts

-- The links to shorten, each once.
unfoldable pub link_targets : List Bytes → List Announcement → List Bytes
link_targets targets [] = targets
link_targets targets (a ∷ ans) =
    link_targets
      (if a.link == []
        then targets
        else if mem a.link targets
        then targets
        else targets ++ a.link ∷ [])
      ans

unfoldable pub shorten_link : Map → Announcement → Announcement
shorten_link short a = elim (lookup a.link short) [ none ↦ a | some s ↦ record a { link = s } ]

-- What ShortenBatch answers, also where it fails midway; it is called for a list that is not empty.
unfoldable pub shorten_links :
    (List Bytes → Map) → List Bytes → List Announcement → List Announcement
unfolding shorten_link
shorten_links shorten [] ans = ans
shorten_links shorten (t ∷ ts) ans = map (shorten_link (shorten (t ∷ ts))) ans

unfoldable pub resolve_links :
    Option (CommitInfo → Option Bytes)
    → Option (List Bytes → Map)
    → List Announcement
    → List Announcement
unfolding set_link link_targets shorten_links
resolve_links url none ans = map (set_link url) ans
resolve_links url (some shorten) ans =
    let linked = map (set_link url) ans in shorten_links shorten (link_targets [] linked) linked

-- The configuration of a monitor and what it calls.
pub record Config : Type 0 where
  pub name : Bytes
  pub commit_url : Option (CommitInfo → Option Bytes)
  pub shortener : Option (List Bytes → Map)
  pub max_length : ℕ
  pub fields : Bytes → List Bytes

-- The posts in their order: the tags, then the commits branch by branch.
unfoldable pub send_announcements : Config → List Announcement → List Bytes
unfolding resolve_links tag_posts group commit_posts
send_announcements cfg ans =
    let linked = resolve_links cfg.commit_url cfg.shortener ans in
    tag_posts cfg.fields cfg.name linked
    ++ commit_posts cfg.max_length cfg.name (group cfg.fields linked [])
