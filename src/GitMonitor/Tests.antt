-- ===== src/GitMonitor/Tests.antt =====
-- The theorems at a small repository: the commits a, b and c of one branch, and two tags.
use dflybot.Prelude.{
  Bool, true, false, Option, none, some, List, [], ◌∷◌, ◌++◌, ◌≡◌, ◌↔◌, inl, inr, arith, refl,
  length, In, leb, if◌then◌else◌,
}
use dflybot.Prelude.Bytes.{Bytes, ◌==◌, lit, blt}
use dflybot.Prelude.Sorted.{lookup, insert}
use dflybot.GitMonitor.{
  Git, State, CommitInfo, Announcement, list_refs, parse_refs, split_space, add_ref, rev_list,
  skip_blank, get_commit_info, heads, collects, commit_of,
}
use dflybot.GitMonitor.Refs.{hashes_of}
use dflybot.GitMonitor.Branches.{IsTransitive, IsRange, Moves, collects-IsRange}
use dflybot.GitMonitor.Visit.{on}
use dflybot.GitMonitor.Tags.{annotated_again}
use dflybot.GitMonitor.TagVisit.{tells, IsAnnotated, IsPlain}
use dflybot.GitMonitor.Send.{Config, resolve_links}

abbrev info_of : Bytes → CommitInfo
info_of sha = record {
  hash = sha;
  author_name = lit "ann";
  author_email = lit "ann@example.org";
  date = lit "Mon";
  subject = lit "fix";
}

-- The tag v stands at the commit b, and the tag w is the object t of the commit c.
abbrev heads_at : Bytes → Bytes → Option (List Bytes)
heads_at tip prefix =
    if prefix == heads then some ((lit "main " ++ tip) ∷ []) else some (lit "v b" ∷ lit "w t" ∷ [])

abbrev new_commits : Bytes → Bytes → Option (List Bytes)
new_commits old new = some (lit "b" ∷ lit "c" ∷ [])

abbrev peel : Bytes → Option Bytes
peel t = if t == lit "v" then some (lit "b") else some (lit "c")

abbrev repo : Git
repo = record {
  for_each_ref = heads_at (lit "c");
  rev_list = new_commits;
  show = λ sha. some (sha, lit "ann", lit "ann@example.org", lit "Mon", lit "fix");
  parents = λ sha. none;
  rev_parse = peel;
}

abbrev before : State
before = record { last_seen = (lit "branch:main", lit "a") ∷ []; seen_tags = []; updated_at = 0 }

abbrev reach : Bytes → Bytes → Bool
reach (x ∷ []) (y ∷ []) = leb x y
reach x y = false

reach-IsTransitive : IsTransitive reach
reach-IsTransitive [] y z h k = ground (arith, h)
reach-IsTransitive (x ∷ []) [] z h k = ground (arith, h)
reach-IsTransitive (x ∷ []) (y ∷ []) [] h k = ground (arith, k)
reach-IsTransitive (x ∷ []) (y ∷ []) (z ∷ []) h k = ground (arith, h, k)
reach-IsTransitive (x ∷ []) (y ∷ []) (z ∷ w ∷ zs) h k = ground (arith, k)
reach-IsTransitive (x ∷ []) (y ∷ w ∷ ys) z h k = ground (arith, h)
reach-IsTransitive (x ∷ w ∷ xs) y z h k = ground (arith, h)

between_two :
    (c : Bytes)
    → In c (lit "b" ∷ lit "c" ∷ []) ↔ ((reach c (lit "c") ≡ true) × (reach c (lit "a") ≡ false))
between_two [] = ground arith
between_two (x ∷ []) = ground arith
between_two (x ∷ y ∷ c) = ground arith

between_none : (c : Bytes) → In c [] ↔ ((reach c (lit "c") ≡ true) × (reach c (lit "c") ≡ false))
between_none c = ground arith

moved : Moves reach (lit "main") repo (lit "a") (lit "c") (lit "b" ∷ lit "c" ∷ [])
unfolding list_refs parse_refs split_space add_ref ◌==◌ insert lookup rev_list skip_blank
    get_commit_info
moved = record {
  refs = (lit "main", lit "c") ∷ [];
  listed = refl;
  tip = refl;
  known = ground arith;
  forward = ground arith;
  is_range = record { between = between_two; distinct = ground arith };
  printed = inr (
    lit "b" ∷ [],
    refl,
    ground arith,
    refl,
    ((info_of (lit "b"), refl, refl), ((info_of (lit "c"), refl, refl), tt)),
  );
}

stayed : Moves reach (lit "main") repo (lit "c") (lit "c") []
unfolding list_refs parse_refs split_space add_ref ◌==◌ insert lookup
stayed = record {
  refs = (lit "main", lit "c") ∷ [];
  listed = refl;
  tip = refl;
  known = ground arith;
  forward = ground arith;
  is_range = record { between = between_none; distinct = tt };
  printed = inl (refl, refl);
}

collects-IsRange_example :
    IsRange reach
      (lit "main")
      (lit "a")
      (lit "c")
      (hashes_of (on (lit "main")) (collects (repo ∷ repo ∷ []) before).1)
unfolding lookup ◌==◌
collects-IsRange_example =
    collects-IsRange reach (lit "main") (repo ∷ repo ∷ []) (lit "a") (lit "c") before
      reach-IsTransitive (ground arith)
      (lit "c", lit "b" ∷ lit "c" ∷ [], moved, (lit "c", [], stayed, refl)) refl

plain : IsPlain repo (lit "v") (lit "b")
unfolding list_refs parse_refs split_space add_ref ◌==◌ insert lookup commit_of blt
plain = record {
  stands = record {
    refs = (lit "v", lit "b") ∷ (lit "w", lit "t") ∷ [];
    listed = refl;
    tip = refl;
  };
  same = refl;
}

annotated : IsAnnotated repo (lit "w") (lit "t") (info_of (lit "c"))
unfolding list_refs parse_refs split_space add_ref ◌==◌ insert lookup commit_of blt get_commit_info
annotated = record {
  stands = record {
    refs = (lit "v", lit "b") ∷ (lit "w", lit "t") ∷ [];
    listed = refl;
    tip = refl;
  };
  apart = ground arith;
  shown = refl;
}

annotated_again_example :
    length (hashes_of (tells (lit "w")) (collects (repo ∷ repo ∷ repo ∷ []) before).1) ≡ 3
unfolding lookup
annotated_again_example =
    annotated_again (lit "w") (lit "t") (info_of (lit "c")) (repo ∷ repo ∷ repo ∷ []) before
      (ground arith) (annotated, (annotated, (annotated, tt))) refl

abbrev two_messages : List Bytes
two_messages = lit "one" ∷ lit "two" ∷ []

abbrev announced : Bytes → Announcement
announced sha = record {
  branch = lit "main";
  tag = [];
  info = info_of sha;
  tag_updated = false;
  is_merge = false;
  link = [];
}

abbrev config : Config
config = record {
  name = lit "repo";
  commit_url = some (λ ci. some (lit "u/" ++ ci.hash));
  shortener = some (λ urls. (lit "u/b", lit "s") ∷ []);
  max_length = 40;
  fields = λ s. s ∷ [];
}

abbrev resolved : List Announcement
resolved =
    resolve_links config.commit_url config.shortener
      (announced (lit "b") ∷ announced (lit "c") ∷ [])
