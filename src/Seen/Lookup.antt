-- ===== src/Seen/Lookup.antt =====
-- The query of the seen database: Lookup of seen.go. strings.EqualFold and strings.ToLower are
-- parameters.
pub mod Misses
use dflybot.Prelude.{
  ℕ, suc, ◌≤◌, Bool, true, false, Option, none, some, List, [], ◌∷◌, ◌++◌, ◌≡◌, ◌⊎◌, inl, inr,
  arith, refl, length, ◌||◌, not, if◌then◌else◌, eqb, Option-cases, List-cases, Bool-cases,
}
use dflybot.Prelude.Bytes.{Bytes, ◌==◌, has_prefix}
use dflybot.Prelude.Sorted.{lookup, insert}
use dflybot.Seen.{SeenEntry, Nicks, no_entry, or_no_entry, last}

pub record SeenMatch : Type 0 where
  pub nick : Bytes
  pub entry : SeenEntry
  pub present : Bool

pub record SeenResult : Type 0 where
  pub query : Bytes
  pub found : Bool
  pub present : Bool
  pub nick : Bytes
  pub entry : SeenEntry
  pub others : List Bytes

abbrev pub Matches : Type 0
Matches = List (Bytes × SeenMatch)

-- The nicks that are present, by their lower case; the first spelling stays.
unfoldable pub present_nicks :
    (Bytes → Bytes) → List Bytes → List (Bytes × Bytes) → List (Bytes × Bytes)
present_nicks lower [] pres = pres
present_nicks lower (n ∷ ns) pres =
    present_nicks lower ns
      (elim (lookup (lower n) pres) [ none ↦ insert (lower n) n pres | some display ↦ pres ])

unfoldable pub find_ci : (Bytes → Bytes → Bool) → Nicks → Bytes → Option SeenEntry
find_ci same [] n = none
find_ci same ((k, e) ∷ ns) n = if same k n then some e else find_ci same ns n

abbrev pub match_or_new : Bytes → Option SeenMatch → SeenMatch
match_or_new nick none = record { nick = nick; entry = no_entry; present = false }
match_or_new nick (some m) = m

unfoldable pub merge : SeenEntry → Bool → SeenMatch → SeenMatch
merge entry present m = record m {
  present = m.present || present;
  entry = if eqb (last m.entry) 0 then entry else m.entry;
}

-- `lq` is the query in lower case.
unfoldable pub add_match : (Bytes → Bytes) → Bytes → Bytes → SeenEntry → Bool → Matches → Matches
unfolding merge
add_match lower lq nick entry present matches =
    let ln = lower nick in
    if ln == lq
    then matches
    else if not (has_prefix ln lq)
    then matches
    else insert ln (merge entry present (match_or_new nick (lookup ln matches))) matches

unfoldable pub add_present : (Bytes → Bytes) → Bytes → List (Bytes × Bytes) → Matches → Matches
unfolding add_match
add_present lower lq [] matches = matches
add_present lower lq ((l, nick) ∷ pres) matches =
    add_present lower lq pres (add_match lower lq nick no_entry true matches)

unfoldable pub add_recorded : (Bytes → Bytes) → Bytes → Nicks → Matches → Matches
unfolding add_match
add_recorded lower lq [] matches = matches
add_recorded lower lq ((n, entry) ∷ nicks) matches =
    add_recorded lower lq nicks (add_match lower lq n entry false matches)

abbrev pub not_found : Bytes → SeenResult
not_found query = record {
  query = query;
  found = false;
  present = false;
  nick = [];
  entry = no_entry;
  others = [];
}

unfoldable pub present_matches : Matches → Matches
present_matches [] = []
present_matches ((l, m) ∷ matches) =
    let rest = present_matches matches in if m.present then (l, m) ∷ rest else rest

unfoldable pub nicks_of : Matches → List Bytes
nicks_of [] = []
nicks_of ((l, m) ∷ matches) = m.nick ∷ nicks_of matches

abbrev pub one_match : Bytes → Bool → SeenMatch → SeenResult
one_match query present m = record (not_found query) {
  found = true;
  present = present;
  nick = m.nick;
  entry = m.entry;
}

-- The end of Lookup, by the matches and those of them that are present; `sort` is sort.Strings.
unfoldable pub resolve_matches : (List Bytes → List Bytes) → Bytes → Matches → Matches → SeenResult
unfolding nicks_of
resolve_matches sort query [] present = not_found query
resolve_matches sort query (m ∷ ms) (p ∷ []) = one_match query true p.1
resolve_matches sort query (m ∷ []) [] = one_match query false m.1
resolve_matches sort query (m ∷ []) (p ∷ q ∷ ps) = one_match query false m.1
resolve_matches sort query (m ∷ n ∷ ms) [] = record (not_found query) {
  found = true;
  others = sort (nicks_of (m ∷ n ∷ ms));
}
resolve_matches sort query (m ∷ n ∷ ms) (p ∷ q ∷ ps) = record (not_found query) {
  found = true;
  others = sort (nicks_of (p ∷ q ∷ ps));
}

module _ (same : Bytes → Bytes → Bool) (lower : Bytes → Bytes)
    (sort : List Bytes → List Bytes) where
  unfoldable pub match_all : Bytes → List (Bytes × Bytes) → Nicks → Matches
  unfolding add_present add_recorded
  match_all query pres nicks =
      add_recorded lower (lower query) nicks (add_present lower (lower query) pres [])

  unfoldable pub seen_lookup : Nicks → Bytes → List Bytes → SeenResult
  unfolding present_nicks find_ci match_all present_matches resolve_matches
  seen_lookup nicks query present =
      let pres = present_nicks lower present [] in
      let matches = match_all query pres nicks in
      elim (lookup (lower query) pres) [
        | some nick ↦ record (not_found query) {
          found = true;
          present = true;
          nick = nick;
          entry = or_no_entry (find_ci same nicks nick);
        }
        | none ↦ elim (find_ci same nicks query) [
          | some entry ↦ record (not_found query) { found = true; nick = query; entry = entry }
          | none ↦ resolve_matches sort query matches (present_matches matches)
        ]
      ]
