-- ===== src/Api/Target.antt =====
-- canonicalizeTarget of urlshort/api.go. net/url and strings.ToLower are the standard library's:
-- a parsed URL is a record of what the code reads of it, with its String method as a function of
-- the fields that the code sets.
use dflybot.Prelude.{
  ℕ, Bool, true, false, not, ◌&&◌, ◌||◌, Option, none, some, [], ◌∷◌, ◌++◌, if◌then◌else◌, ltb, eqb,
  length,
}
use dflybot.Prelude.Bytes.{Bytes, ◌==◌, lit}

pub record Url : Type 0 where
  pub scheme : Bytes
  pub has_user : Bool
  pub hostname : Bytes
  pub port : Bytes
  -- The text of the URL with another scheme and host.
  pub print : Bytes → Bytes → Bytes

pub data TargetError : Type 0 where
  empty too_long bad_url bad_scheme userinfo no_host : TargetError

abbrev pub max_target_len : ℕ
max_target_len = 8192

unfoldable pub has_colon : Bytes → Bool
has_colon [] = false
has_colon (c ∷ s) = if eqb c b':' then true else has_colon s

-- net.JoinHostPort
unfoldable pub join_host_port : Bytes → Bytes → Bytes
unfolding has_colon
join_host_port host port =
    if has_colon host then lit "[" ++ (host ++ (lit "]:" ++ port)) else host ++ (lit ":" ++ port)

-- The port that stays: a default port goes.
unfoldable pub kept_port : Bytes → Bytes → Bytes
kept_port scheme port =
    if scheme == lit "http" && port == lit "80" || scheme == lit "https" && port == lit "443"
    then []
    else port

-- The last switch.
unfoldable pub host_text : Bytes → Bytes → Bytes
unfolding join_host_port
host_text host port =
    if not (port == [])
    then join_host_port host port
    else if has_colon host
    then lit "[" ++ (host ++ lit "]")
    else host

pub data Canonical : Type 0 where
  target : Bytes → Canonical
  refused : TargetError → Canonical

-- What net/url and strings give.
pub record UrlLib : Type 0 where
  pub parse : Bytes → Option Url
  pub to_lower : Bytes → Bytes

module _ (lib : UrlLib) where
  unfoldable pub canonical_url : Url → Canonical
  unfolding kept_port host_text
  canonical_url u =
      let scheme = lib.to_lower u.scheme in
      let host = lib.to_lower u.hostname in
      if not (scheme == lit "http") && not (scheme == lit "https")
      then refused bad_scheme
      else if u.has_user
      then refused userinfo
      else if host == []
      then refused no_host
      else target (u.print scheme (host_text host (kept_port scheme u.port)))

  unfoldable pub canonicalize_target : Bytes → Canonical
  unfolding canonical_url
  canonicalize_target raw =
      if raw == []
      then refused empty
      else if ltb max_target_len (length raw)
      then refused too_long
      else elim (lib.parse raw) [ none ↦ refused bad_url | some u ↦ canonical_url u ]
