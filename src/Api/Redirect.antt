-- ===== src/Api/Redirect.antt =====
-- handleRedirect of urlshort/redirect.go, without the headers that every answer has and the fields
-- for the access log.
use dflybot.Prelude.{ℕ, ◌||◌, Option, none, some, if◌then◌else◌}
use dflybot.Prelude.Bytes.{Bytes, ◌==◌, lit}
use dflybot.Store.Error.{Error, ok, err, not_found}
use dflybot.Store.Link.{Buckets, Db}
use dflybot.Store.Read.{get}

-- The status, the Location header, the target in the body of a GET, and the error for the status
-- state.
pub record Redirect : Type 0 where
  pub status : ℕ
  pub location : Option Bytes
  pub text : Option Bytes
  pub set_error : Option Error

abbrev plain : ℕ → Option Error → Redirect
plain n e = record { status = n; location = none; text = none; set_error = e }

unfoldable pub lookup_failed : Error → Redirect
lookup_failed not_found = plain 404 none
lookup_failed e = plain 500 (some e)

unfoldable pub handle_redirect : (B : Buckets) → Bytes → Bytes → Db B → Redirect
unfolding lookup_failed
handle_redirect B method path db =
    if method == lit "GET" || method == lit "HEAD"
    then elim (get B path db) [
      | err e ↦ lookup_failed e
      | ok l ↦ record {
        status = 302;
        location = some l.target;
        text = if method == lit "GET" then some l.target else none;
        set_error = none;
      }
    ]
    else plain 405 none
