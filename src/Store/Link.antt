-- ===== src/Store/Link.antt =====
-- The types of urlshort/store.go, the JSON of a link, and the two link buckets of
-- urlshort/store_bbolt.go.
use dflybot.Prelude.{ℕ, ◌*◌, ◌^◌, Bool, false, ◌||◌, Option, none, some, [], if◌then◌else◌, leb}
use dflybot.Prelude.Bytes.{Bytes}
use dflybot.Store.Error.{Error, Result, ok, err, marshal_failed, commit_failed}
use dflybot.Store.Bolt.{Bucket}

-- Times are nanoseconds since the start of the year 0.
pub record Link : Type 0 where
  pub key : Bytes
  pub target : Bytes
  pub rule : Bytes
  pub owner : Bytes
  pub created_at : ℕ
  pub updated_at : ℕ

pub record CreateRequest : Type 0 where
  pub target : Bytes
  pub rule : Bytes
  pub owner : Bytes
  pub explicit_key : Bytes
  pub gen : Option ((Bytes → Result Bool) → Result Bytes)

-- The results `(link, created, err)` of Create and of createInTx.
pub record CreateResult : Type 0 where
  pub link : Option Link
  pub created : Bool
  pub error : Option Error

abbrev pub failed : Error → CreateResult
failed e = record { link = none; created = false; error = some e }

abbrev pub found : Link → Bool → CreateResult
found l created = record { link = some l; created = created; error = none }

-- A value of the links bucket: the JSON of a link, or bytes that are not one. The key of the link
-- is not part of its JSON (`json:"-"`).
pub data Raw : Type 0 where
  json : Bytes → Bytes → Bytes → ℕ → ℕ → Raw
  other : Bytes → Raw

-- The end of the year 9999: Time.MarshalJSON refuses later times.
abbrev pub json_time_limit : ℕ
json_time_limit = 315569520000 * 10 ^ 9

unfoldable pub marshal : Link → Result Raw
marshal l =
    if leb json_time_limit l.created_at || leb json_time_limit l.updated_at
    then err marshal_failed
    else ok (json l.target l.rule l.owner l.created_at l.updated_at)

unfoldable pub unmarshal : Raw → Option Link
unmarshal (json target rule owner created updated) = some (record {
  key = [];
  target = target;
  rule = rule;
  owner = owner;
  created_at = created;
  updated_at = updated;
})
unmarshal (other b) = none

-- The buckets `links : key → JSON Link` and `targets : target → key`.
pub record Buckets : Type 1 where
  pub links : Bucket Raw
  pub targets : Bucket Bytes

pub record Db (B : Buckets) : Type 0 where
  pub links : B.links.Rep
  pub targets : B.targets.Rep

module _ (B : Buckets) where
  abbrev pub get_link : Db B → Bytes → Option Raw
  get_link db k = B.links.get db.links k

  abbrev pub get_target : Db B → Bytes → Option Bytes
  get_target db t = B.targets.get db.targets t

  -- The database after OpenBoltStore created its buckets.
  abbrev pub empty_db : Db B
  empty_db = record { links = B.links.empty; targets = B.targets.empty }

  -- db.Update: the writes of `run` are kept if it returns no error and the commit succeeds.
  unfoldable pub update_tx {ℓ} :
      {A : Type ℓ} → Bool → (Db B → Result A × Db B) → Db B → Result A × Db B
  update_tx commits run db =
      let (r, db') = run db in
      elim r [
        | err e ↦ (err e, db)
        | ok a ↦ if commits then (ok a, db') else (err commit_failed, db)
      ]
