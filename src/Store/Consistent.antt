-- ===== src/Store/Consistent.antt =====
-- The invariant that the head of urlshort/store_bbolt.go states: targets[target] = key exactly when
-- links[key] exists with that target.
use dflybot.Prelude.{Option, none, some, ◌≡◌, arith, Bool-cases, inl, inr}
use dflybot.Prelude.Bytes.{Bytes, ◌==◌, eq_iff}
use dflybot.Store.Link.{Raw, json, other, Buckets, Db, get_link, get_target, empty_db}

-- The target of a stored link.
abbrev pub target_of : Option Raw → Option Bytes
target_of none = none
target_of (some (json target rule owner created updated)) = some target
target_of (some (other b)) = none

pub record IsConsistent (B : Buckets) (db : Db B) : Type 0 where
  pub mapped : (t k : Bytes) → get_target B db t ≡ some k → target_of (get_link B db k) ≡ some t
  pub linked : (k t : Bytes) → target_of (get_link B db k) ≡ some t → get_target B db t ≡ some k
  pub readable :
      (k : Bytes) (raw : Raw)
      → get_link B db k ≡ some raw
      → (t : Bytes) × (target_of (some raw) ≡ some t)

module _ (B : Buckets) where
  -- An empty database is consistent.
  pub empty_db-IsConsistent : IsConsistent B (empty_db B)
  empty_db-IsConsistent = record {
    mapped = λ t k e. ground (arith, B.targets.get-empty t);
    linked = λ k t e. ground (arith, B.links.get-empty k);
    readable = λ k raw e. absurd (ground (arith, B.links.get-empty k));
  }

  abbrev pub put_pair : Db B → Bytes → Bytes → Raw → Db B
  put_pair db t k raw = record {
    links = B.links.put db.links k raw;
    targets = B.targets.put db.targets t k;
  }

  module _ (db : Db B) (h : IsConsistent B db) where
    -- A fresh pair may be added.
    pub put_pair-IsConsistent :
        (t k : Bytes) (raw : Raw)
        → get_target B db t ≡ none
        → get_link B db k ≡ none
        → target_of (some raw) ≡ some t
        → IsConsistent B (put_pair db t k raw)
    put_pair-IsConsistent t k raw ft fk e = record {
      mapped = λ t' k' p. ground (
        arith,
        B.targets.get-put db.targets t t' k,
        B.links.get-put db.links k k' raw,
        h.mapped t' k',
        eq_iff t t',
        eq_iff k k',
      );
      linked = λ k' t' p. ground (
        arith,
        B.targets.get-put db.targets t t' k,
        B.links.get-put db.links k k' raw,
        h.linked k' t',
        eq_iff t t',
        eq_iff k k',
      );
      readable = λ k' raw' p. elim (Bool-cases (k == k')) [
        | inl same ↦ (t, ground (arith, B.links.get-put db.links k k' raw))
        | inr diff ↦ h.readable k' raw' (ground (arith, B.links.get-put db.links k k' raw))
      ];
    }

    -- A link and its mapping may go together.
    pub delete_pair-IsConsistent :
        (t k : Bytes)
        → target_of (get_link B db k) ≡ some t
        → IsConsistent B
            (record { links = B.links.delete db.links k; targets = B.targets.delete db.targets t })
    delete_pair-IsConsistent t k e = record {
      mapped = λ t' k' p. ground (
        arith,
        B.targets.get-delete db.targets t t',
        B.links.get-delete db.links k k',
        h.mapped t' k',
        h.linked k t,
        eq_iff t t',
        eq_iff k k',
      );
      linked = λ k' t' p. ground (
        arith,
        B.targets.get-delete db.targets t t',
        B.links.get-delete db.links k k',
        h.linked k' t',
        h.linked k t,
        eq_iff t t',
        eq_iff k k',
      );
      readable = λ k' raw' p. h.readable k' raw' (ground (arith, B.links.get-delete db.links k k'));
    }

    -- A link may move to a target that is not mapped.
    pub move_pair-IsConsistent :
        (t u k : Bytes) (raw : Raw)
        → target_of (get_link B db k) ≡ some t
        → get_target B db u ≡ none
        → target_of (some raw) ≡ some u
        → IsConsistent B (record {
          links = B.links.put db.links k raw;
          targets = B.targets.put (B.targets.delete db.targets t) u k;
        })
    move_pair-IsConsistent t u k raw e f g = record {
      mapped = λ t' k' p. ground (
        arith,
        B.targets.get-put (B.targets.delete db.targets t) u t' k,
        B.targets.get-delete db.targets t t',
        B.links.get-put db.links k k' raw,
        h.mapped t' k',
        h.linked k t,
        eq_iff u t',
        eq_iff t t',
        eq_iff k k',
      );
      linked = λ k' t' p. ground (
        arith,
        B.targets.get-put (B.targets.delete db.targets t) u t' k,
        B.targets.get-delete db.targets t t',
        B.links.get-put db.links k k' raw,
        h.linked k' t',
        h.linked k t,
        eq_iff u t',
        eq_iff t t',
        eq_iff k k',
      );
      readable = λ k' raw' p. elim (Bool-cases (k == k')) [
        | inl same ↦ (u, ground (arith, B.links.get-put db.links k k' raw))
        | inr diff ↦ h.readable k' raw' (ground (arith, B.links.get-put db.links k k' raw))
      ];
    }
