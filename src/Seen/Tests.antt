-- ===== src/Seen/Tests.antt =====
-- The theorems at a channel with two nicks, with letters of ASCII in two cases.
use dflybot.Prelude.{
  ℕ, ◌+◌, Bool, some, [], ◌∷◌, ◌≡◌, ◌&&◌, arith, refl, sym, ◌∙◌, if◌then◌else◌, leb,
}
use dflybot.Prelude.Bytes.{Bytes, ◌==◌, lit, eq_iff, eq_refl, blt}
use dflybot.Prelude.Sorted.{lookup, insert}
use dflybot.Seen.{
  SeenEntry, SeenStore, ci_key, key_for, change_nick, get_nick, set, join, rename, get, fill_entry,
}
use dflybot.Seen.Keys.{IsFold}
use dflybot.Seen.Store.{IsStore}
use dflybot.Seen.Records.{rename-get, operations-IsStore}

abbrev lower_byte : ℕ → ℕ
lower_byte c = if leb 65 c && leb c 90 then c + 32 else c

abbrev lower : Bytes → Bytes
lower [] = []
lower (c ∷ s) = lower_byte c ∷ lower s

abbrev same : Bytes → Bytes → Bool
same a b = lower a == lower b

same-IsFold : IsFold same
same-IsFold = record {
  same_refl = λ a. eq_refl (lower a);
  same_sym = λ a b h. (eq_iff (lower b) (lower a)).1 (sym ((eq_iff (lower a) (lower b)).0 h));
  same_trans = λ a b c h k.
      (eq_iff (lower a) (lower c)).1
        ((eq_iff (lower a) (lower b)).0 h ∙ (eq_iff (lower b) (lower c)).0 k);
}

abbrev nobody : SeenStore
nobody = record { channels = []; dirty = [] }

nobody-IsStore : IsStore same nobody
unfolding lookup
nobody-IsStore ch d h = ground (arith, h)

abbrev chan : Bytes
chan = lit "#c"

abbrev bob_joined : SeenStore
bob_joined = join same chan (lit "Bob") 5 nobody

bob_joined-IsStore : IsStore same bob_joined
bob_joined-IsStore =
    (operations-IsStore same same-IsFold chan (lit "Bob") (lit "Rob") 5 nobody nobody-IsStore).0

abbrev leaves_at : ℕ → SeenEntry → SeenEntry
leaves_at t e = record e { exit = t }

rename-get_example :
    get same chan (lit "rob") (rename same (lit "bob") (lit "Rob") bob_joined)
    ≡ some (record { join = 5; exit = 0; message = 0 })
unfolding set join change_nick key_for ci_key get get_nick lookup insert ◌==◌ blt fill_entry
rename-get_example =
    rename-get same same-IsFold (lit "bob") (lit "Rob") chan (lit "rob") bob_joined
      bob_joined-IsStore refl refl refl
