-- ===== src/State/LastUpdate.antt =====
-- When a state was last refreshed (src/state/last_update.rs).
use Prim.Native.Nat.{compare, Ordering}
use allwinprotocol.Base.{
  ℕ, Bool, true, false, Option, some, ltb, leb, ◌==◌, if◌then◌else◌, checked_sub, ◌≡◌, refl, arith,
}
use allwinprotocol.Error.{Result, ok, fail, ok_or, math_overflow, ◌>>=◌}
use allwinprotocol.State.Common.{Slot}

abbrev pub stale_after_slots_elapsed : ℕ
stale_after_slots_elapsed = 1

pub record LastUpdate : Type 0 where
  pub slot : Slot
  pub stale : Bool

-- `Default`
abbrev pub default : LastUpdate
default = record { slot = 0; stale = false }

unfoldable pub new : Slot → LastUpdate
new slot = record { slot = slot; stale = true }

unfoldable pub slots_elapsed : LastUpdate → Slot → Result ℕ
slots_elapsed u slot = ok_or (checked_sub slot u.slot) math_overflow

unfoldable pub update_slot : LastUpdate → Slot → LastUpdate
update_slot u slot = record u { slot = slot; stale = false }

unfoldable pub mark_stale : LastUpdate → LastUpdate
mark_stale u = record u { stale = true }

-- `self.stale || self.slots_elapsed(slot)? >= STALE_AFTER_SLOTS_ELAPSED`: a stale mark answers
-- before the slots are compared.
unfoldable pub is_stale : LastUpdate → Slot → Result Bool
unfolding slots_elapsed
is_stale u slot = elim (u.stale) [
  | true ↦ ok true
  | false ↦ slots_elapsed u slot >>= λ elapsed. ok (leb stale_after_slots_elapsed elapsed)
]

-- `PartialEq` and `PartialOrd` look at the slot alone.
unfoldable pub eq : LastUpdate → LastUpdate → Bool
eq u v = u.slot == v.slot

unfoldable pub partial_cmp : LastUpdate → LastUpdate → Option Ordering
partial_cmp u v = some (compare u.slot v.slot)

-- After a refresh a state is fresh in the slot of the refresh, stale in every later slot, and an
-- error in an earlier one; once it is marked stale, it is stale in every slot.
pub is_stale_fresh :
    (u : LastUpdate) (slot now : Slot)
    → (is_stale (update_slot u slot) now
        ≡ (if ltb now slot then fail math_overflow else ok (ltb slot now)))
      × (is_stale (mark_stale (update_slot u slot)) now ≡ ok true)
unfolding is_stale update_slot mark_stale
is_stale_fresh u slot now = (ground arith, refl)
