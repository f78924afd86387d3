-- ===== src/Tests/Snapshots.antt =====
-- Reloads and retired snapshots, at concrete inputs.
use elchi_shield.Prelude.{
  ℕ, zero, suc, Bool, true, ◌≡◌, ◌≢◌, refl, [], ◌∷◌, Option, none, some, All, inl, arith, List,
}
use elchi_shield.Strings.{Text, lit}
use elchi_shield.Config.{set_to}
use elchi_shield.Config.Resolve.{last_set}
use elchi_shield.Config.Merge.{MergedConfig, empty_config}
use elchi_shield.Engine.{Set}
use elchi_shield.Runtime.{Store, Loaded, load_failed, loaded, empty_snapshot}
use elchi_shield.Runtime.Reloads
use elchi_shield.Runtime.Reloads.{IsFrom, offered_hash, reloads-IsFrom}
use elchi_shield.Runtime.Retire.{
  System, RetireItem, Reach, begin, next, start, load, acquires, reloads, tick, closes, InGrace,
  snapshot_retire_grace, pin_load, pin_acquire, apply_reload, acquire,
}
use elchi_shield.Runtime.Pins.{IsFree}
use elchi_shield.Runtime.NoUseAfterClose.{Reach-IsFree}

abbrev no_regexp : Text → Option (Text → Bool)
no_regexp p = none

abbrev build_nothing : Bool → Option Set
build_nothing e = some []

abbrev one_hash : MergedConfig Bool Bool → Option Text
one_hash cfg = some (lit "0123456789abcdef")

abbrev first_store : Store Bool Bool
first_store = record { current = empty_snapshot; retired = [] }

abbrev two_loads : List (Loaded Bool Bool)
two_loads = loaded empty_config ∷ load_failed ∷ []

reloads-IsFrom_example :
    IsFrom no_regexp build_nothing true one_hash first_store.current two_loads
      (Reloads.reloads no_regexp build_nothing true one_hash two_loads first_store).current
    × ((Reloads.reloads no_regexp build_nothing true one_hash two_loads first_store).current.hash
        ≡ set_to
            (last_set (offered_hash no_regexp build_nothing true one_hash) two_loads)
            first_store.current.hash)
reloads-IsFrom_example = reloads-IsFrom no_regexp build_nothing true one_hash two_loads first_store

-- Two reloads, and a stream that pins the second snapshot.
abbrev reloaded : System
reloaded = apply_reload (apply_reload (start 2))

abbrev pinning : System
pinning = pin_acquire 0 2 (pin_load 0 reloaded)

pinning-Reach : Reach 2 pinning
unfolding pin_load apply_reload
pinning-Reach =
    next
      (next (next (next begin (reloads (start 2))) (reloads (apply_reload (start 2))))
        (load reloaded 0 refl))
      (acquires (pin_load 0 reloaded) 0 2 0 refl)

in_grace : (now : ℕ) → All (InGrace now) pinning.streams
unfolding pin_acquire pin_load apply_reload
in_grace now = (tt, (tt, tt))

-- Time passes while no `Pin` is under way.
wait : (m : ℕ) → Reach 2 (record pinning { now = m })
unfolding pin_acquire pin_load apply_reload
wait zero = pinning-Reach
wait (suc m) = next (wait m) (tick (record pinning { now = m }) (in_grace (suc m)))

abbrev retired_first : RetireItem
retired_first = record { snap = 1; at = 0 }

abbrev waited : System
waited = record pinning { now = snapshot_retire_grace }

abbrev drained : System
drained = record waited { closed = 1 ∷ [] }

drained-Reach : Reach 2 drained
unfolding pin_acquire pin_load apply_reload acquire
drained-Reach =
    next (wait snapshot_retire_grace) (closes waited retired_first (inl refl) (omega arith) refl)

Reach-IsFree_example : (1 ≢ drained.current) × All (IsFree 1) drained.streams
Reach-IsFree_example = Reach-IsFree 2 drained 1 drained-Reach (inl refl)
