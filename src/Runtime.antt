-- ===== src/Runtime.antt =====
-- internal/runtime: the snapshots, the store, a reload and its status. Reading the directory, the
-- hash of a configuration, and what compilation takes as arguments are parameters; a snapshot's
-- build time is left out.
pub mod Reloads
pub mod Retire
pub mod Pins
pub mod NoUseAfterClose
use elchi_shield.Prelude.{
  ℕ, ◌+◌, ◌%◌, ◌^◌, Bool, true, false, not, List, [], ◌∷◌, ◌++◌, Option, none, some, if◌then◌else◌,
  take,
}
use elchi_shield.Strings.{Text, lit, text_eq, is_empty}
use elchi_shield.Config.{empty_spec}
use elchi_shield.Config.Merge.{MergedConfig, empty_config}
use elchi_shield.Engine.{Set}
use elchi_shield.Policy.Resolver.{Resolver}
use elchi_shield.Policy.Compile.{compile}

pub record Snapshot (E F : Type 0) : Type 0 where
  pub version : Text
  pub hash : Text
  pub sources : List Text
  pub cfg : MergedConfig E F
  pub resolver : Option Resolver

unfoldable pub empty_version : Text
unfolding lit
empty_version = lit "empty"

-- `EmptySnapshot`; its resolver is nil.
unfoldable pub empty_snapshot : {E F : Type 0} → Snapshot E F
unfolding empty_version
empty_snapshot = record {
  version = empty_version;
  hash = empty_version;
  sources = [];
  cfg = empty_config;
  resolver = none;
}

-- `IsEmpty`.
unfoldable pub is_empty_snapshot : {E F : Type 0} → Snapshot E F → Bool
unfolding text_eq empty_version
is_empty_snapshot s = text_eq s.version empty_version

-- `shortVersion`: the first twelve bytes of a longer hash.
abbrev pub short_version : Text → Text
short_version hash = take 12 hash

-- `Outcome`.
pub data Outcome : Type 0 where
  applied unchanged empty failed : Outcome

-- What `config.Load` returns: no files, an error, or the merged configuration.
pub data Loaded (E F : Type 0) : Type 0 where
  empty_dir : Loaded E F
  load_failed : Loaded E F
  loaded : MergedConfig E F → Loaded E F

-- The store, by the snapshot that it holds, and the snapshots given to the retirer so far.
pub record Store (E F : Type 0) : Type 0 where
  pub current : Snapshot E F
  pub retired : List (Snapshot E F)

-- `Set`, and the call of `retire` that follows it in a reload.
unfoldable pub swap : {E F : Type 0} → Store E F → Snapshot E F → Store E F
unfolding is_empty_snapshot
swap st snap = record {
  current = snap;
  retired =
      if not (is_empty_snapshot st.current) then st.retired ++ (st.current ∷ []) else st.retired;
}

module _ {E F : Type 0} (regexp : Text → Option (Text → Bool)) (build : E → Option Set) (rate : F)
    (compute_hash : MergedConfig E F → Option Text) where
  -- The end of `NewSnapshot`.
  unfoldable pub snapshot_of : MergedConfig E F → Text → Option (Snapshot E F)
  unfolding compile
  snapshot_of cfg hash = elim (compile regexp build rate cfg) [
    | none ↦ none
    | some resolver ↦ some (record {
      version = short_version hash;
      hash = hash;
      sources = cfg.sources;
      cfg = cfg;
      resolver = some resolver;
    })
  ]

  -- `NewSnapshot`; the hash of a configuration does not change between two computations.
  unfoldable pub new_snapshot : MergedConfig E F → Option (Snapshot E F)
  unfolding snapshot_of
  new_snapshot cfg = elim (compute_hash cfg) [ none ↦ none | some hash ↦ snapshot_of cfg hash ]

  -- The end of `Reload`, on what `NewSnapshot` returns.
  abbrev pub apply_snapshot : Option (Snapshot E F) → Store E F → Outcome × Store E F
  apply_snapshot none st = (failed, st)
  apply_snapshot (some snap) st = (applied, swap st snap)

  abbrev pub reload_config : MergedConfig E F → Store E F → Outcome × Store E F
  reload_config cfg st = elim (compute_hash cfg) [
    | none ↦ (failed, st)
    | some hash ↦
        if text_eq st.current.hash hash
        then (unchanged, st)
        else apply_snapshot (new_snapshot cfg) st
  ]

  -- `Reload`, from what the directory holds.
  unfoldable pub reload : Loaded E F → Store E F → Outcome × Store E F
  unfolding new_snapshot swap
  reload empty_dir st = (empty, st)
  reload load_failed st = (failed, st)
  reload (loaded cfg) st = reload_config cfg st

-- `reloadState` and `ReloadStatus`: a nil state is `none`. The failures are a uint64.
pub record ReloadState : Type 0 where
  pub last_error : Text
  pub failures : ℕ
  pub failed_at : ℕ

unfoldable pub record_failure : Text → ℕ → Option ReloadState → Option ReloadState
record_failure reason at none = some (record { last_error = reason; failures = 1; failed_at = at })
record_failure reason at (some prev) =
    some (record { last_error = reason; failures = (prev.failures + 1) % 2 ^ 64; failed_at = at })

unfoldable pub record_success : Option ReloadState → Option ReloadState
record_success none = none
record_success (some prev) =
    if is_empty prev.last_error then some prev else some (record prev { last_error = [] })

-- `Snapshot` of the status.
unfoldable pub status_snapshot : Option ReloadState → Text × ℕ × ℕ
status_snapshot none = ([], 0, 0)
status_snapshot (some st) = (st.last_error, st.failures, st.failed_at)
