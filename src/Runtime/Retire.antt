-- ===== src/Runtime/Retire.antt =====
-- Streams that pin a snapshot while reloads replace and retire it (internal/runtime/store.go,
-- snapshot.go and reloader.go, and the retirer of cmd/elchi-shield/main.go), in any order. Snapshots
-- are numbered in the order in which the store holds them; the first one is the empty snapshot, which
-- is not retired. A retired snapshot is closed after a grace and once its count is not positive, or
-- after a further maximal wait, whatever its count is.
use elchi_shield.Prelude.{
  ℕ, zero, suc, ◌+◌, ◌*◌, ◌^◌, ◌≤◌, ◌<◌, ◌≡◌, Bool, false, List, [], ◌∷◌, some, All, In, ◌==◌,
  if◌then◌else◌, get_elem?,
}
use elchi_shield.Prelude.Int.{ℤ, pos, ◌+ℤ◌, ◌-ℤ◌, ltb_ℤ}

-- Nanoseconds.
unfoldable pub snapshot_retire_grace : ℕ
snapshot_retire_grace = 30 * 10 ^ 9

unfoldable pub snapshot_retire_max_wait : ℕ
snapshot_retire_max_wait = 600 * 10 ^ 9

-- A stream without a snapshot, between the load and the acquisition of `Pin` with the snapshot and
-- the time of the load, and with a pinned snapshot.
pub data Phase : Type 0 where
  idle : Phase
  has_loaded : ℕ → ℕ → Phase
  pinned : ℕ → Phase

pub record RetireItem : Type 0 where
  pub snap : ℕ
  pub at : ℕ

pub record System : Type 0 where
  pub now : ℕ
  pub current : ℕ
  pub refs : ℕ → ℤ
  pub streams : List Phase
  pub retired : List RetireItem
  pub closed : List ℕ
  pub timed_out : List ℕ

abbrev pub set_at : ℕ → Phase → List Phase → List Phase
set_at i q [] = []
set_at zero q (p ∷ ps) = q ∷ ps
set_at (suc i) q (p ∷ ps) = p ∷ set_at i q ps

abbrev pub is_empty_number : ℕ → Bool
is_empty_number k = k == 0

-- `Acquire` and `Release`: an atomic addition to the count.
unfoldable pub acquire : (ℕ → ℤ) → ℕ → ℕ → ℤ
acquire refs k j = if j == k then refs j +ℤ pos 1 else refs j

unfoldable pub release_ref : (ℕ → ℤ) → ℕ → ℕ → ℤ
release_ref refs k j = if j == k then refs j -ℤ pos 1 else refs j

-- The load of `Pin`.
unfoldable pub pin_load : ℕ → System → System
pin_load i s = record s { streams = set_at i (has_loaded s.current s.now) s.streams }

unfoldable pub pin_acquire : ℕ → ℕ → System → System
unfolding acquire
pin_acquire i k s = record s { refs = acquire s.refs k; streams = set_at i (pinned k) s.streams }

unfoldable pub unpin : ℕ → ℕ → System → System
unfolding release_ref
unpin i k s = record s { refs = release_ref s.refs k; streams = set_at i idle s.streams }

-- A reload that applies: the swap of the store, and the call of the retirer.
unfoldable pub apply_reload : System → System
apply_reload s = record s {
  current = suc s.current;
  retired =
      if is_empty_number s.current
      then s.retired
      else record { snap = s.current; at = s.now } ∷ s.retired;
}

-- The loop condition of `closeRetired`.
abbrev pub in_use : System → ℕ → Bool
in_use s k = ltb_ℤ (pos 0) (s.refs k)

-- A stream whose load is older than the grace before the clock moves on.
abbrev pub InGrace : ℕ → Phase → Type 0
InGrace now idle = Unit
InGrace now (has_loaded k t) = now < t + snapshot_retire_grace
InGrace now (pinned k) = Unit

-- One step. The clock moves on only while each `Pin` has taken less than the grace: the assumption
-- that the grace covers the time between its load and its acquisition.
pub data Step : System → System → Type 0 where
  load : (s : System) (i : ℕ) → get_elem? s.streams i ≡ some idle → Step s (pin_load i s)
  acquires :
      (s : System) (i k t : ℕ)
      → get_elem? s.streams i ≡ some (has_loaded k t)
      → Step s (pin_acquire i k s)
  releases : (s : System) (i k : ℕ) → get_elem? s.streams i ≡ some (pinned k) → Step s (unpin i k s)
  reloads : (s : System) → Step s (apply_reload s)
  tick : (s : System) → All (InGrace (suc s.now)) s.streams → Step s (record s { now = suc s.now })
  closes :
      (s : System) (it : RetireItem)
      → In it s.retired
      → it.at + snapshot_retire_grace ≤ s.now
      → in_use s it.snap ≡ false
      → Step s (record s { closed = it.snap ∷ s.closed })
  times_out :
      (s : System) (it : RetireItem)
      → In it s.retired
      → it.at + snapshot_retire_grace + snapshot_retire_max_wait ≤ s.now
      → Step s (record s { timed_out = it.snap ∷ s.timed_out })

abbrev pub idles : ℕ → List Phase
idles zero = []
idles (suc n) = idle ∷ idles n

-- `n` streams, and the empty snapshot.
abbrev pub start : ℕ → System
start n = record {
  now = 0;
  current = 0;
  refs = λ k. pos 0;
  streams = idles n;
  retired = [];
  closed = [];
  timed_out = [];
}

pub data Reach (n : ℕ) : System → Type 0 where
  begin : Reach n (start n)
  next : {s t : System} → Reach n s → Step s t → Reach n t
