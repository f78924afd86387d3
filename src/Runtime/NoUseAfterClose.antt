-- ===== src/Runtime/NoUseAfterClose.antt =====
-- No stream uses a snapshot that was closed after its count had drained (internal/runtime and
-- cmd/elchi-shield/main.go).
use elchi_shield.Prelude.{
  ℕ, zero, suc, ◌+◌, ◌≤◌, ◌<◌, ◌≡◌, ◌≢◌, refl, sym, ap, ◌∙◌, subst, false, List, [], ◌∷◌, some, All,
  In, if_rule, get_elem?, arith,
}
use elchi_shield.Prelude.Int.{ℤ, pos, ltb_ℤ}
use elchi_shield.Runtime.Retire.{
  snapshot_retire_grace, Phase, idle, has_loaded, pinned, RetireItem, System, acquire, release_ref,
  pin_load, pin_acquire, unpin, apply_reload, in_use, InGrace, Step, load, acquires, releases,
  reloads, tick, closes, times_out, start, Reach, begin, next, is_empty_number, idles,
}
use elchi_shield.Runtime.Pins.{
  IsFree, pin, pins, pins-set_at, IsTimely, Inv, All-weaken, All-In, All-set_at, All-get, All-both,
  one_more, one_less,
}

less_ne : (j k : ℕ) → j < k → k ≢ j
less_ne j k h e = omega (arith, h, e)

load-Inv : (s : System) (i : ℕ) → get_elem? s.streams i ≡ some idle → Inv s → Inv (pin_load i s)
unfolding pin_load snapshot_retire_grace
load-Inv s i e v = record {
  counted = λ k.
      v.counted k
      ∙ ap pos (omega (arith, pins-set_at k i idle (has_loaded s.current s.now) s.streams e));
  timely =
      All-set_at (IsTimely s) i (has_loaded s.current s.now) s.streams
        (
          omega arith,
          omega arith,
          All-weaken _ _ (λ it h same. absurd (less_ne it.snap s.current h (sym same))) s.retired
              v.replaced,
        )
        v.timely;
  replaced = v.replaced;
  closed_replaced = v.closed_replaced;
  closed_free =
      All-both _ _ _
        (λ k h free.
          All-set_at (IsFree k) i (has_loaded s.current s.now) s.streams (less_ne k s.current h)
            free)
        s.closed v.closed_replaced v.closed_free;
}

acquire-Inv :
    (s : System) (i k t : ℕ)
    → get_elem? s.streams i ≡ some (has_loaded k t)
    → Inv s
    → Inv (pin_acquire i k s)
unfolding pin_acquire acquire
acquire-Inv s i k t e v = record {
  counted = λ j.
      one_more j k (pins j s.streams) _ (s.refs j) (v.counted j)
        (pins-set_at j i (has_loaded k t) (pinned k) s.streams e);
  timely = All-set_at (IsTimely s) i (pinned k) s.streams tt v.timely;
  replaced = v.replaced;
  closed_replaced = v.closed_replaced;
  closed_free =
      All-weaken _ _
        (λ c free.
          All-set_at (IsFree c) i (pinned k) s.streams
            (All-get (IsFree c) i (has_loaded k t) s.streams e free) free)
        s.closed v.closed_free;
}

release-Inv :
    (s : System) (i k : ℕ) → get_elem? s.streams i ≡ some (pinned k) → Inv s → Inv (unpin i k s)
unfolding unpin release_ref
release-Inv s i k e v = record {
  counted = λ j.
      one_less j k (pins j s.streams) _ (s.refs j) (v.counted j)
        (pins-set_at j i (pinned k) idle s.streams e);
  timely = All-set_at (IsTimely s) i idle s.streams tt v.timely;
  replaced = v.replaced;
  closed_replaced = v.closed_replaced;
  closed_free =
      All-weaken _ _ (λ c free. All-set_at (IsFree c) i idle s.streams tt free) s.closed
        v.closed_free;
}

-- A load that is under way when its snapshot is replaced began before.
retired-IsTimely : (s : System) (p : Phase) → IsTimely s p → IsTimely (apply_reload s) p
unfolding apply_reload
retired-IsTimely s idle h = tt
retired-IsTimely s (has_loaded k t) (before, grace, since) = (
  before,
  grace,
  if_rule (λ (l : List RetireItem). All (λ it. it.snap ≡ k → t ≤ it.at) l)
      (is_empty_number s.current) (λ e. since) λ e. ((λ same. before), since),
)
retired-IsTimely s (pinned k) h = tt

reload-Inv : (s : System) → Inv s → Inv (apply_reload s)
unfolding apply_reload
reload-Inv s v = record {
  counted = v.counted;
  timely = All-weaken (IsTimely s) _ (retired-IsTimely s) s.streams v.timely;
  replaced =
      let older : All (λ it. it.snap < suc s.current) s.retired =
        All-weaken _ _ (λ it h. omega (arith, h)) s.retired v.replaced in
      if_rule (λ (l : List RetireItem). All (λ it. it.snap < suc s.current) l)
        (is_empty_number s.current) (λ e. older) λ e. (omega arith, older);
  closed_replaced = All-weaken _ _ (λ k h. omega (arith, h)) s.closed v.closed_replaced;
  closed_free = v.closed_free;
}

later-IsTimely :
    (s : System) (p : Phase)
    → IsTimely s p
    → InGrace (suc s.now) p
    → IsTimely (record s { now = suc s.now }) p
later-IsTimely s idle h g = tt
later-IsTimely s (has_loaded k t) (before, grace, since) g = (omega (arith, before), g, since)
later-IsTimely s (pinned k) h g = tt

tick-Inv :
    (s : System) → All (InGrace (suc s.now)) s.streams → Inv s → Inv (record s { now = suc s.now })
tick-Inv s g v = record {
  counted = v.counted;
  timely = All-both _ _ _ (later-IsTimely s) s.streams v.timely g;
  replaced = v.replaced;
  closed_replaced = v.closed_replaced;
  closed_free = v.closed_free;
}

self_pinned : (k j : ℕ) → pin k (pinned j) ≡ 0 → j ≢ k
self_pinned k j z e = ground arith

-- A stream that has no pin of the snapshot, at a time when each load of it is past its grace.
freed :
    (s : System) (it : RetireItem) (p : Phase)
    → In it s.retired
    → it.at + snapshot_retire_grace ≤ s.now
    → pin it.snap p ≡ 0
    → IsTimely s p
    → IsFree it.snap p
freed s it idle i g z h = tt
freed s it (has_loaded k t) i g z (before, grace, since) = λ e.
    let earlier : t ≤ it.at = All-In _ it s.retired i since (sym e) in
    omega (arith, earlier, g, grace)
freed s it (pinned k) i g z h = self_pinned it.snap k z

no_pins : (k : ℕ) (ps : List Phase) → pins k ps ≡ 0 → All (λ p. pin k p ≡ 0) ps
unfolding pins
no_pins k [] e = tt
no_pins k (p ∷ ps) e = (omega (arith, e), no_pins k ps (omega (arith, e)))

drained : (n : ℕ) (r : ℤ) → r ≡ pos n → ltb_ℤ (pos 0) r ≡ false → n ≡ 0
drained n r e h =
    let h' : ltb_ℤ (pos 0) (pos n) ≡ false = subst (λ (x : ℤ). ltb_ℤ (pos 0) x ≡ false) e h in
    ground arith

close-Inv :
    (s : System) (it : RetireItem)
    → In it s.retired
    → it.at + snapshot_retire_grace ≤ s.now
    → in_use s it.snap ≡ false
    → Inv s
    → Inv (record s { closed = it.snap ∷ s.closed })
close-Inv s it i g drain v = record {
  counted = v.counted;
  timely = v.timely;
  replaced = v.replaced;
  closed_replaced = (All-In _ it s.retired i v.replaced, v.closed_replaced);
  closed_free = (
    All-both (λ p. pin it.snap p ≡ 0) (IsTimely s) (IsFree it.snap) (λ p z h. freed s it p i g z h)
        s.streams
        (no_pins it.snap s.streams
          (drained (pins it.snap s.streams) (s.refs it.snap) (v.counted it.snap) drain))
        v.timely,
    v.closed_free,
  );
}

step-Inv : {s t : System} → Step s t → Inv s → Inv t
step-Inv (load s i e) v = load-Inv s i e v
step-Inv (acquires s i k at e) v = acquire-Inv s i k at e v
step-Inv (releases s i k e) v = release-Inv s i k e v
step-Inv (reloads s) v = reload-Inv s v
step-Inv (tick s g) v = tick-Inv s g v
step-Inv (closes s it i g d) v = close-Inv s it i g d v
step-Inv (times_out s it i g) v = record {
  counted = v.counted;
  timely = v.timely;
  replaced = v.replaced;
  closed_replaced = v.closed_replaced;
  closed_free = v.closed_free;
}

idle-pins : (k n : ℕ) → pins k (idles n) ≡ 0
unfolding pins
idle-pins k zero = refl
idle-pins k (suc n) = omega (arith, idle-pins k n)

idle-IsTimely : (s : System) (n : ℕ) → All (IsTimely s) (idles n)
idle-IsTimely s zero = tt
idle-IsTimely s (suc n) = (tt, idle-IsTimely s n)

Reach-Inv : (n : ℕ) (s : System) → Reach n s → Inv s
Reach-Inv n s begin = record {
  counted = λ k. ap pos (sym (idle-pins k n));
  timely = idle-IsTimely (start n) n;
  replaced = tt;
  closed_replaced = tt;
  closed_free = tt;
}
Reach-Inv n t (next {s} r st) = step-Inv st (Reach-Inv n s r)

-- Whatever the order of loads, pins, releases, reloads and closes, a snapshot that was closed once
-- its count had drained is not the current one, and no stream holds it or is about to acquire it, if
-- each `Pin` takes less than the grace between its load and its acquisition.
pub Reach-IsFree :
    (n : ℕ) (s : System) (k : ℕ)
    → Reach n s
    → In k s.closed
    → (k ≢ s.current) × All (IsFree k) s.streams
Reach-IsFree n s k r i =
    let v = Reach-Inv n s r in
    let older : k < s.current = All-In _ k s.closed i v.closed_replaced in
    ((λ e. omega (arith, older, e)), All-In _ k s.closed i v.closed_free)
