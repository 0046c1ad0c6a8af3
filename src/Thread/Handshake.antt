-- ===== src/Thread/Handshake.antt =====
-- src/sdhs/Common/Thread.c: no wake-up is lost, and a wait ends only once the flag is set.
use lmalloc.Common.{Bool, true, false, none, some, ◌≡◌, ◌≢◌, refl, arith, ◌⊎◌}
use lmalloc.Thread.{
  setter, waiter, ThreadControl, Setter, outside, locked, assigned, announced, finished, Waiter,
  before, testing, arming, armed, asleep, woken, leaving, returned, System, SetterStep, WaiterStep,
  OtherStep, sets, waits, others, Reach, start, next,
}

-- What holds of the control where the setting thread stands.
abbrev SetterOk : ThreadControl → Setter → Type 0
SetterOk c outside = (c.flag ≡ false) × (c.mutex ≢ some setter)
SetterOk c locked = (c.flag ≡ false) × (c.mutex ≡ some setter)
SetterOk c assigned = (c.flag ≡ true) × (c.mutex ≡ some setter)
SetterOk c announced = (c.flag ≡ true) × (c.mutex ≡ some setter)
SetterOk c finished = (c.flag ≡ true) × (c.mutex ≢ some setter)

-- A thread that sleeps is waited for, and while it sleeps the flag is set only if the broadcast is still to
-- come.
abbrev WaiterOk : ThreadControl → Setter → Waiter → Type 0
WaiterOk c a before = c.mutex ≢ some waiter
WaiterOk c a testing = c.mutex ≡ some waiter
WaiterOk c a arming = (c.mutex ≡ some waiter) × (c.flag ≡ false)
WaiterOk c a armed = (c.mutex ≡ some waiter) × (c.flag ≡ false) × (c.waiting ≡ true)
WaiterOk c a asleep =
    (c.mutex ≢ some waiter) × (c.waiting ≡ true) × ((c.flag ≡ false) ⊎ (a ≡ assigned))
WaiterOk c a woken = c.mutex ≢ some waiter
WaiterOk c a leaving = (c.mutex ≡ some waiter) × (c.flag ≡ true)
WaiterOk c a returned = (c.mutex ≢ some waiter) × (c.flag ≡ true)

abbrev Inv : ThreadControl → Setter → Waiter → Type 0
Inv c a w = SetterOk c a × WaiterOk c a w

setter-Inv :
    {c c' : ThreadControl} {a a' : Setter} {w w' : Waiter}
    → SetterStep c w a c' w' a'
    → Inv c a w
    → Inv c' a' w'
setter-Inv {w} (SetterStep.lock e) v = ground arith
setter-Inv {w} SetterStep.assign v = ground arith
setter-Inv {w} (SetterStep.announce e) v = ground arith
setter-Inv {w} (SetterStep.keep_quiet e) v = ground arith
setter-Inv {w} SetterStep.unlock v = ground arith

waiter-Inv :
    {c c' : ThreadControl} {w w' : Waiter}
    → (a : Setter) → WaiterStep c w c' w'
    → Inv c a w
    → Inv c' a w'
waiter-Inv a (WaiterStep.lock e) v = ground arith
waiter-Inv a (WaiterStep.test_set e) v = ground arith
waiter-Inv a (WaiterStep.test_unset e) v = ground arith
waiter-Inv a WaiterStep.arm v = ground arith
waiter-Inv a WaiterStep.wait v = ground arith
waiter-Inv a WaiterStep.wake v = ground arith
waiter-Inv a (WaiterStep.relock e) v = ground arith
waiter-Inv a WaiterStep.unlock v = ground arith

other-Inv :
    {c c' : ThreadControl} {w w' : Waiter}
    → (a : Setter) → OtherStep c w c' w'
    → Inv c a w
    → Inv c' a w'
other-Inv {w} a (OtherStep.lock e) v = ground arith
other-Inv {w} a (OtherStep.announce e) v = ground arith
other-Inv {w} a (OtherStep.unlock e) v = ground arith

Reach-Inv : {uninit : Bool} {s : System} → Reach uninit s → Inv s.control s.setter_at s.waiter_at
Reach-Inv start = ground arith
Reach-Inv (next r (sets t)) = setter-Inv t (Reach-Inv r)
Reach-Inv (next r (waits t)) = waiter-Inv _ t (Reach-Inv r)
Reach-Inv (next r (others t)) = other-Inv _ t (Reach-Inv r)

-- In every reachable state where the setting thread has released the mutex at its end, the
-- waiting thread does not sleep, whatever the flag of a waiting thread held at the start.
pub finished-not_asleep :
    {uninit : Bool} {c : ThreadControl} {w : Waiter}
    → Reach uninit (record { control = c; setter_at = finished; waiter_at = w })
    → w ≢ asleep
finished-not_asleep r e = ground (arith, Reach-Inv r)

-- In every reachable state where the wait has returned, the flag is set, and the setting thread
-- is behind its assignment.
pub returned-flag :
    {uninit : Bool} {c : ThreadControl} {a : Setter}
    → Reach uninit (record { control = c; setter_at = a; waiter_at = returned })
    → (c.flag ≡ true) × (a ≢ outside) × (a ≢ locked)
returned-flag {a} r = ground (arith, Reach-Inv r)

-- A row of steps of the waiting thread.
pub data Run : ThreadControl → Waiter → ThreadControl → Waiter → Type 0 where
  stop : {c : ThreadControl} {w : Waiter} → Run c w c w
  go :
      {c c1 c' : ThreadControl} {w w1 w' : Waiter}
      → WaiterStep c w c1 w1
      → Run c1 w1 c' w'
      → Run c w c' w'

-- From a free mutex and a set flag, a thread that is before its lock or woken returns in three steps.
locks-returns :
    {c : ThreadControl} {w : Waiter}
    → c.flag ≡ true
    → WaiterStep c w (record c { mutex = some waiter }) testing
    → Run c w (record c { mutex = none }) returned
locks-returns set t =
    Run.go t (Run.go (WaiterStep.test_set set) (Run.go WaiterStep.unlock Run.stop))

-- In every reachable state where the setting thread is done and the mutex is free, the waiting
-- thread returns by steps of its own.
pub finished-returns :
    {uninit : Bool} {c : ThreadControl} {w : Waiter}
    → Reach uninit (record { control = c; setter_at = finished; waiter_at = w })
    → c.mutex ≡ none
    → (c' : ThreadControl) × Run c w c' returned
finished-returns {w = before} r e =
    let v = Reach-Inv r in (_, locks-returns v.0.0 (WaiterStep.lock e))
finished-returns {w = woken} r e =
    let v = Reach-Inv r in (_, locks-returns v.0.0 (WaiterStep.relock e))
finished-returns {w = returned} r e = (_, Run.stop)
finished-returns {w = testing} r e = let v = Reach-Inv r in ground arith
finished-returns {w = arming} r e = let v = Reach-Inv r in ground arith
finished-returns {w = armed} r e = let v = Reach-Inv r in ground arith
finished-returns {w = asleep} r e = absurd (finished-not_asleep r refl)
finished-returns {w = leaving} r e = let v = Reach-Inv r in ground arith
