-- ===== src/Thread/Examples.antt =====
-- src/sdhs/Common/Thread.c: runs of the handshake.
use lmalloc.Common.{true, false, none, ◌≢◌, refl}
use lmalloc.Thread.{
  ThreadControl, finished, asleep, woken, returned, SetterStep, WaiterStep, sets, waits, Reach,
  start, next,
}
use lmalloc.Thread.Handshake.{finished-not_asleep, Run, finished-returns}

-- The control after a stop that the other thread waited for.
abbrev stopped : ThreadControl
stopped = record { flag = true; waiting = true; mutex = none }

-- The waiting thread goes to sleep before the flag is set, and is woken.
woken_up : Reach false (record { control = stopped; setter_at = finished; waiter_at = woken })
woken_up =
    next
      (next
        (next
          (next
            (next
              (next
                (next (next start (waits (WaiterStep.lock refl)))
                  (waits (WaiterStep.test_unset refl)))
                (waits WaiterStep.arm))
              (waits WaiterStep.wait))
            (sets (SetterStep.lock refl)))
          (sets SetterStep.assign))
        (sets (SetterStep.announce refl)))
      (sets SetterStep.unlock)

back : Reach false (record { control = stopped; setter_at = finished; waiter_at = returned })
back =
    next (next (next woken_up (waits (WaiterStep.relock refl))) (waits (WaiterStep.test_set refl)))
      (waits WaiterStep.unlock)

finished-not_asleep_example : woken ≢ asleep
finished-not_asleep_example = finished-not_asleep woken_up

finished-returns_example : (c' : ThreadControl) × Run stopped woken c' returned
finished-returns_example = finished-returns woken_up refl
