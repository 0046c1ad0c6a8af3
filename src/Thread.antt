-- ===== src/Thread.antt =====
-- src/sdhs/Common/Thread.c: the handshake by which a thread is stopped. `SdbTCtlMarkStopped` with
-- `SdbTCtlWaitForStop`, and `SdbTCtlSignalStop` with `SdbTCtlWaitForSignal`, are the same code over two pairs
-- of flags, so one pair is modelled: a thread that sets the flag and one that waits for it. They share the
-- mutex and the condition variable with the threads of the other pair.
pub mod Handshake
mod Examples
use lmalloc.Common.{Bool, true, false, Option, none, some, ◌≡◌}

-- Who may hold the mutex.
pub data Owner : Type 0 where
  setter waiter other : Owner

-- `sdb_thread_control`, with the flag of the pair, and the flag that a thread waits for it.
pub record ThreadControl : Type 0 where
  pub flag : Bool
  pub waiting : Bool
  pub mutex : Option Owner

-- Where the setting thread stands: before its lock, behind it, behind the assignment, behind the
-- broadcast, and behind its unlock.
pub data Setter : Type 0 where
  outside locked assigned announced finished : Setter

-- Where the waiting thread stands: before its lock; at the test of its loop, behind a test that failed, and
-- behind the assignment; in `pthread_cond_wait`, asleep or woken; behind the loop; behind its unlock.
pub data Waiter : Type 0 where
  before testing arming armed asleep woken leaving returned : Waiter

-- What `SdbTCtlInit` leaves. It does not set WaitingForMarkStopped, so `waiting` is whatever it was.
abbrev pub tctl_init : Bool → ThreadControl
tctl_init waiting = record { flag = false; waiting = waiting; mutex = none }

-- A broadcast wakes the waiting thread if it sleeps.
abbrev pub broadcast : Waiter → Waiter
broadcast asleep = woken
broadcast w = w

-- The threads with what they share.
pub record System : Type 0 where
  pub control : ThreadControl
  pub setter_at : Setter
  pub waiter_at : Waiter

-- `SdbTCtlMarkStopped` and `SdbTCtlSignalStop`.
pub data SetterStep (c : ThreadControl) (w : Waiter)
    : Setter → ThreadControl → Waiter → Setter → Type 0 where
  lock : c.mutex ≡ none → SetterStep c w outside (record c { mutex = some setter }) w locked
  assign : SetterStep c w locked (record c { flag = true }) w assigned
  announce : c.waiting ≡ true → SetterStep c w assigned c (broadcast w) announced
  keep_quiet : c.waiting ≡ false → SetterStep c w assigned c w announced
  unlock : SetterStep c w announced (record c { mutex = none }) w finished

-- `SdbTCtlWaitForStop` and `SdbTCtlWaitForSignal`. A wait gives the mutex up and sleeps in one step; it may
-- also end on its own.
pub data WaiterStep (c : ThreadControl) : Waiter → ThreadControl → Waiter → Type 0 where
  lock : c.mutex ≡ none → WaiterStep c before (record c { mutex = some waiter }) testing
  test_set : c.flag ≡ true → WaiterStep c testing c leaving
  test_unset : c.flag ≡ false → WaiterStep c testing c arming
  arm : WaiterStep c arming (record c { waiting = true }) armed
  wait : WaiterStep c armed (record c { mutex = none }) asleep
  wake : WaiterStep c asleep c woken
  relock : c.mutex ≡ none → WaiterStep c woken (record c { mutex = some waiter }) testing
  unlock : WaiterStep c leaving (record c { mutex = none }) returned

-- What the threads of the other pair do: they take the mutex, release it, and broadcast.
pub data OtherStep (c : ThreadControl) (w : Waiter) : ThreadControl → Waiter → Type 0 where
  lock : c.mutex ≡ none → OtherStep c w (record c { mutex = some other }) w
  announce : c.mutex ≡ some other → OtherStep c w c (broadcast w)
  unlock : c.mutex ≡ some other → OtherStep c w (record c { mutex = none }) w

pub data Step (s : System) : System → Type 0 where
  sets :
      {c : ThreadControl} {w : Waiter} {a : Setter}
      → SetterStep s.control s.waiter_at s.setter_at c w a
      → Step s (record { control = c; setter_at = a; waiter_at = w })
  waits :
      {c : ThreadControl} {w : Waiter}
      → WaiterStep s.control s.waiter_at c w
      → Step s (record { control = c; setter_at = s.setter_at; waiter_at = w })
  others :
      {c : ThreadControl} {w : Waiter}
      → OtherStep s.control s.waiter_at c w
      → Step s (record { control = c; setter_at = s.setter_at; waiter_at = w })

pub data Reach (uninit : Bool) : System → Type 0 where
  start :
      Reach uninit (record { control = tctl_init uninit; setter_at = outside; waiter_at = before })
  next : {s t : System} → Reach uninit s → Step s t → Reach uninit t
