-- ===== src/ThreadGroup/Monitors.antt =====
-- src/sdhs/Common/ThreadGroup.c, TgMonitor and TgManagerWaitForAll: the monitors of the groups and the thread
-- that waits for all of them, over the manager's mutex.
use lmalloc.Common.{ℕ, ◌+◌, ◌<◌, ◌≤◌, ◌≡◌, List, some, get_elem?, set, length, replicate}

-- Where the monitor of a group stands: joining the threads; behind the joins; behind the cleanup; with the
-- mutex; behind `Completed = true`; behind the count; behind its unlock.
pub data Monitor : Type 0 where
  joining joined cleaned locked marked counted finished : Monitor

-- Where the waiting thread stands: before its lock, at the test of its loop, in the wait, and behind a loop
-- that ended by its test or by a shutdown, before and after the unlock. The pass over the groups behind a wait only
-- logs the completed ones and forgets their pointers.
pub data Waiter : Type 0 where
  outside testing asleep all_done shut_down returned abandoned : Waiter

-- Who holds the manager's mutex.
pub data Holder : Type 0 where
  nobody waiting : Holder
  monitor : ℕ → Holder

-- `tg_manager`, with the monitors of its groups. A group's `Completed` is told by its monitor's place.
pub record TgManager : Type 0 where
  pub completed_count : ℕ
  pub monitors : List Monitor
  pub mutex : Holder
  pub waiter : Waiter

-- The manager with the monitor of group `g` moved on.
abbrev pub move : TgManager → ℕ → Monitor → TgManager
move s g m = record s { monitors = set s.monitors g m }

-- A step of the monitor of group `g`, or of the waiting thread. A join ends once the group's threads have. The
-- wait gives the mutex up, and ends with a signal or after a second.
pub data Step (s : TgManager) : TgManager → Type 0 where
  join : (g : ℕ) → get_elem? s.monitors g ≡ some joining → Step s (move s g joined)
  clean : (g : ℕ) → get_elem? s.monitors g ≡ some joined → Step s (move s g cleaned)
  lock :
      (g : ℕ)
      → get_elem? s.monitors g ≡ some cleaned
      → s.mutex ≡ nobody
      → Step s (record s { monitors = set s.monitors g locked; mutex = monitor g })
  mark : (g : ℕ) → get_elem? s.monitors g ≡ some locked → Step s (move s g marked)
  count :
      (g : ℕ)
      → get_elem? s.monitors g ≡ some marked
      → Step s (record s {
        monitors = set s.monitors g counted;
        completed_count = s.completed_count + 1;
      })
  unlock :
      (g : ℕ)
      → get_elem? s.monitors g ≡ some counted
      → Step s (record s { monitors = set s.monitors g finished; mutex = nobody })
  enter :
      s.waiter ≡ outside
      → s.mutex ≡ nobody
      → Step s (record s { waiter = testing; mutex = waiting })
  wait :
      s.waiter ≡ testing
      → s.completed_count < length s.monitors
      → Step s (record s { waiter = asleep; mutex = nobody })
  wake :
      s.waiter ≡ asleep → s.mutex ≡ nobody → Step s (record s { waiter = testing; mutex = waiting })
  end_loop :
      s.waiter ≡ testing
      → length s.monitors ≤ s.completed_count
      → Step s (record s { waiter = all_done })
  shutdown :
      s.waiter ≡ testing
      → Step s (record s { waiter = shut_down; completed_count = length s.monitors })
  leave : s.waiter ≡ all_done → Step s (record s { waiter = returned; mutex = nobody })
  give_up : s.waiter ≡ shut_down → Step s (record s { waiter = abandoned; mutex = nobody })

-- The states that a manager of `n` started groups reaches.
pub data Reach (n : ℕ) : TgManager → Type 0 where
  start : Reach n (record {
    completed_count = 0;
    monitors = replicate n joining;
    mutex = nobody;
    waiter = outside;
  })
  next : {s t : TgManager} → Reach n s → Step s t → Reach n t
