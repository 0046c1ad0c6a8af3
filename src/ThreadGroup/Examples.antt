-- ===== src/ThreadGroup/Examples.antt =====
-- src/sdhs/Common/ThreadGroup.c: small groups.
use lmalloc.Common.{ℕ, ◌≡◌, ◌⊎◌, refl, arith, true, [], ◌∷◌, ltb, if◌then◌else◌}
use lmalloc.UArena.{UArena}
use lmalloc.UArena.Bounds.{IsValid}
use lmalloc.ThreadGroup.{TgGroup}
use lmalloc.ThreadGroup.Monitors.{counted, finished, nobody, TgManager, returned, Step, Reach}
use lmalloc.ThreadGroup.Waiting.{returned-all_counted}

abbrev small : UArena
small = record { flags = 4; cap = 200; cur = 16; mem = 4096 }

small-IsValid : IsValid small
small-IsValid = omega arith

-- Of three threads the last cannot be started.
abbrev last_fails : ℕ → ℕ
last_fails n = if ltb n 2 then 0 else 11

-- What `pthread_create` returns for the monitor.
abbrev no_error : ℕ
no_error = 0

abbrev three : TgGroup
three = record { thread_count = 3; has_cleanup = true }

abbrev waited : TgManager
waited = record { completed_count = 1; monitors = finished ∷ []; mutex = nobody; waiter = returned }

waited-Reach : Reach 1 waited
waited-Reach =
    Reach.next
      (Reach.next
        (Reach.next
          (Reach.next
            (Reach.next
              (Reach.next
                (Reach.next
                  (Reach.next (Reach.next Reach.start (Step.join 0 refl)) (Step.clean 0 refl))
                  (Step.lock 0 refl refl))
                (Step.mark 0 refl))
              (Step.count 0 refl))
            (Step.unlock 0 refl))
          (Step.enter refl refl))
        (Step.end_loop refl (omega arith)))
      (Step.leave refl)

returned-all_counted_example : (finished ≡ counted) ⊎ (finished ≡ finished)
returned-all_counted_example = returned-all_counted 0 finished waited-Reach refl refl
