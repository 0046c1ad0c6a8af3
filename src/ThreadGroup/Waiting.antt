-- ===== src/ThreadGroup/Waiting.antt =====
-- src/sdhs/Common/ThreadGroup.c, TgManagerWaitForAll: what its return says about the groups.
use mathlib.Core.Option.{some-injective}
use lmalloc.Common.{
  ℕ, zero, suc, ◌+◌, ◌≤◌, ◌≡◌, ◌⊎◌, refl, sym, ap, arith, List, [], ◌∷◌, some, get_elem?, set,
  length, replicate, length-set, subst,
}
use lmalloc.ThreadGroup.Monitors.{
  Monitor, joining, joined, cleaned, locked, marked, counted, finished, Waiter, all_done, shut_down,
  returned, abandoned, TgManager, Step, Reach, start, next,
}

-- 1 for a monitor that has counted its group.
abbrev has_counted : Monitor → ℕ
has_counted counted = 1
has_counted finished = 1
has_counted m = 0

abbrev counted_in : List Monitor → ℕ
counted_in [] = 0
counted_in (m ∷ ms) = has_counted m + counted_in ms

counted_in-set :
    (ms : List Monitor) (g : ℕ) (m m' : Monitor)
    → get_elem? ms g ≡ some m
    → counted_in (set ms g m') + has_counted m ≡ counted_in ms + has_counted m'
counted_in-set [] g m m' e = absurd (cc)
counted_in-set (x ∷ ms) zero m m' e = omega (arith, ap has_counted (some-injective x m e))
counted_in-set (x ∷ ms) (suc g) m m' e = omega (arith, counted_in-set ms g m m' e)

has_counted-le : (m : Monitor) → has_counted m ≤ 1
has_counted-le m = ground arith

counted_in-le : (ms : List Monitor) → counted_in ms ≤ length ms
counted_in-le [] = omega arith
counted_in-le (m ∷ ms) = omega (arith, counted_in-le ms, has_counted-le m)

-- When all are counted, each is.
counted_in-all :
    (ms : List Monitor) (g : ℕ) (m : Monitor)
    → length ms ≤ counted_in ms
    → get_elem? ms g ≡ some m
    → has_counted m ≡ 1
counted_in-all [] g m h e = absurd (cc)
counted_in-all (x ∷ ms) zero m h e =
    omega (arith, ap has_counted (some-injective x m e), has_counted-le x, counted_in-le ms)
counted_in-all (x ∷ ms) (suc g) m h e = counted_in-all ms g m (omega (arith, has_counted-le x)) e

-- What holds of the count where the waiting thread stands.
abbrev Ok : Waiter → ℕ → List Monitor → Type 0
Ok all_done n ms = (n ≡ counted_in ms) × (length ms ≤ n)
Ok returned n ms = (n ≡ counted_in ms) × (length ms ≤ n)
Ok shut_down n ms = Unit {0}
Ok abandoned n ms = Unit {0}
Ok w n ms = n ≡ counted_in ms

-- A step of a monitor keeps it, when the count follows the monitor.
set-Ok :
    (w : Waiter) (n n' : ℕ) (ms : List Monitor) (g : ℕ) (m m' : Monitor)
    → get_elem? ms g ≡ some m
    → n' + has_counted m ≡ n + has_counted m'
    → n ≤ n'
    → Ok w n ms
    → Ok w n' (set ms g m')
set-Ok w n n' ms g m m' e h le v = ground (arith, counted_in-set ms g m m' e, length-set ms g m')

Step-Ok :
    {s t : TgManager}
    → Step s t
    → Ok s.waiter s.completed_count s.monitors
    → Ok t.waiter t.completed_count t.monitors
Step-Ok {s} (Step.join g e) v =
    set-Ok s.waiter _ _ s.monitors g joining joined e refl (omega arith) v
Step-Ok {s} (Step.clean g e) v =
    set-Ok s.waiter _ _ s.monitors g joined cleaned e refl (omega arith) v
Step-Ok {s} (Step.lock g e h) v =
    set-Ok s.waiter _ _ s.monitors g cleaned locked e refl (omega arith) v
Step-Ok {s} (Step.mark g e) v =
    set-Ok s.waiter _ _ s.monitors g locked marked e refl (omega arith) v
Step-Ok {s} (Step.count g e) v =
    set-Ok s.waiter s.completed_count _ s.monitors g marked counted e (omega arith) (omega arith) v
Step-Ok {s} (Step.unlock g e) v =
    set-Ok s.waiter _ _ s.monitors g counted finished e refl (omega arith) v
Step-Ok {s} (Step.enter e h) v = ground arith
Step-Ok {s} (Step.wait e h) v = ground arith
Step-Ok {s} (Step.wake e h) v = ground arith
Step-Ok {s} (Step.end_loop e h) v = ground arith
Step-Ok {s} (Step.shutdown e) v = tt
Step-Ok {s} (Step.leave e) v = ground arith
Step-Ok {s} (Step.give_up e) v = tt

counted_in-replicate : (n : ℕ) → counted_in (replicate n joining) ≡ 0
counted_in-replicate zero = refl
counted_in-replicate (suc n) = omega (arith, counted_in-replicate n)

Reach-Ok : {n : ℕ} {s : TgManager} → Reach n s → Ok s.waiter s.completed_count s.monitors
Reach-Ok {n} start = sym (counted_in-replicate n)
Reach-Ok (next r t) = Step-Ok t (Reach-Ok r)

-- In every reachable state where the wait for all groups has returned without a shutdown, each
-- group's monitor is behind its count of the group.
pub returned-all_counted :
    {n : ℕ} {s : TgManager} (g : ℕ) (m : Monitor)
    → Reach n s
    → s.waiter ≡ returned
    → get_elem? s.monitors g ≡ some m
    → (m ≡ counted) ⊎ (m ≡ finished)
returned-all_counted {s} g m r w e =
    let v = subst (λ x. Ok x s.completed_count s.monitors) w (Reach-Ok r) in
    let one = counted_in-all s.monitors g m (omega (arith, v.0, v.1)) e in counted_cases m one
  where
    counted_cases : (m : Monitor) → has_counted m ≡ 1 → (m ≡ counted) ⊎ (m ≡ finished)
    counted_cases m one = ground arith
