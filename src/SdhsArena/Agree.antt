-- ===== src/SdhsArena/Agree.antt =====
-- src/allocators/sdhs_arena.h: the two arenas answer alike.
use lmalloc.Common.{
  ℕ, ◌^◌, ◌≤◌, ◌<◌, ◌≡◌, refl, sym, ap, ◌∙◌, List, [], ◌∷◌, some, arith, get_elem?, Option, none,
  ◌+◌, ◌⊎◌, inl, inr, length, length-set, ltb, Bool-cases, sub_size, add_size, set,
}
use lmalloc.UArena.{ua_alloc, ua_free, ua_pop, ua_pos, ua_seek, ua_reserve}
use lmalloc.KArena.{KArena, Host}
use lmalloc.KArena.Bounds.{IsValid}
use lmalloc.KArena.Slots.{get_elem?-update_self}
use lmalloc.KaClient.{World, device, ka_free}
use lmalloc.KaClient.Slot.{
  view, pointer, put_slot, ka_alloc-eq-ua_alloc, ka_pos-eq-ua_pos, ka_size-eq-cap, ka_base-eq-mem,
  ka_reserve-eq-ua_reserve, ka_seek-eq-ua_seek, ka_pop-eq-ua_pop,
}
use lmalloc.SdhsArena.{
  SdhsArena, u_arena, k_arena, Use, alloc, push, pop, seek, reserve, free, pos, cap', base,
  use_arena, answers, drop_pointer, no_answer, cons_answer, then_answer, Timer, ticked, untimed,
  u_answer, k_answer,
}
use lmalloc.Wrappers.{Timing, record_time, add_timing, answer_timed, ka_alloc_timed, ua_alloc_timed}
use lmalloc.KaClient.{ka_alloc}

-- A seek inside the arena, and a pop of less than half the words.
abbrev pub InRange : ℕ → Use → Type 0
InRange cap (seek n) = n ≤ cap
InRange cap (pop n) = n < 2 ^ 63
InRange cap u = Unit {0}

abbrev pub AllInRange : ℕ → List Use → Type 0
AllInRange cap [] = Unit {0}
AllInRange cap (u ∷ us) = InRange cap u × AllInRange cap us

-- Timers with as much room for times.
pub record Alike (t u : Timer) : Type 0 where
  pub cur : t.timing.tcoll.cur ≡ u.timing.tcoll.cur
  pub room : length t.timing.tcoll.arr ≡ length u.timing.tcoll.arr

pub record_time-room :
    (start stop : ℕ) (t : Timing)
    → t.tcoll.cur < length t.tcoll.arr
    → (t' : Timing) × (record_time start stop t ≡ some t')
      × (t'.tcoll.cur ≡ t.tcoll.cur + 1)
      × (length t'.tcoll.arr ≡ length t.tcoll.arr)
unfolding record_time add_timing
record_time-room start stop t room = (
  record {
    tstats = record {
      total_tsc = add_size t.tstats.total_tsc (sub_size stop start);
      iter = add_size t.tstats.iter 1;
    };
    tcoll = record t.tcoll {
      cur = t.tcoll.cur + 1;
      arr = set t.tcoll.arr t.tcoll.cur (sub_size stop start);
    };
  },
  ground arith,
  refl,
  length-set t.tcoll.arr t.tcoll.cur (sub_size stop start),
)

record_time-full :
    (start stop : ℕ) (t : Timing)
    → length t.tcoll.arr ≤ t.tcoll.cur
    → record_time start stop t ≡ none
unfolding record_time add_timing
record_time-full start stop t full = ground arith

-- All uses but an allocation.
abbrev Untimed : Use → Type 0
Untimed (alloc n) = ⊥
Untimed u = Unit {0}

module _ (host : Host) (i : ℕ) where
  -- Both arenas answer the same, and hold the same afterwards.
  record Agrees (w : World) (a : KArena) (t t' : Timer) (u : Use) : Type 0 where
    answer : ℕ
    after : KArena
    kernel_timer : Timer
    user_timer : Timer
    kernel : use_arena (k_arena host i) w t u ≡ some (answer, put_slot w i after, kernel_timer)
    user : use_arena u_arena (view a) t' u ≡ some (answer, view after, user_timer)
    alike : Alike kernel_timer user_timer
    valid : IsValid after
    size : after.size ≡ a.size

  -- A use that is not timed.
  plain-Agrees :
      (w : World) (a : KArena) (t t' : Timer) (u : Use)
      → Alike t t'
      → Untimed u
      → w.fd ≡ device
      → get_elem? w.kernel.karenas i ≡ some a
      → IsValid a
      → a.size < 2 ^ 63
      → InRange a.size u
      → Agrees w a t t' u
  unfolding use_arena
  plain-Agrees w a t t' pos alike untimed_use opened there v small ok = record {
    answer = a.cur;
    after = a;
    kernel_timer = t;
    user_timer = t';
    alike = alike;
    kernel =
        ap (untimed t) {y = some (a.cur, put_slot w i a)}
          (ka_pos-eq-ua_pos host w i a opened there ∙ unfold ua_pos in refl);
    user = unfold ua_pos in refl;
    valid = v;
    size = refl;
  }
  plain-Agrees w a t t' cap' alike untimed_use opened there v small ok = record {
    answer = a.size;
    after = a;
    kernel_timer = t;
    user_timer = t';
    alike = alike;
    kernel = ap (untimed t) (ka_size-eq-cap host w i a opened there);
    user = refl;
    valid = v;
    size = refl;
  }
  plain-Agrees w a t t' base alike untimed_use opened there v small ok = record {
    answer = a.uaddr;
    after = a;
    kernel_timer = t;
    user_timer = t';
    alike = alike;
    kernel = ap (untimed t) (ka_base-eq-mem host w i a opened there);
    user = refl;
    valid = v;
    size = refl;
  }
  plain-Agrees w a t t' (push n) alike untimed_use opened there v small ok =
      let (a', e, q) = ka_alloc-eq-ua_alloc host w i a opened there n v in
      record {
        answer = pointer (ua_alloc (view a) n).0;
        after = a';
        kernel_timer = t;
        user_timer = t';
        alike = alike;
        kernel = ap (untimed t) (e);
        user = rw q;
        valid = unfold ua_alloc in ground arith;
        size = unfold ua_alloc in ground arith;
      }
  plain-Agrees w a t t' (reserve n) alike untimed_use opened there v small ok =
      let (a', e, q) = ka_reserve-eq-ua_reserve host w i a opened there n v in
      record {
        answer = (ua_reserve (view a) n).0;
        after = a';
        kernel_timer = t;
        user_timer = t';
        alike = alike;
        kernel = ap (untimed t) (e);
        user = rw q;
        valid = unfold ua_reserve in ground arith;
        size = unfold ua_reserve in ground arith;
      }
  plain-Agrees w a t t' (seek n) alike untimed_use opened there v small ok =
      let (a', e, q) = ka_seek-eq-ua_seek host w i a opened there n v ok in
      record {
        answer = pointer (ua_seek (view a) n).0;
        after = a';
        kernel_timer = t;
        user_timer = t';
        alike = alike;
        kernel = ap (untimed t) (e);
        user = rw q;
        valid = unfold ua_seek in ground arith;
        size = unfold ua_seek in ground arith;
      }
  plain-Agrees w a t t' (pop n) alike untimed_use opened there v small ok =
      let (a', e, q) = ka_pop-eq-ua_pop host w i a opened there n v small ok in
      record {
        answer = 0;
        after = a';
        kernel_timer = t;
        user_timer = t';
        alike = alike;
        kernel = ap (untimed t) (ap no_answer e);
        user = rw q;
        valid = unfold ua_pop in ground arith;
        size = unfold ua_pop in ground arith;
      }
  plain-Agrees w a t t' free alike untimed_use opened there v small ok =
      let (a', e, q) = ka_seek-eq-ua_seek host w i a opened there 0 v (omega arith) in
      record {
        answer = 0;
        after = a';
        kernel_timer = t;
        user_timer = t';
        alike = alike;
        kernel = unfold ka_free in ap (λ r. untimed t (no_answer (drop_pointer r))) e;
        user = unfold ua_seek ua_free in ground arith;
        valid = unfold ua_seek in ground arith;
        size = unfold ua_seek in ground arith;
      }
  plain-Agrees w a t t' (alloc n) alike untimed_use opened there v small ok = elim untimed_use [ ]

  alloc-Agrees :
      (w : World) (a : KArena) (t t' : Timer) (n : ℕ)
      → Alike t t'
      → t.timing.tcoll.cur < length t.timing.tcoll.arr
      → w.fd ≡ device
      → get_elem? w.kernel.karenas i ≡ some a
      → IsValid a
      → Agrees w a t t' (alloc n)
  unfolding use_arena ka_alloc_timed ua_alloc_timed
  alloc-Agrees w a t t' n alike room opened there v =
      let (a', e, q) = ka_alloc-eq-ua_alloc host w i a opened there n v in
      let ks = t.readings 0 in
      let us = t'.readings 0 in
      let (kt, ke, kc, kl) = record_time-room ks.0 ks.1 t.timing room in
      let cur = alike.cur in
      let len = alike.room in
      let (ut, ue, uc, ul) = record_time-room us.0 us.1 t'.timing (omega (arith, room, cur, len)) in
      record {
        answer = pointer (ua_alloc (view a) n).0;
        after = a';
        kernel_timer = ticked kt t;
        user_timer = ticked ut t';
        kernel =
            ap (λ r. k_answer (answer_timed r (record_time ks.0 ks.1 t.timing)) t) e
            ∙ ap
                (λ o.
                  k_answer
                    (answer_timed (some (pointer (ua_alloc (view a) n).0, put_slot w i a')) o) t)
                ke;
        user = rw q (ap (λ o. u_answer (answer_timed (ua_alloc (view a) n) o) t') ue);
        alike = record { cur = omega (arith, kc, uc, cur); room = omega (arith, kl, ul, len) };
        valid = unfold ua_alloc in ground arith;
        size = unfold ua_alloc in ground arith;
      }

  alloc-full :
      (w : World) (a : KArena) (t t' : Timer) (n : ℕ)
      → Alike t t'
      → length t.timing.tcoll.arr ≤ t.timing.tcoll.cur
      → (use_arena (k_arena host i) w t (alloc n) ≡ none)
        × (use_arena u_arena (view a) t' (alloc n) ≡ none)
  unfolding use_arena ka_alloc_timed ua_alloc_timed
  alloc-full w a t t' n alike full =
      let ks = t.readings 0 in
      let us = t'.readings 0 in
      let cur = alike.cur in
      let len = alike.room in
      (
        ap (λ o. k_answer (answer_timed (ka_alloc host w i n) o) t)
            (record_time-full ks.0 ks.1 t.timing full),
        ap (λ o. u_answer (answer_timed (ua_alloc (view a) n) o) t')
            (record_time-full us.0 us.1 t'.timing (omega (arith, full, cur, len))),
      )

  -- Both answer alike, or both fault.
  use-Agrees :
      (w : World) (a : KArena) (t t' : Timer) (u : Use)
      → Alike t t'
      → w.fd ≡ device
      → get_elem? w.kernel.karenas i ≡ some a
      → IsValid a
      → a.size < 2 ^ 63
      → InRange a.size u
      → Agrees w a t t' u
        ⊎ ((use_arena (k_arena host i) w t u ≡ none) × (use_arena u_arena (view a) t' u ≡ none))
  use-Agrees w a t t' (alloc n) alike opened there v small ok =
      elim (Bool-cases (ltb t.timing.tcoll.cur (length t.timing.tcoll.arr))) [
        | inl room ↦ inl (alloc-Agrees w a t t' n alike (ground arith) opened there v)
        | inr full ↦ inr (alloc-full w a t t' n alike (ground arith))
      ]
  use-Agrees w a t t' pos alike opened there v small ok =
      inl (plain-Agrees w a t t' pos alike tt opened there v small ok)
  use-Agrees w a t t' cap' alike opened there v small ok =
      inl (plain-Agrees w a t t' cap' alike tt opened there v small ok)
  use-Agrees w a t t' base alike opened there v small ok =
      inl (plain-Agrees w a t t' base alike tt opened there v small ok)
  use-Agrees w a t t' (push n) alike opened there v small ok =
      inl (plain-Agrees w a t t' (push n) alike tt opened there v small ok)
  use-Agrees w a t t' (reserve n) alike opened there v small ok =
      inl (plain-Agrees w a t t' (reserve n) alike tt opened there v small ok)
  use-Agrees w a t t' (seek n) alike opened there v small ok =
      inl (plain-Agrees w a t t' (seek n) alike tt opened there v small ok)
  use-Agrees w a t t' (pop n) alike opened there v small ok =
      inl (plain-Agrees w a t t' (pop n) alike tt opened there v small ok)
  use-Agrees w a t t' free alike opened there v small ok =
      inl (plain-Agrees w a t t' free alike tt opened there v small ok)

answers-cons :
    {S : Type 0} (ops : SdhsArena S) (s : S) (t : Timer) (u : Use) (us : List Use)
    {r : Option (ℕ × S × Timer)}
    → use_arena ops s t u ≡ r
    → answers ops s t (u ∷ us) ≡ then_answer r (λ s' t'. answers ops s' t' us)
unfolding answers
answers-cons ops s t u us e = ap (λ r. then_answer r (λ s' t'. answers ops s' t' us)) e

-- Both arenas answer every row of uses alike, or both fault at the same use, whatever times their allocations take, with seeks inside the
-- arena and pops below 2^63: u_arena.c on an arena, and karena.c with the device open on a valid slot of less than 2^63
-- bytes that holds the same, where the two collections of times have as much room.
pub answers-agree :
    (host : Host) (i : ℕ) (us : List Use) (w : World) (a : KArena) (t t' : Timer)
    → Alike t t'
    → w.fd ≡ device
    → get_elem? w.kernel.karenas i ≡ some a
    → IsValid a
    → a.size < 2 ^ 63
    → AllInRange a.size us
    → answers (k_arena host i) w t us ≡ answers u_arena (view a) t' us
answers-agree host i [] w a t t' alike opened there v small ok = unfold answers in refl
answers-agree host i (u ∷ us) w a t t' alike opened there v small ok =
    elim (use-Agrees host i w a t t' u alike opened there v small ok.0) [
      | inr (kernel, user) ↦
          answers-cons (k_arena host i) w t u us kernel
          ∙ sym (answers-cons u_arena (view a) t' u us user)
      | inl s ↦
          answers-cons (k_arena host i) w t u us s.kernel
          ∙ ap (cons_answer s.answer) (
              answers-agree host i us (put_slot w i s.after) s.after s.kernel_timer s.user_timer
                s.alike opened (get_elem?-update_self w.kernel.karenas i (λ _. s.after) a there)
                s.valid (rw s.size small) (rw s.size ok.1))
          ∙ sym (answers-cons u_arena (view a) t' u us s.user)
    ]
