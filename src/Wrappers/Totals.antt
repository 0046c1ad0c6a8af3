-- ===== src/Wrappers/Totals.antt =====
-- src/allocators/allocator_wrappers.c: the totals after a row of timed calls.
use lmalloc.Common.{
  ℕ, ◌+◌, ◌%◌, ◌≤◌, ◌<◌, ◌≡◌, refl, sym, ap, ◌∙◌, List, [], ◌∷◌, Option, none, some, arith,
  word_mod, length, get_elem?, set, length-set, get_elem?-set_self, get_elem?-set_ne, add_size,
  sub_size, Option-cases, zero, suc, inl, inr,
}
use lmalloc.Wrappers.{Timing, add_timing, record_time, init_alloc_tcoll}

-- A call's two readings of the counter.
abbrev pub Span : Type 0
Span = ℕ × ℕ

abbrev pub after : Option Timing → (Timing → Option Timing) → Option Timing
after none rest = none
after (some t) rest = rest t

-- What a row of calls records.
unfoldable pub record_all : List Span → Timing → Option Timing
record_all [] t = some t
record_all ((start, stop) ∷ spans) t = after (record_time start stop t) (record_all spans)

-- The time of a call, and of all of them.
abbrev pub span_time : Span → ℕ
span_time (start, stop) = sub_size stop start

abbrev pub total : List Span → ℕ
total [] = 0
total (s ∷ spans) = span_time s + total spans

record_time-some :
    (start stop : ℕ) (t : Timing) {t1 : Timing}
    → record_time start stop t ≡ some t1
    → (t1.tcoll.cur ≡ t.tcoll.cur + 1)
      × (t.tcoll.cur < length t.tcoll.arr)
      × (t1.tcoll.arr ≡ set t.tcoll.arr t.tcoll.cur (sub_size stop start))
      × (t1.tstats.total_tsc ≡ add_size t.tstats.total_tsc (sub_size stop start))
      × (t1.tstats.iter ≡ add_size t.tstats.iter 1)
unfolding record_time add_timing
record_time-some start stop t h = ground arith

-- The two parts of a row that is recorded.
record_all-cons :
    (start stop : ℕ) (spans : List Span) (t : Timing) {t' : Timing}
    → record_all ((start, stop) ∷ spans) t ≡ some t'
    → (t1 : Timing) × (record_time start stop t ≡ some t1) × (record_all spans t1 ≡ some t')
unfolding record_all
record_all-cons start stop spans t h = elim (Option-cases (record_time start stop t)) [
  | inl e ↦ absurd (cc (sym (ap (λ r. after r (record_all spans)) e) ∙ h))
  | inr (t1, e) ↦ (t1, e, sym (ap (λ r. after r (record_all spans)) e) ∙ h)
]

-- From any state on.
record_all-from :
    (spans : List Span) (t : Timing) {t' : Timing}
    → record_all spans t ≡ some t'
    → (t'.tcoll.cur ≡ t.tcoll.cur + length spans)
      × (t'.tstats.total_tsc % word_mod ≡ (t.tstats.total_tsc + total spans) % word_mod)
      × (t'.tstats.iter % word_mod ≡ (t.tstats.iter + length spans) % word_mod)
unfolding record_all
record_all-from [] t h = ground arith
record_all-from ((start, stop) ∷ spans) t h =
    let (t1, e, h1) = record_all-cons start stop spans t h in
    let (cur, room, arr, sum, iter) = record_time-some start stop t e in
    let (curs, sums, iters) = record_all-from spans t1 h1 in (omega arith, omega arith, omega arith)

record_all-below :
    (spans : List Span) (t : Timing) {t' : Timing} (i : ℕ)
    → record_all spans t ≡ some t'
    → i < t.tcoll.cur
    → get_elem? t'.tcoll.arr i ≡ get_elem? t.tcoll.arr i
unfolding record_all
record_all-below [] t i h lt = ground arith
record_all-below ((start, stop) ∷ spans) t i h lt =
    let (t1, e, h1) = record_all-cons start stop spans t h in
    let (cur, room, arr, sum, iter) = record_time-some start stop t e in
    record_all-below spans t1 i h1 (omega arith)
    ∙ ap (λ a. get_elem? a i) arr
    ∙ get_elem?-set_ne t.tcoll.arr t.tcoll.cur i (sub_size stop start) (omega arith)

record_all-times :
    (spans : List Span) (t : Timing) {t' : Timing} (k : ℕ) {s : Span}
    → record_all spans t ≡ some t'
    → get_elem? spans k ≡ some s
    → get_elem? t'.tcoll.arr (t.tcoll.cur + k) ≡ some (span_time s)
record_all-times [] t k h e = absurd (cc)
record_all-times ((start, stop) ∷ spans) t {t'} zero h e =
    let (t1, q, h1) = record_all-cons start stop spans t h in
    let (cur, room, arr, sum, iter) = record_time-some start stop t q in
    ap (get_elem? t'.tcoll.arr) (omega arith)
    ∙ record_all-below spans t1 t.tcoll.cur h1 (omega arith)
    ∙ ap (λ a. get_elem? a t.tcoll.cur) arr
    ∙ get_elem?-set_self t.tcoll.arr t.tcoll.cur (sub_size stop start) room
    ∙ ground (arith, e)
record_all-times ((start, stop) ∷ spans) t {t'} (suc k) {s} h e =
    let (t1, q, h1) = record_all-cons start stop spans t h in
    let (cur, room, arr, sum, iter) = record_time-some start stop t q in
    ap (get_elem? t'.tcoll.arr) (omega arith) ∙ record_all-times spans t1 k h1 e

pub record_time-room :
    (start stop : ℕ) (t : Timing)
    → t.tcoll.cur < length t.tcoll.arr
    → (t1 : Timing) × (record_time start stop t ≡ some t1)
      × (t1.tcoll.cur ≡ t.tcoll.cur + 1)
      × (length t1.tcoll.arr ≡ length t.tcoll.arr)
record_time-room start stop t room = elim (Option-cases (record_time start stop t)) [
  | inl e ↦ absurd (unfold record_time add_timing in ground arith)
  | inr (t1, e) ↦
      let (cur, lt, arr, sum, iter) = record_time-some start stop t e in
      (t1, e, cur, ap length arr ∙ length-set t.tcoll.arr t.tcoll.cur (sub_size stop start))
]

record_all-room :
    (spans : List Span) (t : Timing)
    → t.tcoll.cur + length spans ≤ length t.tcoll.arr
    → (t' : Timing) × (record_all spans t ≡ some t')
unfolding record_all record_time add_timing
record_all-room [] t h = (t, refl)
record_all-room ((start, stop) ∷ spans) t h =
    let (t1, e, next, same) = record_time-room start stop t (omega arith) in
    let (t', e') = record_all-room spans t1 (omega arith) in
    (t', ap (λ r. after r (record_all spans)) e ∙ e')

-- A row of timed calls on a fresh collection whose array is not shorter than the row does not
-- fault. Afterwards the counter has grown by the number of calls and the total by the sum of
-- their times, both modulo 2^64, and the array holds the time of each call in order.
pub record_all_lem :
    (spans : List Span) (cap : ℕ) (arr : List ℕ) (t : Timing)
    → length spans ≤ length arr
    → (t' : Timing) × (record_all spans (init_alloc_tcoll cap arr t) ≡ some t')
      × (t'.tcoll.cur ≡ length spans)
      × (t'.tstats.total_tsc % word_mod ≡ (t.tstats.total_tsc + total spans) % word_mod)
      × (t'.tstats.iter % word_mod ≡ (t.tstats.iter + length spans) % word_mod)
      × ((k : ℕ) (s : Span)
          → get_elem? spans k ≡ some s
          → get_elem? t'.tcoll.arr k ≡ some (span_time s))
unfolding init_alloc_tcoll
record_all_lem spans cap arr t h =
    let t0 = init_alloc_tcoll cap arr t in
    let (t', e) = record_all-room spans t0 (omega arith) in
    let (cur, sum, iter) = record_all-from spans t0 e in
    (
      t',
      e,
      omega arith,
      sum,
      iter,
      λ k s q. ap (get_elem? t'.tcoll.arr) (omega arith) ∙ record_all-times spans t0 k e q,
    )
