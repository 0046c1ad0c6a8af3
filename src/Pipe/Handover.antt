-- ===== src/Pipe/Handover.antt =====
-- src/sdhs/Common/SensorDataPipe.c: who has the turn, and which buffers lie between the threads.
use native.Mathlib.Nat.{mod-add-mod, zero-mod}
use lmalloc.Common.{
  ℕ, ◌+◌, ◌-◌, ◌%◌, ◌≤◌, ◌≡◌, Bool-cases, ◌⊎◌, inl, inr, arith, ltb, if◌then◌else◌, refl, ap, sym,
  ◌∙◌,
}
use lmalloc.UArena.{UArena}
use lmalloc.Pipe.{
  Pipe, PipeCall, Writer, filling, null_buffer, waiting, storing, counting, signalling, clearing,
  Reader, reading, loading, advancing, uncounting, resignalling, holding, WriterStep, ReaderStep,
  System, writes, reads, Reach, start, next, next_idx, sdp_create,
}

-- 1 where the writer has taken the count of its eventfd and has not signalled the reader yet.
abbrev writer_turn : Writer → ℕ
writer_turn (storing k n) = 1
writer_turn (counting k n) = 1
writer_turn (signalling k n) = 1
writer_turn w = 0

-- 1 where the reader has taken the count of its eventfd and has not signalled the writer yet.
abbrev reader_turn : Reader → ℕ
reader_turn loading = 1
reader_turn (advancing c) = 1
reader_turn (uncounting c) = 1
reader_turn (resignalling c) = 1
reader_turn r = 0

-- 1 where the writer has moved on and has not signalled that yet.
abbrev moved_on : Writer → ℕ
moved_on (counting k n) = 1
moved_on (signalling k n) = 1
moved_on w = 0

-- 1 where the reader has been signalled and has not moved on yet.
abbrev to_move : Reader → ℕ
to_move loading = 1
to_move (advancing c) = 1
to_move r = 0

abbrev counted : Writer → ℕ
counted (signalling k n) = 1
counted w = 0

abbrev to_uncount : Reader → ℕ
to_uncount loading = 1
to_uncount (advancing c) = 1
to_uncount (uncounting c) = 1
to_uncount r = 0

-- What the local variable of each thread holds, by the number of buffers sent and received.
abbrev pub WriterLocal : ℕ → ℕ → Writer → Type 0
WriterLocal n sent filling = Unit {0}
WriterLocal n sent null_buffer = Unit {0}
WriterLocal n sent (waiting k i) = i ≡ (sent + 1) % n
WriterLocal n sent (storing k i) = i ≡ (sent + 1) % n
WriterLocal n sent (counting k i) = i ≡ sent % n
WriterLocal n sent (signalling k i) = i ≡ sent % n
WriterLocal n sent (clearing k i) = i ≡ sent % n

-- The buffer before the last that was received.
abbrev pub Previous : ℕ → ℕ → ℕ → Type 0
Previous n received c = (1 ≤ received) × (c ≡ (received - 1) % n)

abbrev pub ReaderLocal : ℕ → ℕ → Reader → Type 0
ReaderLocal n received (advancing c) = c ≡ received % n
ReaderLocal n received (uncounting c) = Previous n received c
ReaderLocal n received (resignalling c) = Previous n received c
ReaderLocal n received (holding c) = Previous n received c
ReaderLocal n received r = Unit {0}

-- `sent` and `received` count the moves of the two indices.
pub data Inv (n : ℕ) (p : Pipe) (w : Writer) (r : Reader) : Type 0 where
  inv :
      (sent received : ℕ)
      → (size : p.buf_count ≡ n) → (write_idx : p.write_buf_idx ≡ sent % n)
      → (read_idx : p.read_buf_idx ≡ received % n) → (writer_local : WriterLocal n sent w)
      → (reader_local : ReaderLocal n received r)
      → (one_turn : (if ltb 0 p.write_event then 1 else 0)
            + writer_turn w
            + p.read_event
            + reader_turn r
          ≡ 1)
      → (between : sent ≡ received + moved_on w + p.read_event + to_move r)
      → (full : p.full_buffers_count ≡ counted w + p.read_event + to_uncount r) → Inv n p w r

-- The index that follows the one of `k` moves.
next_idx_lem :
    {n i : ℕ} → (p : Pipe) (k : ℕ) → p.buf_count ≡ n → i ≡ k % n → next_idx p i ≡ (k + 1) % n
next_idx_lem {n} p k size e =
    ap (λ m. (m + 1) % p.buf_count) e ∙ ap (λ m. (k % n + 1) % m) size ∙ mod-add-mod k n 1

module _ {n : ℕ} {p : Pipe} {r : Reader} where
  writer-Inv : {w w' : Writer} {p' : Pipe} → WriterStep p w p' w' → Inv n p w r → Inv n p' w' r
  writer-Inv (WriterStep.fill k) (inv s c m x y a b t d f) = inv s c m x y tt b t d f
  writer-Inv (WriterStep.call i e) (inv s c m x y a b t d f) =
      inv s c m x y (e ∙ next_idx_lem p s m x) b t d f
  writer-Inv (WriterStep.flush i h e) (inv s c m x y a b t d f) =
      inv s c m x y (e ∙ next_idx_lem p s m x) b t d f
  writer-Inv (WriterStep.get_interrupted i) (inv s c m x y a b t d f) = inv s c m x y tt b t d f
  writer-Inv (WriterStep.flush_interrupted i) (inv s c m x y a b t d f) = inv s c m x y tt b t d f
  writer-Inv (WriterStep.take k i h) (inv s c m x y a b t d f) =
      inv s c m x y a b (ground arith) d f
  writer-Inv (WriterStep.store k i) (inv s c m x y a b t d f) =
      inv (s + 1) c m a y a b t (omega arith) f
  writer-Inv (WriterStep.count k i) (inv s c m x y a b t d f) = inv s c m x y a b t d (omega arith)
  writer-Inv (WriterStep.signal k i) (inv s c m x y a b t d f) =
      inv s c m x y a b (ground arith) (omega arith) (omega arith)
  writer-Inv (WriterStep.clear k i) (inv s c m x y a b t d f) = inv s c m x y tt b t d f

module _ {n : ℕ} {p : Pipe} {w : Writer} where
  reader-Inv : {r r' : Reader} {p' : Pipe} → ReaderStep p r p' r' → Inv n p w r → Inv n p' w r'
  reader-Inv ReaderStep.first_call (inv s c m x y a b t d f) = inv s c m x y a tt t d f
  reader-Inv (ReaderStep.call_again i) (inv s c m x y a b t d f) = inv s c m x y a tt t d f
  reader-Inv ReaderStep.interrupted (inv s c m x y a b t d f) = inv s c m x y a tt t d f
  reader-Inv (ReaderStep.take h) (inv s c m x y a b t d f) =
      inv s c m x y a tt (ground arith) (ground arith) (ground arith)
  reader-Inv (ReaderStep.load i e) (inv s c m x y a b t d f) = inv s c m x y a (e ∙ y) t d f
  reader-Inv (ReaderStep.advance i) (inv s c m x y a b t d f) =
      inv s (c + 1) m x (next_idx_lem p c m b) a (omega arith, b ∙ ap (λ m. m % n) (omega arith)) t
        (omega arith) f
  reader-Inv (ReaderStep.uncount i) (inv s c m x y a b t d f) = inv s c m x y a b t d (omega arith)
  reader-Inv (ReaderStep.signal i) (inv s c m x y a b t d f) = inv s c m x y a b (ground arith) d f

pub Reach-Inv :
    {n : ℕ} {buffers : ℕ → UArena} {s : System}
    → 2 ≤ n
    → Reach n buffers s
    → Inv n s.pipe s.writer s.reader
unfolding sdp_create
Reach-Inv h start =
    inv 0 0 refl (sym (zero-mod _)) (sym (zero-mod _)) tt tt (ground arith) refl refl
Reach-Inv h (next m (writes t)) = writer-Inv t (Reach-Inv h m)
Reach-Inv h (next m (reads t)) = reader-Inv t (Reach-Inv h m)

moved_on-le-writer_turn : (w : Writer) → moved_on w ≤ writer_turn w
moved_on-le-writer_turn w = ground arith

-- While the reader holds a buffer, the writer has sent that one and one or none behind it.
pub Inv-close :
    {n : ℕ} {p : Pipe} {w : Writer} {c : ℕ}
    → Inv n p w (holding c)
    → (sent : ℕ) × (received : ℕ) × (p.write_buf_idx ≡ sent % n)
      × WriterLocal n sent w
      × Previous n received c
      × (received ≤ sent)
      × (sent ≤ received + 1)
Inv-close {w} (inv s r m x y a b t d f) =
    let e = moved_on-le-writer_turn w in (s, r, x, a, b, omega arith, omega arith)

counted-le-writer_turn : (w : Writer) → counted w ≤ writer_turn w
counted-le-writer_turn w = ground arith

to_uncount-le-reader_turn : (r : Reader) → to_uncount r ≤ reader_turn r
to_uncount-le-reader_turn r = ground arith

-- In every state that a new pipe of at least two buffers reaches, the count of full buffers is at
-- most 1, and so is the count in the eventfd of the reader.
pub full_buffers_count-le-1 :
    {n : ℕ} {buffers : ℕ → UArena} {s : System}
    → 2 ≤ n
    → Reach n buffers s
    → (s.pipe.full_buffers_count ≤ 1) × (s.pipe.read_event ≤ 1)
full_buffers_count-le-1 {s} h m = elim (Reach-Inv h m) [
  | inv n r m x y a b t d f ↦
      let e = counted-le-writer_turn s.writer in
      let g = to_uncount-le-reader_turn s.reader in (omega arith, omega arith)
]

-- In every state that a new pipe of at least two buffers reaches with the writer before its `read` and
-- the reader before its own, one of the two reads has a count to take, so the threads never wait for
-- each other.
pub never_both_wait :
    {n i : ℕ} {c : PipeCall} {buffers : ℕ → UArena} {p : Pipe}
    → 2 ≤ n
    → Reach n buffers (record { pipe = p; writer = waiting c i; reader = reading })
    → WriterStep p (waiting c i) (record p { write_event = 0 }) (storing c i)
      ⊎ ReaderStep p reading (record p { read_event = 0 }) loading
never_both_wait {i} {c} {p} h m = elim (Bool-cases (ltb 0 p.write_event)) [
  | inl e ↦ inl (WriterStep.take c i (ground arith))
  | inr e ↦ elim (Reach-Inv h m) [ inv s r m x y a b t d f ↦ inr (ReaderStep.take (ground arith)) ]
]
