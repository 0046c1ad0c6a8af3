-- ===== src/Pipe/Exclusive.antt =====
-- src/sdhs/Common/SensorDataPipe.c: the buffer that the reader holds against the one that the writer
-- fills or frees.
use native.Mathlib.Nat.{mod-add-mod, mod-lt, lt_trans, lt_trans, mod-eq_of_lt, mod-eq-sub-mod}
use lmalloc.Common.{
  ℕ, ◌+◌, ◌-◌, ◌%◌, ◌≤◌, ◌<◌, ◌≡◌, ◌≢◌, arith, ap, sym, ◌∙◌, refl, ◌⊎◌, inl, inr, Bool-cases, ◌==◌,
  subst,
}
use lmalloc.UArena.{UArena}
use lmalloc.Pipe.{
  Pipe, PipeCall, get_write_buffer, flush_pipe, sdp_create, start, next, Writer, filling,
  null_buffer, waiting, storing, counting, signalling, clearing, Reader, holding, WriterStep,
  ReaderStep, System, Step, writes, reads, Reach, update_buffer,
}
use lmalloc.Pipe.Handover.{Inv, Reach-Inv, Inv-close}

le-or-lt : (m n : ℕ) → (m ≤ n) ⊎ (n < m)
le-or-lt m n = ground arith

-- Moving on by less than a full round ends at another index.
mod-add-ne : {n : ℕ} → (k d : ℕ) → 0 < d → d < n → (k + d) % n ≢ k % n
mod-add-ne {n} k d h l e =
    let bound = mod-lt k (lt_trans h l) in
    let goes = mod-add-mod k n d ∙ e in
    elim (le-or-lt n (k % n + d)) [
      | inl m ↦
          let f = mod-eq-sub-mod m in
          let g = mod-eq_of_lt {n = k % n + d - n} {m = n} (omega arith) in omega arith
      | inr m ↦ let f = mod-eq_of_lt m in omega arith
    ]

update_buffer-ne :
    (buffers : ℕ → UArena) (i j : ℕ) (a : UArena) → i ≢ j → update_buffer buffers i a j ≡ buffers j
unfolding update_buffer
update_buffer-ne buffers i j a h = ground arith

-- With three buffers, the one before the last received is not the one of the writer, which is one
-- or two behind it.
previous-ne : {n : ℕ} → (s r : ℕ) → 3 ≤ n → 1 ≤ r → r ≤ s → s ≤ r + 1 → (r - 1) % n ≢ s % n
previous-ne {n} s r h k l u e =
    mod-add-ne (r - 1) (s - (r - 1)) (omega arith) (omega arith)
      (ap (λ m. m % n) (omega arith) ∙ sym e)

held-ne :
    {n : ℕ} {p : Pipe} {w : Writer} {c : ℕ} → 3 ≤ n → Inv n p w (holding c) → p.write_buf_idx ≢ c
held-ne h v e =
    let (s, r, x, a, (k, b), l, u) = Inv-close v in previous-ne s r h k l u (sym b ∙ sym e ∙ x)

cleared-ne :
    {n : ℕ} {p : Pipe} {k : PipeCall} {i c : ℕ} → 3 ≤ n → Inv n p (clearing k i) (holding c) → i ≢ c
cleared-ne h v e =
    let (s, r, x, a, (k, b), l, u) = Inv-close v in previous-ne s r h k l u (sym b ∙ sym e ∙ a)

-- While the reader holds the buffer at `c`, a step of the writer leaves that buffer as it is, unless it fills it.
writer-held :
    {n c : ℕ} {p p' : Pipe} {w w' : Writer}
    → 3 ≤ n
    → Inv n p w (holding c)
    → WriterStep p w p' w'
    → (p'.buffers c ≡ p.buffers c) ⊎ ((w ≡ filling) × (p.cur_buf ≡ c))
writer-held {c} {p} h v (WriterStep.fill k) = elim (Bool-cases (p.cur_buf == c)) [
  | inl same ↦ inr (refl, ground arith)
  | inr other ↦ inl (update_buffer-ne p.buffers p.cur_buf c _ (ground arith))
]
writer-held h v (WriterStep.call i e) = inl refl
writer-held h v (WriterStep.flush i k e) = inl refl
writer-held h v (WriterStep.get_interrupted i) = inl refl
writer-held h v (WriterStep.flush_interrupted i) = inl refl
writer-held h v (WriterStep.take k i e) = inl refl
writer-held h v (WriterStep.store k i) = inl refl
writer-held h v (WriterStep.count k i) = inl refl
writer-held h v (WriterStep.signal k i) = inl refl
writer-held {c} {p} h v (WriterStep.clear k i) =
    inl (update_buffer-ne p.buffers i c _ (cleared-ne h v))

reader-held :
    {c : ℕ} {p p' : Pipe} {r : Reader} → ReaderStep p (holding c) p' r → p'.buffers c ≡ p.buffers c
reader-held (ReaderStep.call_again c) = refl

-- A step that begins a flush, and a path with one.
abbrev pub IsFlush : {p p' : Pipe} {w w' : Writer} → WriterStep p w p' w' → Type 0
IsFlush (WriterStep.flush i k e) = Unit {0}
IsFlush _ = ⊥

abbrev pub Flushed : {n : ℕ} {buffers : ℕ → UArena} {s : System} → Reach n buffers s → Type 0
Flushed start = ⊥
Flushed (next m (writes e)) = IsFlush e ⊎ Flushed m
Flushed (next m (reads e)) = Flushed m

-- Where the writer is in no flush, and `CurBuf` is the write buffer when it fills.
abbrev pub InSync : ℕ → ℕ → Writer → Type 0
InSync cur idx filling = cur ≡ idx
InSync cur idx null_buffer = Unit {0}
InSync cur idx (waiting get_write_buffer i) = Unit {0}
InSync cur idx (storing get_write_buffer i) = Unit {0}
InSync cur idx (counting get_write_buffer i) = i ≡ idx
InSync cur idx (signalling get_write_buffer i) = i ≡ idx
InSync cur idx (clearing get_write_buffer i) = i ≡ idx
InSync cur idx _ = ⊥

writer-InSync :
    {p p' : Pipe} {w w' : Writer}
    → (e : WriterStep p w p' w') → InSync p.cur_buf p.write_buf_idx w
    → InSync p'.cur_buf p'.write_buf_idx w' ⊎ IsFlush e
writer-InSync (WriterStep.fill k) s = inl s
writer-InSync (WriterStep.call i e) s = inl tt
writer-InSync (WriterStep.flush i k e) s = inr tt
writer-InSync (WriterStep.get_interrupted i) s = inl tt
writer-InSync (WriterStep.flush_interrupted i) s = elim s [ ]
writer-InSync (WriterStep.take get_write_buffer i e) s = inl tt
writer-InSync (WriterStep.take flush_pipe i e) s = elim s [ ]
writer-InSync (WriterStep.store get_write_buffer i) s = inl refl
writer-InSync (WriterStep.store flush_pipe i) s = elim s [ ]
writer-InSync (WriterStep.count get_write_buffer i) s = inl s
writer-InSync (WriterStep.count flush_pipe i) s = elim s [ ]
writer-InSync (WriterStep.signal get_write_buffer i) s = inl s
writer-InSync (WriterStep.signal flush_pipe i) s = elim s [ ]
writer-InSync (WriterStep.clear get_write_buffer i) s = inl s
writer-InSync (WriterStep.clear flush_pipe i) s = elim s [ ]

reader-InSync :
    {p p' : Pipe} (w : Writer) {r r' : Reader}
    → ReaderStep p r p' r'
    → InSync p.cur_buf p.write_buf_idx w
    → InSync p'.cur_buf p'.write_buf_idx w
reader-InSync w ReaderStep.first_call v = v
reader-InSync w (ReaderStep.call_again c) v = v
reader-InSync w ReaderStep.interrupted v = v
reader-InSync w (ReaderStep.take h) v = v
reader-InSync w (ReaderStep.load c e) v = v
reader-InSync w (ReaderStep.advance c) v = v
reader-InSync w (ReaderStep.uncount c) v = v
reader-InSync w (ReaderStep.signal c) v = v

-- Without a flush the writer stays in step with the pipe.
Reach-InSync :
    {n : ℕ} {buffers : ℕ → UArena} {s : System}
    → (m : Reach n buffers s) → InSync s.pipe.cur_buf s.pipe.write_buf_idx s.writer ⊎ Flushed m
unfolding sdp_create
Reach-InSync start = inl refl
Reach-InSync (next m (writes e)) = elim (Reach-InSync m) [
  | inr flushed ↦ inr (inr flushed)
  | inl s ↦ elim (writer-InSync e s) [ inl s' ↦ inl s' | inr flush ↦ inr (inl flush) ]
]
Reach-InSync {s} (next m (reads e)) = elim (Reach-InSync m) [
  | inr flushed ↦ inr flushed
  | inl v ↦ inl (reader-InSync s.writer e v)
]

-- In every state that a new pipe of at least three buffers reaches, while the reader holds the buffer
-- at `c`, no step of either thread changes that buffer, but for one case: a flush, which leaves `CurBuf` behind, has been made, and
-- the writer, whose `CurBuf` is that buffer although the pipe's write buffer is another, fills it.
pub held-unchanged :
    {n c : ℕ} {buffers : ℕ → UArena} {p : Pipe} {w : Writer} {t : System}
    → 3 ≤ n
    → (m : Reach n buffers (record { pipe = p; writer = w; reader = holding c }))
    → Step (record { pipe = p; writer = w; reader = holding c }) t
    → (t.pipe.buffers c ≡ p.buffers c)
      ⊎ ((w ≡ filling) × (p.cur_buf ≡ c) × (p.write_buf_idx ≢ c) × Flushed m)
held-unchanged h m (reads e) = inl (reader-held e)
held-unchanged {c} {p} h m (writes e) =
    let v = Reach-Inv (omega arith) m in
    elim (writer-held h v e) [
      | inl same ↦ inl same
      | inr (fills, here) ↦ elim (Reach-InSync m) [
        | inl sync ↦
            absurd (held-ne h v (sym (subst (InSync p.cur_buf p.write_buf_idx) fills sync) ∙ here))
        | inr flushed ↦ inr (fills, here, held-ne h v, flushed)
      ]
    ]
