-- ===== src/DataHandlers/Packets.antt =====
-- sdhs/DataHandlers/ModbusWithPostgres/Modbus.c, MbRun: what the buffers hold that are handed over.
use lmalloc.Common.{
  ℕ, ◌+◌, ◌*◌, ◌%◌, ◌<◌, ◌≤◌, ◌≡◌, ◌≢◌, refl, sym, ap, ◌∙◌, inl, inr, Bool-cases, List, [], ◌∷◌,
  ◌++◌, arith, ◌==◌, length, length-append,
}
use native.Mathlib.Nat.{mod_self, mod-eq_of_lt}
use lmalloc.DataHandlers.Receiver.{
  Round, again, reconnect, packet, MbState, hand_over, exchange, mb_flush, mb_step, mb_run,
}

-- A round that does not reconnect, and whose packet has the size.
abbrev pub Smooth : ℕ → Round → Type 0
Smooth size again = Unit {0}
Smooth size reconnect = ⊥
Smooth size (packet bytes) = length bytes ≡ size

abbrev pub AllSmooth : ℕ → List Round → Type 0
AllSmooth size [] = Unit {0}
AllSmooth size (r ∷ rs) = Smooth size r × AllSmooth size rs

-- Each buffer that was handed over was full.
abbrev pub AllFull : ℕ → List (ℕ × List ℕ) → Type 0
AllFull max_fill [] = Unit {0}
AllFull max_fill ((i, bytes) ∷ hs) = (length bytes ≡ max_fill) × AllFull max_fill hs

-- The writer fills the pipe's write buffer, which holds a number of whole packets, at most `item_max`; the buffers handed over were full.
pub record InStep (size item_max : ℕ) (s : MbState) : Type 0 where
  pub synced : s.cur_buf ≡ s.write_buf_idx
  pub items : ℕ
  pub whole : length (s.buffers s.cur_buf) ≡ items * size
  pub fits : items ≤ item_max
  pub full : AllFull (item_max * size) s.handed

exchange-InStep :
    (count size item_max : ℕ) (s : MbState)
    → 0 < size
    → 0 < item_max
    → InStep size item_max s
    → (items : ℕ) × (let s' = exchange count (item_max * size) s in
        (s'.cur_buf ≡ s'.write_buf_idx)
        × (length (s'.buffers s'.cur_buf) ≡ items * size)
        × (items < item_max)
        × AllFull (item_max * size) s'.handed)
unfolding exchange hand_over
exchange-InStep count size item_max s pos some_items v =
    elim (Bool-cases (length (s.buffers s.cur_buf) == item_max * size)) [
      | inl full ↦
          let filled : length (s.buffers s.cur_buf) ≡ item_max * size = ground arith in
          let same = ap (λ i. length (s.buffers i)) (sym v.synced) ∙ filled in
          rw full (0, (refl, ground arith, some_items, (same, v.full)))
      | inr room ↦
          let differs : v.items ≢ item_max =
            λ e. absurd (let p = ap (λ k. k * size) e in let w = v.whole in ground arith) in
          rw room (v.items, (v.synced, v.whole, (let f = v.fits in omega (arith, differs)), v.full))
    ]

mb_step-InStep :
    (count size item_max : ℕ) (r : Round) (s : MbState)
    → 0 < size
    → 0 < item_max
    → Smooth size r
    → InStep size item_max s
    → InStep size item_max (mb_step count (item_max * size) r s)
unfolding mb_step
mb_step-InStep count size item_max reconnect s pos some_items smooth v = elim smooth [ ]
mb_step-InStep count size item_max again s pos some_items smooth v =
    let (items, (synced, whole, lt, full)) =
      exchange-InStep count size item_max s pos some_items v in
    record { synced = synced; items = items; whole = whole; fits = omega arith; full = full }
mb_step-InStep count size item_max (packet bytes) s pos some_items smooth v =
    let (items, (synced, whole, lt, full)) =
      exchange-InStep count size item_max s pos some_items v in
    let s' = exchange count (item_max * size) s in
    let long = length-append (s'.buffers s'.cur_buf) bytes in
    record {
      synced = synced;
      items = items + 1;
      whole = ground arith;
      fits = omega arith;
      full = full;
    }

pub run_smooth :
    (count size item_max : ℕ) (rs : List Round) (s : MbState)
    → 0 < size
    → 0 < item_max
    → AllSmooth size rs
    → InStep size item_max s
    → InStep size item_max (mb_run count (item_max * size) rs s)
unfolding mb_run
run_smooth count size item_max [] s pos some_items smooth v = v
run_smooth count size item_max (r ∷ rs) s pos some_items (h, hs) v =
    run_smooth count size item_max rs _ pos some_items hs
      (mb_step-InStep count size item_max r s pos some_items h v)

-- The next index of several is another one.
next-ne : (count i : ℕ) → 2 ≤ count → i < count → (i + 1) % count ≢ i
next-ne count i two lt e = elim (Bool-cases (i + 1 == count)) [
  | inl last ↦
      let same : i + 1 ≡ count = ground arith in
      let zero_next = ap (λ k. k % count) same ∙ mod_self count in absurd (omega arith)
  | inr more ↦
      let inside : i + 1 < count = ground arith in
      let next = mod-eq_of_lt inside in absurd (omega arith)
]

-- A reconnect while the write buffer of a pipe with several buffers holds something and is not full: the
-- buffer is handed over to the reader, and the next packet is still appended to it, while the new write buffer stays empty.
pub packet-reconnect :
    (count max_fill i : ℕ) (bytes : List ℕ) (buffers : ℕ → List ℕ) (handed : List (ℕ × List ℕ))
    → 2 ≤ count
    → i < count
    → 0 < length (buffers i)
    → length (buffers i) < max_fill
    → let s : MbState = record {
      buffers = buffers;
      write_buf_idx = i;
      cur_buf = i;
      handed = handed;
    } in
      let s' = mb_run count max_fill (reconnect ∷ packet bytes ∷ []) s in
      (s'.handed ≡ (i, buffers i) ∷ handed)
      × (s'.buffers i ≡ buffers i ++ bytes)
      × (s'.write_buf_idx ≢ i)
      × (s'.buffers s'.write_buf_idx ≡ [])
unfolding mb_run mb_step exchange mb_flush hand_over
packet-reconnect count max_fill i bytes buffers handed two lt some_bytes room =
    let ne = next-ne count i two lt in
    let next = (i + 1) % count in (ground arith, ground arith, ground arith, ground arith)
