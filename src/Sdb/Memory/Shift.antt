-- ===== src/Sdb/Memory/Shift.antt =====
-- sdhs/Sdb.h, SdbArrayShift: which elements move.
use lmalloc.Common.{
  ℕ, zero, suc, ◌+◌, ◌-◌, ◌*◌, ◌≤◌, ◌<◌, ◌≡◌, ap, ◌⊎◌, inl, inr, arith, Bool-cases, ◌==◌, Bytes,
  memcpy-inside, memcpy-outside,
}
use lmalloc.Sdb.Memory.{sdb_array_shift}

-- A byte of an element, counted in bytes.
element_lt : (i n size j : ℕ) → i < n → j < size → i * size + j < n * size
element_lt i zero size j lt in_element = absurd (omega arith)
element_lt zero (suc n) size j lt in_element = omega arith
element_lt (suc i) (suc n) size j lt in_element =
    omega (arith, element_lt i n size j (omega arith) in_element)

-- The elements of an array of `count` from index `from` on move to index `to`, in order, and nothing outside the
-- range that they move to changes; where `from` is `to`, or is past the last element, nothing changes.
pub sdb_array_shift_lem :
    (mem from to count size : ℕ) (m : Bytes)
    → let m' = sdb_array_shift mem from to count size m in
      ((i j : ℕ)
        → from + i < count
        → j < size
        → m' (mem + to * size + (i * size + j)) ≡ m (mem + from * size + (i * size + j)))
      × ((a : ℕ)
          → (a < mem + to * size) ⊎ (mem + to * size + (count - from) * size ≤ a)
          → m' a ≡ m a)
      × ((from ≡ to) ⊎ (count ≤ from) → m' ≡ m)
unfolding sdb_array_shift
sdb_array_shift_lem mem from to count size m = (
  λ i j lt in_element.
      let inside =
        memcpy-inside (mem + to * size) (mem + from * size) ((count - from) * size) m (i * size + j)
          (element_lt i (count - from) size j (omega arith) in_element) in
      elim (Bool-cases (from == to)) [
        | inl here ↦
            let e : to ≡ from = ground arith in
            let same = ap (λ k. m (mem + k * size + (i * size + j))) e in ground arith
        | inr there ↦ ground arith
      ],
  λ a out.
      let outside =
        memcpy-outside (mem + to * size) (mem + from * size) ((count - from) * size) m a out in
      ground (arith),
  λ still. ground arith,
)
