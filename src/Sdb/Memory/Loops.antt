-- ===== src/Sdb/Memory/Loops.antt =====
-- sdhs/Sdb.h, the memory routines against the C library's.
use lmalloc.Common.{
  ℕ, zero, suc, ◌+◌, ◌-◌, ◌%◌, ◌≤◌, ◌<◌, ◌^◌, ◌≡◌, ◌≢◌, refl, ap, ◌∙◌, ◌⊎◌, inl, inr, Bool-cases,
  some, arith, ltb, leb, ◌==◌, ◌&&◌, if◌then◌else◌, Bytes, put, memcpy, bzero, memcmp_eq, strlen,
  strlen_from,
}
use lmalloc.Sdb.Memory.{
  sdb_memcpy, memcpy_loop, sdb_memset, memset_loop, sdb_mem_zero, sdb_memcmp, memcmp_loop,
  sdb_strnlen, strnlen_from, sdb_strlen, sdb_strlen_from,
}

memcpy_loop_lem :
    (n i to from len : ℕ) (m : Bytes) (a : ℕ)
    → (from + len ≤ to) ⊎ (to + len ≤ from)
    → i + n ≤ len
    → memcpy_loop n i to from m a
      ≡ (if leb (to + i) a && ltb a (to + i + n) then m (from + (a - to)) else m a)
unfolding memcpy_loop
memcpy_loop_lem zero i to from len m a apart le = ground arith
memcpy_loop_lem (suc n) i to from len m a apart le =
    let ih =
      memcpy_loop_lem n (i + 1) to from len (put m (to + i) (m (from + i))) a apart (omega arith) in
    elim (Bool-cases (a == to + i)) [
      | inl here ↦
          let e : from + (a - to) ≡ from + i = ground arith in let same = ap m e in ground arith
      | inr there ↦ ground arith
    ]

memset_loop_lem :
    (n i p c : ℕ) (m : Bytes) (a : ℕ)
    → memset_loop n i p c m a ≡ (if leb (p + i) a && ltb a (p + i + n) then c % 256 else m a)
unfolding memset_loop
memset_loop_lem zero i p c m a = ground arith
memset_loop_lem (suc n) i p c m a =
    let ih = memset_loop_lem n (i + 1) p c (put m (p + i) (c % 256)) a in ground arith

memcmp_loop_lem :
    (n i lhs rhs : ℕ) (m : Bytes) → memcmp_loop n i lhs rhs m ≡ memcmp_eq (lhs + i) (rhs + i) n m
unfolding memcmp_loop memcmp_eq
memcmp_loop_lem zero i lhs rhs m = refl
memcmp_loop_lem (suc n) i lhs rhs m =
    let el : lhs + (i + 1) ≡ lhs + i + 1 = omega arith in
    let er : rhs + (i + 1) ≡ rhs + i + 1 = omega arith in
    let ih =
      memcmp_loop_lem n (i + 1) lhs rhs m
      ∙ ap (λ k. memcmp_eq k (rhs + (i + 1)) n m) el
      ∙ ap (λ k. memcmp_eq (lhs + i + 1) k n m) er in
    ground (arith, ih)

strnlen_from-first :
    (fuel string max n k : ℕ) (m : Bytes)
    → k < fuel
    → ((i : ℕ) → i < k → m (string + (n + i)) ≢ 0)
    → n + k ≤ max
    → (m (string + (n + k)) ≡ 0) ⊎ (n + k ≡ max)
    → strnlen_from fuel string max n m ≡ some (n + k)
unfolding strnlen_from
strnlen_from-first zero string max n k m lt before le end = absurd (omega arith)
strnlen_from-first (suc fuel) string max n zero m lt before le end =
    let e : n + 0 ≡ n = omega arith in let here = ap (λ j. m (string + j)) e in ground arith
strnlen_from-first (suc fuel) string max n (suc k) m lt before le end =
    let e : n ≡ n + 0 = omega arith in
    let here = ap (λ j. m (string + j)) e in
    let nonzero = before 0 (omega arith) in
    let end' : n + suc k ≡ n + 1 + k = omega arith in
    let at_end = ap (λ j. m (string + j)) end' in
    let rest =
      strnlen_from-first fuel string max (n + 1) k m (omega arith)
        (λ i il z.
          before (suc i) (omega arith)
            (let f : n + suc i ≡ n + 1 + i = omega arith in ap (λ j. m (string + j)) f ∙ z))
        (omega arith) (ground arith) in
    ground arith

strlen_from-same :
    (fuel string n : ℕ) (m : Bytes) → sdb_strlen_from fuel string n m ≡ strlen_from fuel string n m
unfolding sdb_strlen_from strlen_from
strlen_from-same zero string n m = refl
strlen_from-same (suc fuel) string n m = ground (arith, strlen_from-same fuel string (n + 1) m)

-- SdbStrnlen returns: when no NUL stands in the first `k` bytes, where `k` is at most the maximum, and either one
-- stands behind them or `k` is the maximum, the answer is `k`.
pub sdb_strnlen_lem :
    (string max k : ℕ) (m : Bytes)
    → ((i : ℕ) → i < k → m (string + i) ≢ 0)
    → k ≤ max
    → (m (string + k) ≡ 0) ⊎ (k ≡ max)
    → sdb_strnlen string max m ≡ some k
unfolding sdb_strnlen
sdb_strnlen_lem string max k m before le end =
    let e : 0 + k ≡ k = omega arith in
    let at_end = ap (λ j. m (string + j)) e in
    strnlen_from-first (max + 1) string max 0 k m (omega arith)
      (λ i il z. before i il (let f : i ≡ 0 + i = omega arith in ap (λ j. m (string + j)) f ∙ z))
      (omega arith) (ground arith)
    ∙ ap some e

pub mem_zero-bzero : (p n : ℕ) (m : Bytes) → sdb_mem_zero p n m ≡ bzero p n m
unfolding sdb_mem_zero sdb_memset bzero
mem_zero-bzero p n m = λ i a. zero_at a i
  where
    zero_at : (a : ℕ) → memset_loop n 0 p 0 m a ≡ (if leb p a && ltb a (p + n) then 0 else m a)
    zero_at a = let set = memset_loop_lem n 0 p 0 m a in ground arith

pub memcpy-memcpy :
    (to from len : ℕ) (m : Bytes)
    → (from + len ≤ to) ⊎ (to + len ≤ from)
    → sdb_memcpy to from len m ≡ memcpy to from len m
unfolding sdb_memcpy memcpy
memcpy-memcpy to from len m apart = λ i a. copied a i
  where
    copied :
        (a : ℕ)
        → memcpy_loop len 0 to from m a
          ≡ (if leb to a && ltb a (to + len) then m (from + (a - to)) else m a)
    copied a = let cpy = memcpy_loop_lem len 0 to from len m a apart (omega arith) in ground arith

pub memcmp-memcmp_eq : (lhs rhs n : ℕ) (m : Bytes) → sdb_memcmp lhs rhs n m ≡ memcmp_eq lhs rhs n m
unfolding sdb_memcmp
memcmp-memcmp_eq lhs rhs n m =
    let el : lhs + 0 ≡ lhs = omega arith in
    let er : rhs + 0 ≡ rhs = omega arith in
    memcmp_loop_lem n 0 lhs rhs m
    ∙ ap (λ k. memcmp_eq k (rhs + 0) n m) el
    ∙ ap (λ k. memcmp_eq lhs k n m) er

pub strlen-strlen : (string : ℕ) (m : Bytes) → sdb_strlen string m ≡ strlen string m
unfolding sdb_strlen strlen
strlen-strlen string m = strlen_from-same (2 ^ 64) string 0 m

-- The routines do what the C library's do: SdbMemcpy, between ranges that do not overlap, leaves the bytes that memcpy
-- leaves; SdbMemZero clears as bzero does; SdbMemcmp answers whether memcmp finds no difference; SdbStrlen is
-- strlen, the run to the end of memory included.
pub routines-libc :
    (to from len : ℕ) (m : Bytes)
    → (from + len ≤ to) ⊎ (to + len ≤ from)
    → (sdb_memcpy to from len m ≡ memcpy to from len m)
      × (sdb_mem_zero to len m ≡ bzero to len m)
      × (sdb_memcmp to from len m ≡ memcmp_eq to from len m)
      × (sdb_strlen from m ≡ strlen from m)
routines-libc to from len m apart = (
  memcpy-memcpy to from len m apart,
  mem_zero-bzero to len m,
  memcmp-memcmp_eq to from len m,
  strlen-strlen from m,
)
