-- ===== src/Common/Memory.antt =====
-- The bytes of an address space, and the C library's writes to them.
use Prim.Native.Nat.{ℕ, zero, suc, ◌+◌, ◌-◌, ◌≤◌, ◌<◌, ◌^◌}
use mathlib.Core.Bool.{Bool, true, false}
use mathlib.Core.Option.{Option, none, some}
use mathlib.Core.Path.{◌≡◌, ap, refl, ◌∙◌}
use mathlib.Core.Bool.{◌&&◌}
use mathlib.Core.Logic.{◌⊎◌, ◌≢◌}
use native.Mathlib.Omega.{arith}
use lmalloc.Common.Tests.{ltb, leb, ◌==◌, if◌then◌else◌}

-- What stands at each address.
abbrev pub Bytes : Type 0
Bytes = ℕ → ℕ

-- `explicit_bzero(ptr, size)`
unfoldable pub bzero : ℕ → ℕ → Bytes → Bytes
bzero ptr size m a = if leb ptr a && ltb a (ptr + size) then 0 else m a

-- `memcpy(to, from, size)` between ranges that do not overlap
unfoldable pub memcpy : ℕ → ℕ → ℕ → Bytes → Bytes
memcpy to from size m a = if leb to a && ltb a (to + size) then m (from + (a - to)) else m a

pub bzero-inside : (p n : ℕ) (m : Bytes) (a : ℕ) → p ≤ a → a < p + n → bzero p n m a ≡ 0
unfolding bzero
bzero-inside p n m a lo hi = ground arith

pub bzero-outside : (p n : ℕ) (m : Bytes) (a : ℕ) → (a < p) ⊎ (p + n ≤ a) → bzero p n m a ≡ m a
unfolding bzero
bzero-outside p n m a out = ground arith

pub memcpy-inside :
    (to from n : ℕ) (m : Bytes) (i : ℕ) → i < n → memcpy to from n m (to + i) ≡ m (from + i)
unfolding memcpy
memcpy-inside to from n m i lt =
    let e : from + (to + i - to) ≡ from + i = omega arith in ground (arith, ap m e)

pub memcpy-outside :
    (to from n : ℕ) (m : Bytes) (a : ℕ) → (a < to) ⊎ (to + n ≤ a) → memcpy to from n m a ≡ m a
unfolding memcpy
memcpy-outside to from n m a out = ground arith

-- A store with one place written.
abbrev pub put {ℓ} : {A : Type ℓ} → (ℕ → A) → ℕ → A → ℕ → A
put f k v j = if j == k then v else f j

-- `strlen(p)`, which reads on until it finds a NUL. `none`: none of the next `fuel` bytes is one, and the
-- read leaves the address space when `fuel` is its size.
unfoldable pub strlen_from : ℕ → ℕ → ℕ → Bytes → Option ℕ
strlen_from zero p n m = none
strlen_from (suc fuel) p n m =
    let rest = strlen_from fuel p (n + 1) m in if m (p + n) == 0 then some n else rest

unfoldable pub strlen : ℕ → Bytes → Option ℕ
unfolding strlen_from
strlen p m = strlen_from (2 ^ 64) p 0 m

-- `memcmp(a, b, size) == 0`
unfoldable pub memcmp_eq : ℕ → ℕ → ℕ → Bytes → Bool
memcmp_eq a b zero m = true
memcmp_eq a b (suc size) m = if m a == m b then memcmp_eq (a + 1) (b + 1) size m else false

pub memcmp_eq→ :
    (a b n : ℕ) (m : Bytes) → memcmp_eq a b n m ≡ true → (i : ℕ) → i < n → m (a + i) ≡ m (b + i)
unfolding memcmp_eq
memcmp_eq→ a b zero m h i lt = absurd (omega arith)
memcmp_eq→ a b (suc n) m h zero lt =
    let ea : a + 0 ≡ a = omega arith in
    let eb : b ≡ b + 0 = omega arith in ap m ea ∙ (ground arith) ∙ ap m eb
memcmp_eq→ a b (suc n) m h (suc i) lt =
    let ea : a + suc i ≡ a + 1 + i = omega arith in
    let eb : b + 1 + i ≡ b + suc i = omega arith in
    ap m ea ∙ memcmp_eq→ (a + 1) (b + 1) n m (ground arith) i (omega arith) ∙ ap m eb

pub →memcmp_eq :
    (a b n : ℕ) (m : Bytes) → ((i : ℕ) → i < n → m (a + i) ≡ m (b + i)) → memcmp_eq a b n m ≡ true
unfolding memcmp_eq
→memcmp_eq a b zero m same = refl
→memcmp_eq a b (suc n) m same =
    let ea : a ≡ a + 0 = omega arith in
    let eb : b + 0 ≡ b = omega arith in
    let head : m a ≡ m b = ap m ea ∙ same 0 (omega arith) ∙ ap m eb in
    let rest = →memcmp_eq (a + 1) (b + 1) n m λ i lt.
      let fa : a + 1 + i ≡ a + suc i = omega arith in
      let fb : b + suc i ≡ b + 1 + i = omega arith in
      ap m fa ∙ same (suc i) (omega arith) ∙ ap m fb in
    ground arith

-- The scan finds the first NUL, when there is enough fuel to reach it.
pub strlen_from-first :
    (fuel p n k : ℕ) (m : Bytes)
    → k < fuel
    → ((i : ℕ) → i < k → m (p + (n + i)) ≢ 0)
    → m (p + (n + k)) ≡ 0
    → strlen_from fuel p n m ≡ some (n + k)
unfolding strlen_from
strlen_from-first zero p n k m lt before end = absurd (omega arith)
strlen_from-first (suc fuel) p n zero m lt before end =
    let e : n + 0 ≡ n = omega arith in let here = ap (λ j. m (p + j)) e in ground arith
strlen_from-first (suc fuel) p n (suc k) m lt before end =
    let e : n ≡ n + 0 = omega arith in
    let here = ap (λ j. m (p + j)) e in
    let nonzero = before 0 (omega arith) in
    let end' : n + suc k ≡ n + 1 + k = omega arith in
    let at_end = ap (λ j. m (p + j)) end' in
    let rest =
      strlen_from-first fuel p (n + 1) k m (omega arith)
        (λ i il z.
          before (suc i) (omega arith)
            (let f : n + suc i ≡ n + 1 + i = omega arith in ap (λ j. m (p + j)) f ∙ z))
        (ground arith) in
    ground arith

pub strlen-first :
    (p k : ℕ) (m : Bytes)
    → k < 2 ^ 64
    → ((i : ℕ) → i < k → m (p + i) ≢ 0)
    → m (p + k) ≡ 0
    → strlen p m ≡ some k
unfolding strlen
strlen-first p k m lt before end =
    strlen_from-first (2 ^ 64) p 0 k m lt
      (λ i il z. before i il (let f : i ≡ 0 + i = omega arith in ap (λ j. m (p + j)) f ∙ z))
      (let f : 0 + k ≡ k = omega arith in ap (λ j. m (p + j)) f ∙ end)
    ∙ ap some {x = 0 + k} {y = k} (omega arith)
