-- ===== src/UArena/Run.antt =====
-- src/allocators/u_arena.c: sequences of calls on one arena.
use lmalloc.Common.{
  ℕ, ◌+◌, ◌≤◌, ◌<◌, ◌≡◌, refl, List, [], ◌∷◌, Option, none, some, inl, inr, arith, word_mod, ap,
  Bytes,
}
use native.Mathlib.Nat.{add_assoc, le_refl}
use lmalloc.UArena.{
  UArena, ua_alloc, ua_zalloc, ua_falloc, ua_fzalloc, ua_pop, ua_seek, ua_reserve, ua_free,
}
use lmalloc.UArena.Create.{ua_bootstrap}
use lmalloc.UArena.Bounds.{IsValid, ua_alloc_lem}

-- A call on an arena that is not NULL; the calls that zero their memory with the bytes that it holds, and a bootstrap with the header
-- that is passed.
pub data Call : Type 0 where
  alloc : ℕ → Call
  zalloc : ℕ → Bytes → Call
  falloc : ℕ → Call
  fzalloc : ℕ → Bytes → Call
  pop : ℕ → Call
  seek : ℕ → Call
  reserve : ℕ → Call
  free : Call
  bootstrap : Option ℕ → ℕ → Bytes → Call

abbrev if_freed : UArena → Option UArena → UArena
if_freed ua none = ua
if_freed ua (some ua') = ua'

pub perform : UArena → Call → UArena
perform ua (alloc n) = (ua_alloc ua n).1
perform ua (zalloc n m) = (ua_zalloc ua n m).1
perform ua (falloc n) = (ua_falloc ua n).1
perform ua (fzalloc n m) = (ua_fzalloc ua n m).1
perform ua (pop n) = ua_pop ua n
perform ua (seek n) = (ua_seek ua n).1
perform ua (reserve n) = (ua_reserve ua n).1
perform ua free = if_freed ua (ua_free (some ua))
perform ua (bootstrap header cap m) = (ua_bootstrap ua header cap m).1

pub run : UArena → List Call → UArena
unfolding perform
run ua [] = ua
run ua (c ∷ cs) = run (perform ua c) cs

-- Everything but the cursor.
abbrev pub Same : UArena → UArena → Type 0
Same a b = (a.cap ≡ b.cap) × (a.mem ≡ b.mem) × (a.flags ≡ b.flags)

perform-Same : (ua : UArena) (c : Call) → Same (perform ua c) ua
unfolding perform ua_alloc ua_zalloc ua_falloc ua_fzalloc ua_pop ua_seek ua_reserve ua_free
    ua_bootstrap
perform-Same ua (alloc n) = ground arith
perform-Same ua (bootstrap none cap m) = ground arith
perform-Same ua (bootstrap (some p) cap m) = ground arith
perform-Same ua c = ground arith

pub run-Same : (ua : UArena) (cs : List Call) → Same (run ua cs) ua
unfolding run
run-Same ua [] = (refl, refl, refl)
run-Same ua (c ∷ cs) = ground (arith, run-Same (perform ua c) cs, perform-Same ua c)

-- A block: its address and its size.
abbrev pub Block : Type 0
Block = ℕ × ℕ

-- The list with the answer of one more allocation in front; a NULL gives no block.
abbrev cons_block : Option ℕ → ℕ → List Block → List Block
cons_block none n bs = bs
cons_block (some p) n bs = (p, n) ∷ bs

-- The blocks that a row of allocations returns.
unfoldable pub blocks : UArena → List ℕ → List Block
blocks ua [] = []
blocks ua (n ∷ ns) = cons_block (ua_alloc ua n).0 n (blocks (ua_alloc ua n).1 ns)

blocks-cons :
    (ua : UArena) (n : ℕ) (ns : List ℕ) {r : Option ℕ × UArena}
    → ua_alloc ua n ≡ r
    → blocks ua (n ∷ ns) ≡ cons_block r.0 n (blocks r.1 ns)
unfolding blocks
blocks-cons ua n ns e = ap (λ r. cons_block r.0 n (blocks r.1 ns)) e

-- The blocks lie one after the other, between `lo` and `hi`.
abbrev pub Chain : ℕ → ℕ → List Block → Type 0
Chain lo hi [] = lo ≤ hi
Chain lo hi ((p, n) ∷ bs) = (lo ≤ p) × Chain (p + n) hi bs

abbrev pub AllSmall : ℕ → List ℕ → Type 0
AllSmall bound [] = Unit {0}
AllSmall bound (n ∷ ns) = (n < bound) × AllSmall bound ns

-- The blocks that a row of allocations of less than `bound` bytes returns lie one after the other,
-- from the cursor of a valid arena on and inside the arena, when its capacity and `bound` together do
-- not pass the end of the address space.
pub blocks-Chain :
    (ns : List ℕ) {ua : UArena} (bound : ℕ)
    → IsValid ua
    → ua.cap + bound ≤ word_mod
    → AllSmall bound ns
    → Chain (ua.mem + ua.cur) (ua.mem + ua.cap) (blocks ua ns)
blocks-Chain [] bound v fit small = unfold blocks in omega arith
blocks-Chain (n ∷ ns) {ua} bound v fit small = elim (ua_alloc_lem n v (omega arith)) [
  | inl (room, e) ↦ rw (blocks-cons ua n ns e) (
    le_refl _,
    rw (add_assoc ua.mem ua.cur n)
        (blocks-Chain ns {ua = record ua { cur = ua.cur + n }} bound (omega arith) fit small.1),
  )
  | inr (full, e) ↦ rw (blocks-cons ua n ns e) (blocks-Chain ns bound v fit small.1)
]
