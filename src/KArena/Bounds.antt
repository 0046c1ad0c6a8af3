-- ===== src/KArena/Bounds.antt =====
-- src/modules/karena/karena.c: an arena's cursor and its block, and what a page fault reads.
use lmalloc.Common.{ℕ, ◌+◌, ◌*◌, ◌^◌, ◌≤◌, ◌<◌, ◌≡◌, ◌≢◌, ◌⊎◌, none, some, arith, word_mod}
use lmalloc.KArena.{
  KArena, KaData, ok, enomem, handle_arena_alloc, handle_arena_seek, handle_arena_reserve,
}
use lmalloc.KArena.Ioctl.{karena_vm_fault}

-- The cursor is in the arena, and the arena in the address space.
pub record IsValid (a : KArena) : Type 0 where
  pub within : a.cur ≤ a.size
  pub placed : a.uaddr + a.size < word_mod

-- An allocation that does not pass the end of the address space succeeds exactly when it fits; its
-- block begins at the old cursor.
pub handle_arena_alloc_lem :
    {a : KArena} (d : KaData)
    → IsValid a
    → a.cur + d.size < word_mod
    → ((a.cur + d.size ≤ a.size)
        × (handle_arena_alloc a d
            ≡ (ok, record a { cur = a.cur + d.size }, record d { arena = a.uaddr + a.cur })))
      ⊎ ((a.size < a.cur + d.size) × (handle_arena_alloc a d ≡ (enomem, a, d)))
unfolding handle_arena_alloc
handle_arena_alloc_lem d v small = ground arith

-- `seek` makes no test: past the end it leaves an arena that is not valid.
pub seek-not_IsValid :
    (a : KArena) (d : KaData)
    → a.size < d.size
    → ((handle_arena_seek a d).0 ≡ ok) × ¬ IsValid (handle_arena_seek a d).1
unfolding handle_arena_seek
seek-not_IsValid a d h = (ground arith, λ v. omega arith)

-- A reservation in a valid arena whose end does not pass the end of the address space answers 0: when the
-- size fits, the cursor moves on by it and the data stays; else the arena stays and what is left is
-- answered.
pub handle_arena_reserve_lem :
    {a : KArena} (d : KaData)
    → IsValid a
    → a.cur + d.size < word_mod
    → let (ret, a', d') = handle_arena_reserve a d in
      (ret ≡ ok)
      × (((a.cur + d.size ≤ a.size) × (a' ≡ record a { cur = a.cur + d.size }) × (d' ≡ d))
          ⊎ ((a.size < a.cur + d.size)
              × (a' ≡ a)
              × (d'.size + a.cur ≡ a.size)
              × (d'.size < d.size)))
unfolding handle_arena_reserve
handle_arena_reserve_lem d v small = ground arith

-- Every page of a mapped arena is backed by the page at the same offset of its kernel memory, and
-- no page from its size on is.
pub karena_vm_fault_lem :
    (vmalloc_to_page : ℕ → ℕ) (a : KArena) (pgoff : ℕ)
    → ((x : ℕ) → a.kaddr ≤ x → x < a.kaddr + a.size → vmalloc_to_page x ≢ 0)
    → pgoff * 2 ^ 12 < word_mod
    → ((pgoff * 2 ^ 12 < a.size)
        × (karena_vm_fault vmalloc_to_page a pgoff
            ≡ some (vmalloc_to_page (a.kaddr + pgoff * 2 ^ 12))))
      ⊎ ((a.size ≤ pgoff * 2 ^ 12) × (karena_vm_fault vmalloc_to_page a pgoff ≡ none))
unfolding karena_vm_fault
karena_vm_fault_lem page a pgoff backed small = ground (arith, backed (a.kaddr + pgoff * 2 ^ 12))
