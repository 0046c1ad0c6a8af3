-- ===== src/UArena/Create/Nested.antt =====
-- src/allocators/u_arena.c, ua_bootstrap: an arena cut from another one.
use lmalloc.Common.{
  ℕ, ◌+◌, ◌≤◌, ◌<◌, ◌≡◌, ◌⊎◌, [], true, false, Option, none, some, arith, word_mod, Bytes,
}
use lmalloc.UArena.{UArena, ua_init, ua_alloc, ua_zalloc, is_bootstrapped}
use lmalloc.UArena.Bounds.{IsValid}
use lmalloc.UArena.Create.{sizeof_uarena, ua_bootstrap, ua_destroy}

-- A bootstrapped arena with its header in a valid parent, where the sizes together do not pass
-- the end of the address space: the parent stays valid, with its place and capacity. When header
-- and memory fit, the new arena is returned, with both at the parent's cursor one behind the
-- other, and the cursor moves behind them; when they do not, NULL is returned.
pub bootstrap_lem :
    {ua : UArena} (cap : ℕ) (m : Bytes)
    → IsValid ua
    → ua.cap + sizeof_uarena + cap < word_mod
    → let (child, parent, m') = ua_bootstrap ua none cap m in
      IsValid parent
      × ((parent.mem ≡ ua.mem) × (parent.cap ≡ ua.cap))
      × (((ua.cur + sizeof_uarena + cap ≤ ua.cap)
            × (parent.cur ≡ ua.cur + sizeof_uarena + cap)
            × (child
                ≡ some (
                  ua.mem + ua.cur,
                  ua_init false false true cap (ua.mem + ua.cur + sizeof_uarena),
                )))
          ⊎ ((ua.cap < ua.cur + sizeof_uarena + cap) × (child ≡ none)))
unfolding ua_bootstrap ua_alloc ua_zalloc
bootstrap_lem cap m v small = ground arith

-- Destroying a bootstrapped arena gives nothing back: its memory is its parent's.
pub destroy-bootstrap :
    (ua : UArena) (new_existing : Option ℕ) (cap cacheln_sz p : ℕ) (m : Bytes) {child : UArena}
    → (ua_bootstrap ua new_existing cap m).0 ≡ some (p, child)
    → ua_destroy cacheln_sz (some (p, child)) ≡ ([], some (p, child))
unfolding ua_bootstrap ua_alloc ua_zalloc ua_destroy is_bootstrapped ua_init
destroy-bootstrap ua none n c p m e = ground arith
destroy-bootstrap ua (some q) n c p m e = ground arith
