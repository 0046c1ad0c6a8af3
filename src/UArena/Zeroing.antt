-- ===== src/UArena/Zeroing.antt =====
-- src/allocators/u_arena.c, ua_zalloc and ua_fzalloc: which bytes they clear.
use lmalloc.Common.{
  ℕ, ◌+◌, ◌≤◌, ◌<◌, ◌≡◌, ◌⊎◌, refl, some, none, inl, inr, Bytes, bzero, bzero-inside, bzero-outside,
  Bool-cases,
}
use mathlib.Core.Option.{some-injective}
use mathlib.Core.Path.{subst}
use lmalloc.UArena.{UArena, ua_alloc, ua_zalloc, ua_falloc, ua_fzalloc, fits}

-- `m'` is `m` with the block of `size` bytes at `p` cleared, and no other byte changed.
pub record Cleared (p size : ℕ) (m m' : Bytes) : Type 0 where
  pub inside : (a : ℕ) → p ≤ a → a < p + size → m' a ≡ 0
  pub outside : (a : ℕ) → (a < p) ⊎ (p + size ≤ a) → m' a ≡ m a

-- `ua_zalloc` answers and moves the cursor as `ua_alloc` does; when it returns a block, that block
-- alone is cleared, and when it returns NULL no byte changes.
pub ua_zalloc_lem :
    (ua : UArena) (size : ℕ) (m : Bytes)
    → let (ptr, ua', m') = ua_zalloc ua size m in
      ((ptr, ua') ≡ ua_alloc ua size)
      × ((p : ℕ) → ptr ≡ some p → Cleared p size m m')
      × (ptr ≡ none → m' ≡ m)
unfolding ua_zalloc ua_alloc
ua_zalloc_lem ua size m = elim (Bool-cases (fits ua size)) [
  | inl ok ↦ rw ok (
    refl,
    (λ p e.
        subst (λ q. Cleared q size m (bzero (ua.mem + ua.cur) size m)) (some-injective _ _ e)
          (record {
            inside = bzero-inside (ua.mem + ua.cur) size m;
            outside = bzero-outside (ua.mem + ua.cur) size m;
          })),
    λ e. cc,
  )
  | inr no_room ↦ rw no_room (refl, (λ p e. cc), λ e. refl)
]

-- The unchecked allocation that clears does so to the block that it returns.
pub ua_fzalloc_lem :
    (ua : UArena) (size : ℕ) (m : Bytes)
    → let (p, ua', m') = ua_fzalloc ua size m in
      ((p, ua') ≡ ua_falloc ua size) × Cleared p size m m'
unfolding ua_fzalloc ua_falloc
ua_fzalloc_lem ua size m = (
  refl,
  record {
    inside = bzero-inside (ua.mem + ua.cur) size m;
    outside = bzero-outside (ua.mem + ua.cur) size m;
  },
)
