-- ===== src/UArena/Create.antt =====
-- src/allocators/u_arena.c, ua_create, ua_destroy and ua_bootstrap: where an arena's memory comes
-- from, and where it goes.
pub mod Regions
pub mod Nested
use lmalloc.Common.{
  ℕ, ◌+◌, ◌-◌, ◌%◌, Bool, true, false, Option, none, some, List, [], ◌∷◌, ◌==◌, if◌then◌else◌,
  add_size, Bytes, word_mod,
}
use lmalloc.UArena.{
  UArena, ua_init, ua_alloc, ua_zalloc, is_contiguous, is_mallocd, is_bootstrapped,
}

-- What is acquired of the C library and the kernel, and given back.
pub data Region : Type 0 where
  heap : ℕ → Region
  mapping : ℕ → ℕ → Region

-- The answers of `malloc` (by the number of the call and the size; 0 is NULL) and of an anonymous
-- `mmap` (`none` is MAP_FAILED).
pub record Os : Type 0 where
  pub malloc : ℕ → ℕ → ℕ
  pub mmap : ℕ → Option ℕ

abbrev pub sizeof_uarena : ℕ
sizeof_uarena = 32

abbrev pub map_failed : ℕ
map_failed = word_mod - 1

-- `LmPaddingToAlign`
unfoldable pub padding_to_align : ℕ → ℕ → ℕ
padding_to_align value alignment = (alignment - value % alignment) % alignment

-- `cacheln_sz` is what `get_l1d_cacheln_sz` returns.
unfoldable pub arena_cache_aligned_sz : ℕ → ℕ
unfolding padding_to_align
arena_cache_aligned_sz cacheln_sz = sizeof_uarena + padding_to_align sizeof_uarena cacheln_sz

-- `fault`: `ua_init` writes through a NULL header. `failed`: NULL is returned. `created`: the
-- header's address, the arena, and what was acquired.
pub data Creation : Type 0 where
  fault : Creation
  failed : Creation
  created : ℕ → UArena → List Region → Creation

-- The end of `ua_create`.
finish : ℕ → UArena → List Region → Creation
finish ua arena acquired = if ua == 0 then fault else created ua arena acquired

unfoldable pub ua_create : Os → ℕ → ℕ → Bool → Bool → Creation
unfolding finish
ua_create os cacheln_sz cap contiguous mallocd =
    let arena_sz = arena_cache_aligned_sz cacheln_sz in
    let init = ua_init contiguous mallocd false cap in
    if mallocd
    then (if contiguous
        then (let ua = os.malloc 0 (add_size arena_sz cap) in
            finish ua (init (ua + arena_sz)) (heap ua ∷ []))
        else (let ua = os.malloc 0 sizeof_uarena in
            let mem = os.malloc 1 cap in finish ua (init mem) (heap ua ∷ heap mem ∷ [])))
    else (if contiguous
        then elim (os.mmap (add_size arena_sz cap)) [
          | none ↦ failed
          | some ua ↦ finish ua (init (ua + arena_sz)) (mapping ua (add_size arena_sz cap) ∷ [])
        ]
        else (let ua = os.malloc 0 sizeof_uarena in
            elim (os.mmap cap) [
              | none ↦ finish ua (init map_failed) (heap ua ∷ [])
              | some mem ↦ finish ua (init mem) (heap ua ∷ mapping mem cap ∷ [])
            ]))

-- What is given back, and what `*uap` is afterwards. `uap` itself is not NULL; `none` is a NULL
-- arena, and an arena comes with its header's address.
unfoldable pub ua_destroy : ℕ → Option (ℕ × UArena) → List Region × Option (ℕ × UArena)
ua_destroy cacheln_sz none = ([], none)
ua_destroy cacheln_sz (some (p, ua)) =
    if is_bootstrapped ua.flags
    then ([], some (p, ua))
    else (if ua.mem == 0 then ([], some (p, ua)) else (
      (if is_mallocd ua.flags
          then (if is_contiguous ua.flags then heap p ∷ [] else heap ua.mem ∷ heap p ∷ [])
          else (if is_contiguous ua.flags
              then mapping p (add_size (arena_cache_aligned_sz cacheln_sz) ua.cap) ∷ []
              else mapping ua.mem ua.cap ∷ heap p ∷ [])),
      none,
    ))

-- The new arena, with its header's address, the arena that it is cut from, and the bytes.
unfoldable pub ua_bootstrap : UArena → Option ℕ → ℕ → Bytes → Option (ℕ × UArena) × UArena × Bytes
ua_bootstrap ua new_existing cap m =
    let (new, ua1) = elim new_existing as (λ _. Option ℕ × UArena) [
      | some p ↦ (some p, ua)
      | none ↦ ua_alloc ua sizeof_uarena
    ] in
    let (mem, ua2, m') = ua_zalloc ua1 cap m in
    (
      elim new [
        | none ↦ none
        | some p ↦ elim mem [ none ↦ none | some a ↦ some (p, ua_init false false true cap a) ]
      ],
      ua2,
      m',
    )
