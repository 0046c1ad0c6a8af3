-- ===== src/KaClient/Scratch.antt =====
-- src/allocators/karena.c, from ka__thread_arenas_init__ on: marks that give space back, and the arenas of
-- a thread. Arenas are slots, and slot 0 is NULL.
use lmalloc.Common.{
  ℕ, zero, suc, ◌+◌, ◌≡◌, ◌≢◌, refl, ap, ◌∙◌, arith, Bool, true, false, List, [], ◌∷◌, Option, none,
  some, leb, ◌==◌, if◌then◌else◌, set, get_elem?,
}
use lmalloc.UArena.{ua_pos, ua_seek}
use lmalloc.KArena.{KArena, Host}
use lmalloc.KArena.Bounds.{IsValid}
use lmalloc.KaClient.{World, device, ka_pos, ka_seek}
use lmalloc.KaClient.Slot.{view, put_slot, ka_pos-eq-ua_pos, ka_seek-eq-ua_seek}

-- `KAScratch`. `none` is a fault of the kernel module.
pub record KaScratch : Type 0 where
  pub ua : ℕ
  pub f5 : ℕ

-- `struct ka__thread_arenas__`. `kas` is the whole buffer.
pub record KaThreadArenas : Type 0 where
  pub kas : List ℕ
  pub count : ℕ
  pub max_count : ℕ

unfoldable pub ka_thread_arenas_init : List ℕ → KaThreadArenas → KaThreadArenas
ka_thread_arenas_init ta_buf tas = record tas { kas = ta_buf }

unfoldable pub ka_thread_arenas_add : ℕ → KaThreadArenas → ℕ × KaThreadArenas
ka_thread_arenas_add a tas =
    if leb (tas.count + 1) tas.max_count
    then (0, record tas { kas = set tas.kas tas.count a; count = tas.count + 1 })
    else (1, tas)

-- A scratch from the answer of `ka_pos`.
abbrev pub mark_answer : ℕ → Option (ℕ × World) → Option (KaScratch × World)
mark_answer ka none = none
mark_answer ka (some (f5, w)) = some (record { ua = ka; f5 = f5 }, w)

unfoldable pub ka_scratch_begin : Host → World → ℕ → Option (KaScratch × World)
ka_scratch_begin host w ka =
    if ka == 0 then some (record { ua = 0; f5 = 0 }, w) else mark_answer ka (ka_pos host w ka)

-- The pointer that `ka_seek` returns is dropped.
abbrev pub drop_seek : Option (ℕ × World) → Option World
drop_seek none = none
drop_seek (some (p, w)) = some w

unfoldable pub ka_scratch_release : Host → World → KaScratch → Option World
ka_scratch_release host w s = drop_seek (ka_seek host w s.ua s.f5)

-- Does `a` differ from one of the conflicts?
pub ka_differs : ℕ → List ℕ → Bool
ka_differs a [] = false
ka_differs a (c ∷ cs) = if a == c then ka_differs a cs else true

-- The loop of `ka__scratch_get__` over the next `left` arenas, from index `i` on; a slot of 0 is NULL, as
-- if none was found. A read behind the buffer is `none`.
unfoldable pub ka_first_differing : List ℕ → List ℕ → ℕ → ℕ → Option ℕ
ka_first_differing kas conflicts zero i = some 0
ka_first_differing kas conflicts (suc left) i =
    let rest = ka_first_differing kas conflicts left (i + 1) in
    elim (get_elem? kas i) [
      | none ↦ none
      | some a ↦ if ka_differs a conflicts then some a else rest
    ]

unfoldable pub ka_scratch_pick : List ℕ → KaThreadArenas → Option ℕ
unfolding ka_first_differing
ka_scratch_pick [] tas = get_elem? tas.kas 0
ka_scratch_pick (c ∷ cs) tas = ka_first_differing tas.kas (c ∷ cs) tas.count 0

unfoldable pub ka_scratch_get : Host → World → List ℕ → KaThreadArenas → Option (KaScratch × World)
unfolding ka_scratch_pick ka_scratch_begin
ka_scratch_get host w conflicts tas = elim (ka_scratch_pick conflicts tas) [
  | none ↦ none
  | some ka ↦ if ka == 0 then some (record { ua = 0; f5 = 0 }, w) else ka_scratch_begin host w ka
]

-- A scratch that is begun with the device open on the valid arena in a slot other than 0, and
-- released in any later world where the slot holds a valid arena of the same size: as seen by the
-- process, the cursor is back where it was, and only that slot of the world changes.
pub ka_scratch_release-begin :
    (host : Host) (w w2 : World) (i : ℕ) (a b : KArena)
    → i ≢ 0
    → w.fd ≡ device
    → w2.fd ≡ device
    → get_elem? w.kernel.karenas i ≡ some a
    → get_elem? w2.kernel.karenas i ≡ some b
    → IsValid a
    → IsValid b
    → b.size ≡ a.size
    → (s : KaScratch) × (w1 : World) × (ka_scratch_begin host w i ≡ some (s, w1))
      × ((b' : KArena) × (ka_scratch_release host w2 s ≡ some (put_slot w2 i b'))
          × (view b' ≡ record (view b) { cur = a.cur }))
unfolding ka_scratch_begin ka_scratch_release ua_pos ua_seek
ka_scratch_release-begin host w w2 i a b ne o o2 there there2 va vb same =
    let (b', e, q) = ka_seek-eq-ua_seek host w2 i b o2 there2 a.cur vb (omega arith) in
    (
      record { ua = i; f5 = a.cur },
      put_slot w i a,
      ground (arith, ka_pos-eq-ua_pos host w i a o there),
      (b', ap drop_seek e, q ∙ ground arith),
    )

-- The scratch of the arena in slot 0 is begun without a look at it, and its release, in any world
-- where that slot holds a valid arena, moves the arena's cursor to 0.
pub ka_scratch_release-null :
    (host : Host) (w w2 : World) (b : KArena)
    → w2.fd ≡ device
    → get_elem? w2.kernel.karenas 0 ≡ some b
    → IsValid b
    → (s : KaScratch) × (ka_scratch_begin host w 0 ≡ some (s, w))
      × ((b' : KArena) × (ka_scratch_release host w2 s ≡ some (put_slot w2 0 b'))
          × (view b' ≡ record (view b) { cur = 0 }))
unfolding ka_scratch_begin ka_scratch_release ua_seek
ka_scratch_release-null host w w2 b o2 there2 vb =
    let (b', e, q) = ka_seek-eq-ua_seek host w2 0 b o2 there2 0 vb (omega arith) in
    (record { ua = 0; f5 = 0 }, refl, (b', ap drop_seek e, q ∙ ground arith))
