-- ===== src/KArena/Nested.antt =====
-- src/modules/karena/karena.c, handle_arena_bootstrap: an arena cut from another one.
use lmalloc.Common.{
  ℕ, ◌+◌, ◌≤◌, ◌<◌, ◌≡◌, ◌≢◌, true, false, List, some, arith, get_elem?, inl, inr, ◌∙◌, refl, sym,
  ap, word_mod, ltb, sub_size, add_size, Bool-cases,
}
use lmalloc.KArena.{KArena, KaData, Kernel, ok, update, find_open_slot, handle_arena_seek}
use lmalloc.KArena.Bounds.{IsValid}
use lmalloc.KArena.Slots.{FirstOpen, find_open_slot_lem, get_elem?-update_ne, get_elem?-update_self}
use lmalloc.KArena.Ioctl.{handle_arena_bootstrap, bootstrap_in}

-- What a slot holds after it was made from the block of `d.size` bytes behind the cursor of `a`.
abbrev pub Child : KArena → KaData → KArena → Type 0
Child a d c =
    (c.uaddr ≡ a.uaddr + a.cur)
    × (c.size ≡ d.size)
    × (c.cur ≡ 0)
    × (c.bootstrapped ≡ true)
    × (c.owner_pid ≡ a.owner_pid)

-- The arena that `bootstrap_in` writes into slot `o`.
child_slot : KArena → KaData → KArena
child_slot a d = record {
  size = d.size;
  cur = 0;
  uaddr = add_size a.uaddr a.cur;
  bootstrapped = true;
  kaddr = a.kaddr;
  owner_pid = a.owner_pid;
}

-- What the two slots hold once `o` is filled.
bootstrap_in-slots :
    (k : Kernel) (a : KArena) (d : KaData) (o i : ℕ) (paid : List KArena) (f : FirstOpen paid o)
    {p : KArena}
    → o ≢ i
    → get_elem? paid i ≡ some p
    → let out = (bootstrap_in k a d (some o, update paid o (λ x. record x { uaddr = 1 }))).1 in
      (get_elem? out.karenas o ≡ some (child_slot a d)) × (get_elem? out.karenas i ≡ some p)
unfolding bootstrap_in child_slot
bootstrap_in-slots k a d o i paid f ne e = (
  get_elem?-update_self (update paid o (λ x. record x { uaddr = 1 })) o (λ _. child_slot a d)
      (record f.slot { uaddr = 1 })
      (get_elem?-update_self paid o (λ x. record x { uaddr = 1 }) f.slot f.there),
  get_elem?-update_ne (update paid o (λ x. record x { uaddr = 1 })) o i (λ _. child_slot a d) ne
      ∙ get_elem?-update_ne paid o i (λ x. record x { uaddr = 1 }) ne
      ∙ e,
)

-- A bootstrap of a machine word from a mapped, valid arena that answers 0: the new arena stands
-- in the slot that is returned, it lies in the parent's free part and has the parent's owner, and
-- the parent's cursor is behind it.
pub bootstrap-Child :
    (k : Kernel) (i : ℕ) (a : KArena) (d : KaData) {k' : Kernel} {d' : KaData}
    → IsValid a
    → a.uaddr ≢ 0
    → d.size < word_mod
    → get_elem? k.karenas i ≡ some a
    → handle_arena_bootstrap k i a d ≡ (ok, k', d')
    → (c : KArena) × (get_elem? k'.karenas d'.arena ≡ some c)
      × (get_elem? k'.karenas i ≡ some (record a { cur = a.cur + d.size }))
      × Child a d c
      × (a.uaddr ≤ c.uaddr)
      × (c.uaddr + c.size ≤ a.uaddr + a.size)
bootstrap-Child k i a d {k'} {d'} v mapped word e h =
    elim (Bool-cases (ltb (sub_size a.size a.cur) d.size)) [
      | inl short ↦ absurd (unfold handle_arena_bootstrap in ground arith)
      | inr room ↦ placed room (sym (enough room) ∙ h)
    ]
  where
    paid : List KArena
    paid = update k.karenas i (λ x. record x { cur = add_size a.cur d.size })

    enough :
        ltb (sub_size a.size a.cur) d.size ≡ false
        → handle_arena_bootstrap k i a d ≡ bootstrap_in k a d (find_open_slot paid)
    enough room = unfold handle_arena_bootstrap in rw room

    at_parent : get_elem? paid i ≡ some (record a { cur = add_size a.cur d.size })
    at_parent =
        get_elem?-update_self k.karenas i (λ x. record x { cur = add_size a.cur d.size }) a e

    placed :
        ltb (sub_size a.size a.cur) d.size ≡ false
        → bootstrap_in k a d (find_open_slot paid) ≡ (ok, k', d')
        → (c : KArena) × (get_elem? k'.karenas d'.arena ≡ some c)
          × (get_elem? k'.karenas i ≡ some (record a { cur = a.cur + d.size }))
          × Child a d c
          × (a.uaddr ≤ c.uaddr)
          × (c.uaddr + c.size ≤ a.uaddr + a.size)
    placed room g = elim (find_open_slot_lem paid) [
      | inr (q, all) ↦ absurd (unfold bootstrap_in in cc (sym (ap (bootstrap_in k a d) q) ∙ g))
      | inl (o, q, f) ↦
          let ne : o ≢ i = λ same. ground (arith, at_parent, f.there, f.is_open) in
          let g' = sym (ap (bootstrap_in k a d) q) ∙ g in
          let slots = bootstrap_in-slots k a d o i paid f ne at_parent in
          (
            child_slot a d,
            unfold bootstrap_in in ground (arith, g', slots),
            unfold bootstrap_in in ground (arith, g', slots),
            unfold child_slot in ground arith,
            unfold child_slot in ground arith,
            unfold child_slot in ground arith,
          )
    ]

-- After a seek past the end the free space wraps: a bootstrap of nearly any size passes the test.
seek-has_room :
    (a : KArena) (pos d : KaData)
    → a.size < pos.size
    → pos.size < word_mod
    → d.size + pos.size ≤ word_mod + a.size
    → ltb (sub_size a.size pos.size) d.size ≡ false
seek-has_room a pos d past small fits = ground arith

-- A seek past the end of a valid arena, then a bootstrap from it, while some other slot is open:
-- the bootstrap answers 0 and the new arena begins behind the end of its parent. The sought
-- address must lie in the address space, and the size must be at most 2^64 less the distance past
-- the end.
pub seek-bootstrap-outside :
    (k : Kernel) (i l : ℕ) (a b : KArena) (pos d : KaData)
    → IsValid a
    → a.size < pos.size
    → a.uaddr + pos.size < word_mod
    → d.size + pos.size ≤ word_mod + a.size
    → get_elem? k.karenas l ≡ some b
    → b.uaddr ≡ 0
    → i ≢ l
    → let (ret, k', d') = handle_arena_bootstrap k i (handle_arena_seek a pos).1 d in
      (ret ≡ ok)
      × ((c : KArena) × (get_elem? k'.karenas d'.arena ≡ some c)
          × (c.size ≡ d.size)
          × (a.uaddr + a.size < c.uaddr))
unfolding handle_arena_bootstrap handle_arena_seek child_slot
seek-bootstrap-outside k i l a b pos d v past small fits e is_open ne =
    rw (seek-has_room a pos d past (omega arith) fits) (elim (find_open_slot_lem paid) [
      | inr (q, all) ↦ absurd (all l b (get_elem?-update_ne k.karenas i l _ ne ∙ e) is_open)
      | inl (o, q, f) ↦ rw q (
          unfold bootstrap_in in
          (
            refl,
            (
              child_slot (record a { cur = pos.size }) d,
              get_elem?-update_self (update paid o (λ x. record x { uaddr = 1 })) o
                  (λ _. child_slot (record a { cur = pos.size }) d) (record f.slot { uaddr = 1 })
                  (get_elem?-update_self paid o (λ x. record x { uaddr = 1 }) f.slot f.there),
              refl,
              ground arith,
            ),
          ))
    ])
  where
    paid : List KArena
    paid = update k.karenas i (λ x. record x { cur = add_size pos.size d.size })
