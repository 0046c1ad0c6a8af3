-- ===== src/KArena/Lifetime.antt =====
-- src/modules/karena/karena.c: the kernel memory of an arena, from its creation to its destruction.
use lmalloc.Common.{
  ℕ, ◌<◌, ◌≡◌, ◌≢◌, refl, sym, ap, inl, inr, false, List, [], ◌∷◌, ◌++◌, some, arith, get_elem?,
  ◌∙◌, subst,
}
use lmalloc.KArena.{KArena, KaData, Kernel, Host, ok, update, handle_arena_destroy}
use lmalloc.KArena.Slots.{FirstOpen, find_open_slot_lem, get_elem?-update_ne, get_elem?-update_self}
use lmalloc.KArena.Ioctl.{
  create, destroy, ioctl_switch, dispatch, handle_arena_create, create_in, fresh_slot, at_slot,
}

-- A wiped slot: the address of its kernel memory stays.
abbrev pub wiped : KArena → KArena
wiped a = record a { uaddr = 0; cur = 0; size = 0; owner_pid = 0 }

-- Destroying an arena that is not bootstrapped frees its kernel memory, tells its size and wipes
-- its slot.
destroy-plain :
    (host : Host) (k : Kernel) (d : KaData) (a : KArena)
    → get_elem? k.karenas d.arena ≡ some a
    → a.bootstrapped ≡ false
    → a.kaddr ≢ 0
    → ioctl_switch host k destroy d
      ≡ some (
        ok,
        record k {
          karenas = update k.karenas d.arena (λ _. wiped a);
          vfrees = k.vfrees ++ (a.kaddr ∷ []);
        },
        record d { size = a.size },
      )
unfolding ioctl_switch dispatch handle_arena_destroy
destroy-plain host k d a e plain mem = ap (at_slot k destroy d) e ∙ ground arith

-- Destroying an arena that is not bootstrapped and has kernel memory answers 0, and so does a
-- second destroy of the same slot: both give the same address to `vfree`.
pub destroy-destroy :
    (host : Host) (k : Kernel) (d : KaData) (a : KArena)
    → get_elem? k.karenas d.arena ≡ some a
    → a.bootstrapped ≡ false
    → a.kaddr ≢ 0
    → (k1 : Kernel) × (k2 : Kernel) × (d1 : KaData) × (d2 : KaData) × (ioctl_switch host k destroy d
        ≡ some (ok, k1, d1))
      × (ioctl_switch host k1 destroy d ≡ some (ok, k2, d2))
      × (k2.vfrees ≡ (k.vfrees ++ (a.kaddr ∷ [])) ++ (a.kaddr ∷ []))
destroy-destroy host k d a e plain mem =
    let k1 = record k {
      karenas = update k.karenas d.arena (λ _. wiped a);
      vfrees = k.vfrees ++ (a.kaddr ∷ []);
    } in
    (
      k1,
      record k1 {
        karenas = update k1.karenas d.arena (λ _. wiped (wiped a));
        vfrees = k1.vfrees ++ (a.kaddr ∷ []);
      },
      record d { size = a.size },
      record d { size = 0 },
      destroy-plain host k d a e plain mem,
      destroy-plain host k1 d (wiped a) (get_elem?-update_self k.karenas d.arena (λ _. wiped a) a e)
          plain mem,
      refl,
    )

-- The slot of a created arena.
unfoldable pub created_slot : Host → KaData → KArena
created_slot host d = record {
  size = host.page_align d.size;
  cur = 0;
  uaddr = 0;
  bootstrapped = false;
  kaddr = host.vmalloc (host.page_align d.size);
  owner_pid = host.pid;
}

-- A create that answers 0: the arena stands in the first slot that was open, whose index is
-- returned and is the current one; the size is rounded up as PAGE_ALIGN does, and is told to the
-- caller; the slot still counts as open.
pub record Created (host : Host) (k : Kernel) (d : KaData) (k1 : Kernel) (d1 : KaData)
    : Type 0 where
  pub was_first : FirstOpen k.karenas d1.arena
  pub slot : get_elem? k1.karenas d1.arena ≡ some (created_slot host d)
  pub current : k1.current_arena_index ≡ d1.arena
  pub told : d1.size ≡ host.page_align d.size
  pub nonzero : host.page_align d.size ≢ 0
  pub still_first : FirstOpen k1.karenas d1.arena

module _ (host : Host) (k : Kernel) (d : KaData) where
  -- The table once slot `i` is filled.
  filled : ℕ → List KArena
  filled i = update (update k.karenas i (λ a. record a { uaddr = 1 })) i (λ a.
      record (fresh_slot host.pid (host.page_align d.size) a) {
        kaddr = host.vmalloc (host.page_align d.size);
      })

  filled-slot :
      (i : ℕ) → FirstOpen k.karenas i → get_elem? (filled i) i ≡ some (created_slot host d)
  unfolding filled created_slot
  filled-slot i f =
      get_elem?-update_self (update k.karenas i (λ a. record a { uaddr = 1 })) i _
        (record f.slot { uaddr = 1 })
        (get_elem?-update_self k.karenas i (λ a. record a { uaddr = 1 }) f.slot f.there)

  filled-below : (i l : ℕ) → l < i → get_elem? (filled i) l ≡ get_elem? k.karenas l
  unfolding filled
  filled-below i l lt =
      get_elem?-update_ne (update k.karenas i (λ a. record a { uaddr = 1 })) i l _ (omega arith)
      ∙ get_elem?-update_ne k.karenas i l (λ a. record a { uaddr = 1 }) (omega arith)

  filled-FirstOpen : (i : ℕ) → FirstOpen k.karenas i → FirstOpen (filled i) i
  filled-FirstOpen i f = record {
    slot = created_slot host d;
    there = filled-slot i f;
    is_open = unfold created_slot in refl;
    first = λ l b lt e. f.first l b lt (sym (filled-below i l lt) ∙ e);
  }

  create_in-Created :
      (i : ℕ) {k1 : Kernel} {d1 : KaData}
      → FirstOpen k.karenas i
      → create_in host k d (some i, update k.karenas i (λ a. record a { uaddr = 1 }))
        ≡ some (ok, k1, d1)
      → Created host k d k1 d1
  unfolding create_in filled
  create_in-Created i {k1} {d1} f h =
      let idx : d1.arena ≡ i = ground arith in
      let tab : k1.karenas ≡ filled i = ground arith in
      record {
        was_first = subst (FirstOpen k.karenas) (sym idx) f;
        slot = rw (idx, tab) (filled-slot i f);
        current = ground arith;
        told = ground arith;
        nonzero = ground arith;
        still_first = rw (idx, tab) (filled-FirstOpen i f);
      }

  pub create-Created :
      {k1 : Kernel} {d1 : KaData}
      → ioctl_switch host k create d ≡ some (ok, k1, d1)
      → Created host k d k1 d1
  unfolding ioctl_switch handle_arena_create
  create-Created h = elim (find_open_slot_lem k.karenas) [
    | inl (i, q, f) ↦ create_in-Created i f (sym (ap (create_in host k d) q) ∙ h)
    | inr (q, all) ↦ absurd (unfold create_in in cc (sym (ap (create_in host k d) q) ∙ h))
  ]

pub FirstOpen-unique : {ks : List KArena} {i j : ℕ} → FirstOpen ks i → FirstOpen ks j → i ≡ j
FirstOpen-unique {ks} {i} {j} f g =
    ground (arith, f.first j g.slot, g.first i f.slot, f.there, g.there, f.is_open, g.is_open)

-- Two creates in a row that answer 0, with nothing between them, take the same slot, which then
-- holds the second arena.
pub create-create :
    (host1 host2 : Host) (k : Kernel) (d d' : KaData) {k1 k2 : Kernel} {d1 d2 : KaData}
    → ioctl_switch host1 k create d ≡ some (ok, k1, d1)
    → ioctl_switch host2 k1 create d' ≡ some (ok, k2, d2)
    → (d2.arena ≡ d1.arena) × (get_elem? k2.karenas d1.arena ≡ some (created_slot host2 d'))
create-create host1 host2 k d d' {k2} h1 h2 =
    let c1 = create-Created host1 k d h1 in
    let c2 = create-Created host2 _ d' h2 in
    let same = FirstOpen-unique c2.was_first c1.still_first in
    (same, subst (λ i. get_elem? k2.karenas i ≡ some (created_slot host2 d')) same c2.slot)
