-- ===== src/KaClient/Create.antt =====
-- src/allocators/karena.c, ka_create and ka_destroy: making and unmaking an arena.
use lmalloc.Common.{
  ℕ, ◌≡◌, refl, sym, ap, ◌∙◌, subst, true, Bool, Option, none, some, arith, get_elem?,
  if◌then◌else◌,
}
use lmalloc.KArena.{KArena, KaData, Kernel, Host, ok}
use lmalloc.KArena.Slots.{FirstOpen, get_elem?-update_self}
use lmalloc.KArena.Lifetime.{created_slot, create-Created, FirstOpen-unique}
use lmalloc.KArena.Ioctl.{
  Cmd, karena_ioctl, ioctl_switch, copy_out, copies_back, is_ok, karena_mmap, Outcome,
}
use lmalloc.KaClient.{
  World, Fd, device, unset, stale, ioctl, ioctl_on, ioctl_answer, ka_create, ka_destroy,
  map_created, create_answer, open_device, request, unmap_answer,
}

destroy_answer-munmaps :
    (w : World) (n : ℕ) (d : KaData) (r : Outcome) {w' : World}
    → d.size ≡ 0
    → unmap_answer n (ioctl_answer w d (copy_out Cmd.destroy d true r)) ≡ some w'
    → w'.munmaps ≡ w.munmaps
unfolding unmap_answer ioctl_answer copy_out copies_back is_ok
destroy_answer-munmaps w n d none z h = cc
destroy_answer-munmaps w n d (some (ret, k, d')) z h = ground arith

on_fd-munmaps :
    (host : Host) (w : World) (arena : ℕ) (f : Fd) {w' : World}
    → unmap_answer arena (ioctl_on f host w Cmd.destroy (request arena 0)) ≡ some w'
    → w'.munmaps ≡ w.munmaps
unfolding ioctl_on karena_ioctl unmap_answer
on_fd-munmaps host w arena device h =
    destroy_answer-munmaps w arena (request arena 0)
      (ioctl_switch host w.kernel Cmd.destroy (request arena 0)) refl h
on_fd-munmaps host w arena unset h = ground arith
on_fd-munmaps host w arena stale h = ground arith

-- A `ka_destroy` that does not fault calls `munmap` on nothing.
pub ka_destroy-munmaps :
    (host : Host) (w : World) (arena : ℕ) {w' : World}
    → ka_destroy host w arena ≡ some w'
    → w'.munmaps ≡ w.munmaps
unfolding ka_destroy ioctl
ka_destroy-munmaps host w arena h = on_fd-munmaps host w arena w.fd h

-- What `ka_create` makes of the kernel's answer to its first command.
answer_of :
    (host : Host) (w : World) (n : ℕ) (r : Outcome) (place : ℕ) {p : ℕ} {w' : World}
    → create_answer
        (some place)
        (ioctl_answer w (request 0 n) (copy_out Cmd.create (request 0 n) true r))
      ≡ some (p, w')
    → w'.fd ≡ device
    → (k1 : Kernel) × (d1 : KaData) × (r ≡ some (ok, k1, d1))
      × (map_created (record w { kernel = k1 }) (some place) d1 ≡ some (p, w'))
unfolding create_answer ioctl_answer copy_out copies_back is_ok
answer_of host w n none place h kept = absurd (cc)
answer_of host w n (some (ret, k1, d1)) place h kept = (k1, d1, ground arith, ground arith)

-- Mapping the current slot writes the place into it and changes no other slot.
map_created-slot :
    (w : World) (place : ℕ) (d : KaData) (a : KArena) {p : ℕ} {w' : World}
    → get_elem? w.kernel.karenas w.kernel.current_arena_index ≡ some a
    → map_created w (some place) d ≡ some (p, w')
    → w.fd ≡ device
    → w'.fd ≡ device
    → (p ≡ d.arena)
      × (get_elem? w'.kernel.karenas w.kernel.current_arena_index
          ≡ some (record a { uaddr = place }))
unfolding map_created karena_mmap
map_created-slot w place d a there h opened kept = ground (
  arith,
  get_elem?-update_self w.kernel.karenas w.kernel.current_arena_index
      (λ (x : KArena). record x { uaddr = place }) a there,
)

-- With the device open, a create goes straight to the kernel.
ka_create-opened :
    (host : Host) (w : World) (place n : ℕ)
    → w.fd ≡ device
    → ka_create host w true (some place) n
      ≡ create_answer (some place) (
          ioctl_answer w (request 0 n) (
            copy_out Cmd.create
              (request 0 n)
              true
              (ioctl_switch host w.kernel Cmd.create (request 0 n))))
unfolding ka_create ioctl ioctl_on karena_ioctl open_device
ka_create-opened host w place n opened =
    ap (λ f. start (open_device f w true)) opened
    ∙ ap (λ f. create_answer (some place) (ioctl_on f host w Cmd.create (request 0 n))) opened
  where
    start : World × Bool → Option (ℕ × World)
    start r =
        if r.1
        then create_answer (some place) (ioctl host r.0 Cmd.create (request 0 n))
        else some (0, r.0)

-- A create with the device open that keeps its descriptor: the arena that is returned stands in the
-- first slot that was open, is mapped at the place that was chosen, is empty, belongs to the process
-- and has the size asked for, rounded up.
pub ka_create_lem :
    (host : Host) (w : World) (place n : ℕ) {p : ℕ} {w' : World}
    → w.fd ≡ device
    → ka_create host w true (some place) n ≡ some (p, w')
    → w'.fd ≡ device
    → FirstOpen w.kernel.karenas p
      × (get_elem? w'.kernel.karenas p
          ≡ some (record (created_slot host (request 0 n)) { uaddr = place }))
ka_create_lem host w place n {p} {w'} opened h kept =
    let (k1, d1, e, m) =
      answer_of host w n (ioctl_switch host w.kernel Cmd.create (request 0 n)) place
        (sym (ka_create-opened host w place n opened) ∙ h) kept in
    let c = create-Created host w.kernel (request 0 n) e in
    let (same, mapped) =
      map_created-slot (record w { kernel = k1 }) place d1 (created_slot host (request 0 n))
        (rw c.current c.slot) m opened kept in
    (
      subst (FirstOpen w.kernel.karenas) (sym same) c.was_first,
      subst
          (λ x.
            get_elem? w'.kernel.karenas x
            ≡ some (record (created_slot host (request 0 n)) { uaddr = place }))
          (c.current ∙ sym same) mapped,
    )

-- A create with the device open that keeps its descriptor, when slot 0 is the first that is open:
-- the pointer that it returns is NULL.
pub ka_create-null :
    (host : Host) (w : World) (place n : ℕ) {p : ℕ} {w' : World}
    → w.fd ≡ device
    → ka_create host w true (some place) n ≡ some (p, w')
    → w'.fd ≡ device
    → FirstOpen w.kernel.karenas 0
    → p ≡ 0
ka_create-null host w place n opened h kept f =
    FirstOpen-unique (ka_create_lem host w place n opened h kept).0 f
