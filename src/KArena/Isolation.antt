-- ===== src/KArena/Isolation.antt =====
-- src/modules/karena/karena.c: which slots a command may change.
use lmalloc.Common.{
  ℕ, ◌≡◌, ◌≢◌, sym, inl, inr, ◌∙◌, List, some, arith, get_elem?, Option-cases, Bool-cases, ap, ltb,
  sub_size, add_size,
}
use lmalloc.KArena.{
  KArena, KaData, Kernel, Host, Ret, update, find_open_slot, handle_arena_destroy,
  handle_arena_alloc, handle_arena_seek, handle_arena_pop, handle_arena_pos, handle_arena_reserve,
  handle_arena_size, handle_arena_base,
}
use lmalloc.KArena.Slots.{FirstOpen, find_open_slot_lem, get_elem?-update_ne}
use lmalloc.KArena.Ioctl.{
  Cmd, create, alloc, seek, pop, pos, reserve, destroy, size, bootstrap, base, unknown,
  handle_arena_create, handle_arena_bootstrap, dispatch, ioctl_switch, store, create_in,
  bootstrap_in, fresh_slot, at_slot,
}

-- Slot `j` holds the taken arena `b`.
abbrev pub Taken : List KArena → ℕ → KArena → Type 0
Taken ks j b = (get_elem? ks j ≡ some b) × (b.uaddr ≢ 0)

-- A taken slot is not the one that `find_open_slot` gives.
Taken-ne : {ks : List KArena} {i j : ℕ} {b : KArena} → Taken ks j b → FirstOpen ks i → i ≢ j
Taken-ne {ks} {i} {j} t f = λ e. ground arith

-- Marking a slot as taken leaves the taken ones as they were.
mark-Taken :
    (ks : List KArena) (j : ℕ) (b : KArena)
    → Taken ks j b
    → get_elem? (find_open_slot ks).1 j ≡ some b
mark-Taken ks j b t = elim (find_open_slot_lem ks) [
  | inr (e, all) ↦ rw e t.0
  | inl (i, e, f) ↦
      rw e (get_elem?-update_ne ks i j (λ a. record a { uaddr = 1 }) (Taken-ne t f) ∙ t.0)
]

create_in-isolated :
    (host : Host) (k : Kernel) (d : KaData) (j i : ℕ) (b : KArena) {ret : Ret} {k' : Kernel}
    {d' : KaData}
    → create_in host k d (some i, update k.karenas i (λ a. record a { uaddr = 1 }))
      ≡ some (ret, k', d')
    → i ≢ j
    → get_elem? k'.karenas j ≡ get_elem? k.karenas j
unfolding create_in
create_in-isolated host k d j i b h ne = ground (
  arith,
  get_elem?-update_ne k.karenas i j (λ a. record a { uaddr = 1 }) ne,
  get_elem?-update_ne (update k.karenas i (λ a. record a { uaddr = 1 })) i j
      (λ (a : KArena). record (fresh_slot host.pid (host.page_align d.size) a) {
        kaddr = host.vmalloc (host.page_align d.size);
      })
      ne,
)

create-isolated :
    (host : Host) (k : Kernel) (d : KaData) (j : ℕ) (b : KArena) {ret : Ret} {k' : Kernel}
    {d' : KaData}
    → Taken k.karenas j b
    → handle_arena_create host k d ≡ some (ret, k', d')
    → get_elem? k'.karenas j ≡ some b
unfolding handle_arena_create
create-isolated host k d j b t h = elim (find_open_slot_lem k.karenas) [
  | inl (i, e, f) ↦
      create_in-isolated host k d j i b (sym (ap (create_in host k d) e) ∙ h) (Taken-ne t f) ∙ t.0
  | inr (e, all) ↦ unfold create_in in ground (arith, sym (ap (create_in host k d) e) ∙ h)
]

bootstrap-isolated :
    (k : Kernel) (i : ℕ) (a : KArena) (d : KaData) (j : ℕ) (b : KArena)
    → Taken k.karenas j b
    → j ≢ i
    → get_elem? (handle_arena_bootstrap k i a d).1.karenas j ≡ some b
unfolding handle_arena_bootstrap
bootstrap-isolated k i a d j b t ne = elim (Bool-cases (ltb (sub_size a.size a.cur) d.size)) [
  | inl short ↦ ground arith
  | inr room ↦ rw room (elim (find_open_slot_lem paid) [
    | inl (o, e, f) ↦
        unfold bootstrap_in in
        rw e (
          get_elem?-update_ne _ o j _ (Taken-ne still f)
          ∙ get_elem?-update_ne paid o j (λ a. record a { uaddr = 1 }) (Taken-ne still f)
          ∙ still.0)
    | inr (e, all) ↦ unfold bootstrap_in in rw e still.0
  ])
]
  where
    paid : List KArena
    paid = update k.karenas i (λ x. record x { cur = add_size a.cur d.size })

    still : Taken paid j b
    still = (get_elem?-update_ne k.karenas i j _ (λ e. ne (sym e)) ∙ t.0, t.1)

store-isolated :
    (k : Kernel) (i : ℕ) (r : Ret × KArena × KaData) (j : ℕ) (b : KArena) {ret : Ret} {k' : Kernel}
    {d' : KaData}
    → Taken k.karenas j b
    → j ≢ i
    → store k i r ≡ some (ret, k', d')
    → get_elem? k'.karenas j ≡ some b
store-isolated k i r j b t ne h = ground (arith, get_elem?-update_ne k.karenas i j (λ _. r.1))

dispatch-isolated :
    (k : Kernel) (cmd : Cmd) (i : ℕ) (a : KArena) (d : KaData) (j : ℕ) (b : KArena) {ret : Ret}
    {k' : Kernel} {d' : KaData}
    → Taken k.karenas j b
    → j ≢ i
    → dispatch k cmd i a d ≡ some (ret, k', d')
    → get_elem? k'.karenas j ≡ some b
unfolding dispatch
dispatch-isolated k bootstrap i a d j b t ne h = ground (arith, bootstrap-isolated k i a d j b t ne)
dispatch-isolated k destroy i a d j b t ne h =
    ground (arith, get_elem?-update_ne k.karenas i j (λ _. (handle_arena_destroy a d).0))
dispatch-isolated k alloc i a d j b t ne h = store-isolated k i (handle_arena_alloc a d) j b t ne h
dispatch-isolated k seek i a d j b t ne h = store-isolated k i (handle_arena_seek a d) j b t ne h
dispatch-isolated k pop i a d j b t ne h = store-isolated k i (handle_arena_pop a d) j b t ne h
dispatch-isolated k pos i a d j b t ne h = store-isolated k i (handle_arena_pos a d) j b t ne h
dispatch-isolated k reserve i a d j b t ne h =
    store-isolated k i (handle_arena_reserve a d) j b t ne h
dispatch-isolated k size i a d j b t ne h = store-isolated k i (handle_arena_size a d) j b t ne h
dispatch-isolated k base i a d j b t ne h = store-isolated k i (handle_arena_base a d) j b t ne h
dispatch-isolated k create i a d j b t ne h = ground arith
dispatch-isolated k (unknown n) i a d j b t ne h = ground arith

named-isolated :
    (k : Kernel) (cmd : Cmd) (d : KaData) (j : ℕ) (b : KArena) {ret : Ret} {k' : Kernel}
    {d' : KaData}
    → Taken k.karenas j b
    → j ≢ d.arena
    → at_slot k cmd d (get_elem? k.karenas d.arena) ≡ some (ret, k', d')
    → get_elem? k'.karenas j ≡ some b
named-isolated k cmd d j b t ne h = elim (Option-cases (get_elem? k.karenas d.arena)) [
  | inl e ↦ cc (sym (ap (at_slot k cmd d) e) ∙ h)
  | inr (a, e) ↦ dispatch-isolated k cmd d.arena a d j b t ne (sym (ap (at_slot k cmd d) e) ∙ h)
]

-- A command that does not fault changes no taken slot but the one that its data name.
pub ioctl-isolated :
    (host : Host) (k : Kernel) (cmd : Cmd) (d : KaData) (j : ℕ) (b : KArena) {ret : Ret}
    {k' : Kernel} {d' : KaData}
    → get_elem? k.karenas j ≡ some b
    → b.uaddr ≢ 0
    → j ≢ d.arena
    → ioctl_switch host k cmd d ≡ some (ret, k', d')
    → get_elem? k'.karenas j ≡ some b
unfolding ioctl_switch
ioctl-isolated host k create d j b e used ne h = create-isolated host k d j b (e, used) h
ioctl-isolated host k (unknown n) d j b e used ne h = ground arith
ioctl-isolated host k alloc d j b e used ne h = named-isolated k alloc d j b (e, used) ne h
ioctl-isolated host k seek d j b e used ne h = named-isolated k seek d j b (e, used) ne h
ioctl-isolated host k pop d j b e used ne h = named-isolated k pop d j b (e, used) ne h
ioctl-isolated host k pos d j b e used ne h = named-isolated k pos d j b (e, used) ne h
ioctl-isolated host k reserve d j b e used ne h = named-isolated k reserve d j b (e, used) ne h
ioctl-isolated host k destroy d j b e used ne h = named-isolated k destroy d j b (e, used) ne h
ioctl-isolated host k size d j b e used ne h = named-isolated k size d j b (e, used) ne h
ioctl-isolated host k bootstrap d j b e used ne h = named-isolated k bootstrap d j b (e, used) ne h
ioctl-isolated host k base d j b e used ne h = named-isolated k base d j b (e, used) ne h
