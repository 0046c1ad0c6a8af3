-- ===== src/KArena/Within.antt =====
-- src/modules/karena/karena.c: every command keeps the cursors of all slots in their arenas.
use lmalloc.Common.{
  ℕ, zero, suc, ◌≤◌, ◌<◌, ◌≡◌, refl, sym, ap, inl, inr, ◌∙◌, List, [], ◌∷◌, Option, none, some,
  arith, get_elem?, Option-cases, Bool-cases, false, ltb, sub_size, add_size, word_mod,
}
use lmalloc.KArena.{
  KArena, KaData, Kernel, Host, Ret, update, find_open_slot, handle_arena_destroy,
  handle_arena_alloc, handle_arena_seek, handle_arena_pop, handle_arena_pos, handle_arena_reserve,
  handle_arena_size, handle_arena_base,
}
use lmalloc.KArena.Slots.{find_open_slot_lem}
use lmalloc.KArena.Ioctl.{
  Cmd, create, alloc, seek, pop, pos, reserve, destroy, size, bootstrap, base, unknown, at_slot,
  handle_arena_create, handle_arena_bootstrap, dispatch, ioctl_switch, store, create_in,
  bootstrap_in, fresh_slot,
}

-- The cursor is in the arena, whose size is a machine word.
abbrev pub Fits : KArena → Type 0
Fits a = (a.cur ≤ a.size) × (a.size < word_mod)

abbrev pub AllWithin : List KArena → Type 0
AllWithin [] = Unit {0}
AllWithin (a ∷ ks) = Fits a × AllWithin ks

pub get_elem?-within :
    (ks : List KArena) (i : ℕ) {a : KArena} → AllWithin ks → get_elem? ks i ≡ some a → Fits a
get_elem?-within [] i w e = cc
get_elem?-within (b ∷ ks) zero w e = ground arith
get_elem?-within (b ∷ ks) (suc i) w e = get_elem?-within ks i w.1 e

pub update-AllWithin :
    (ks : List KArena) (i : ℕ) (f : KArena → KArena)
    → AllWithin ks
    → ((a : KArena) → get_elem? ks i ≡ some a → Fits (f a))
    → AllWithin (update ks i f)
unfolding update
update-AllWithin [] i f w h = tt
update-AllWithin (a ∷ ks) zero f w h = (h a refl, w.1)
update-AllWithin (a ∷ ks) (suc i) f w h = (w.0, update-AllWithin ks i f w.1 h)

pub find_open_slot-AllWithin : (ks : List KArena) → AllWithin ks → AllWithin (find_open_slot ks).1
find_open_slot-AllWithin ks w = elim (find_open_slot_lem ks) [
  | inl (i, e, f) ↦ rw e (update-AllWithin ks i _ w (λ a q. get_elem?-within ks i w q))
  | inr (e, all) ↦ rw e w
]

-- `PAGE_ALIGN` gives a machine word.
abbrev pub AlignsToWord : Host → Type 0
AlignsToWord host = (n : ℕ) → host.page_align n < word_mod

create_in-AllWithin :
    (host : Host) (k : Kernel) (d : KaData) (slot : Option ℕ) (marked : List KArena) {ret : Ret}
    {k' : Kernel} {d' : KaData}
    → AlignsToWord host
    → AllWithin marked
    → create_in host k d (slot, marked) ≡ some (ret, k', d')
    → AllWithin k'.karenas
unfolding create_in
create_in-AllWithin host k d none marked word w h = ground arith
create_in-AllWithin host k d (some i) marked word w h = ground (
  arith,
  update-AllWithin marked i
      (λ (a : KArena). record (fresh_slot host.pid (host.page_align d.size) a) {
        kaddr = host.vmalloc (host.page_align d.size);
      })
      w (λ a q. omega (arith, word d.size)),
)

bootstrap_in-AllWithin :
    (k : Kernel) (a : KArena) (d : KaData) (slot : Option ℕ) (marked : List KArena)
    → d.size < word_mod
    → AllWithin marked
    → AllWithin (bootstrap_in k a d (slot, marked)).1.karenas
unfolding bootstrap_in
bootstrap_in-AllWithin k a d none marked word w = w
bootstrap_in-AllWithin k a d (some i) marked word w =
    update-AllWithin marked i _ w (λ x q. omega arith)

-- The block that the parent pays for fits, so its cursor stays within.
pay-Fits :
    (a : KArena) (d : KaData)
    → Fits a
    → ltb (sub_size a.size a.cur) d.size ≡ false
    → Fits (record a { cur = add_size a.cur d.size })
pay-Fits a d w room = ground arith

bootstrap-AllWithin :
    (k : Kernel) (i : ℕ) (a : KArena) (d : KaData)
    → d.size < word_mod
    → AllWithin k.karenas
    → get_elem? k.karenas i ≡ some a
    → AllWithin (handle_arena_bootstrap k i a d).1.karenas
unfolding handle_arena_bootstrap
bootstrap-AllWithin k i a d word w e = elim (Bool-cases (ltb (sub_size a.size a.cur) d.size)) [
  | inl short ↦ rw short w
  | inr room ↦
      let own = pay-Fits a d (get_elem?-within k.karenas i w e) room in
      rw room (
        bootstrap_in-AllWithin k a d _ _ word (
          find_open_slot-AllWithin _ (
            update-AllWithin k.karenas i _ w
              (λ x q. ground (arith, get_elem?-within k.karenas i w q, own)))))
]

-- A seek stays in the arena; the module itself does not test it.
abbrev pub SeekInside : Cmd → KaData → KArena → Type 0
SeekInside seek d a = d.size ≤ a.size
SeekInside cmd d a = Unit {0}

store-AllWithin :
    (k : Kernel) (i : ℕ) (r : Ret × KArena × KaData) {ret : Ret} {k' : Kernel} {d' : KaData}
    → AllWithin k.karenas
    → Fits r.1
    → store k i r ≡ some (ret, k', d')
    → AllWithin k'.karenas
store-AllWithin k i r w own h =
    ground (arith, update-AllWithin k.karenas i (λ _. r.1) w (λ a q. own))

handlers-Fits :
    (a : KArena) (d : KaData)
    → Fits a
    → Fits (handle_arena_alloc a d).1
      × Fits (handle_arena_pop a d).1
      × Fits (handle_arena_reserve a d).1
      × Fits (handle_arena_destroy a d).0
unfolding handle_arena_alloc handle_arena_pop handle_arena_reserve handle_arena_destroy
handlers-Fits a d w = ground arith

dispatch-AllWithin :
    (k : Kernel) (cmd : Cmd) (i : ℕ) (a : KArena) (d : KaData) {ret : Ret} {k' : Kernel}
    {d' : KaData}
    → d.size < word_mod
    → AllWithin k.karenas
    → get_elem? k.karenas i ≡ some a
    → SeekInside cmd d a
    → dispatch k cmd i a d ≡ some (ret, k', d')
    → AllWithin k'.karenas
unfolding dispatch
dispatch-AllWithin k bootstrap i a d word w e s h =
    ground (arith, bootstrap-AllWithin k i a d word w e)
dispatch-AllWithin k destroy i a d word w e s h = ground (
  arith,
  update-AllWithin k.karenas i (λ _. (handle_arena_destroy a d).0) w
      (λ x q. (handlers-Fits a d (get_elem?-within k.karenas i w e)).3),
)
dispatch-AllWithin k alloc i a d word w e s h =
    store-AllWithin k i (handle_arena_alloc a d) w
      (handlers-Fits a d (get_elem?-within k.karenas i w e)).0 h
dispatch-AllWithin k pop i a d word w e s h =
    store-AllWithin k i (handle_arena_pop a d) w
      (handlers-Fits a d (get_elem?-within k.karenas i w e)).1 h
dispatch-AllWithin k reserve i a d word w e s h =
    store-AllWithin k i (handle_arena_reserve a d) w
      (handlers-Fits a d (get_elem?-within k.karenas i w e)).2 h
dispatch-AllWithin k seek i a d word w e s h =
    unfold handle_arena_seek in
    store-AllWithin k i (handle_arena_seek a d) w (s, (get_elem?-within k.karenas i w e).1) h
dispatch-AllWithin k pos i a d word w e s h =
    unfold handle_arena_pos in
    store-AllWithin k i (handle_arena_pos a d) w (get_elem?-within k.karenas i w e) h
dispatch-AllWithin k size i a d word w e s h =
    unfold handle_arena_size in
    store-AllWithin k i (handle_arena_size a d) w (get_elem?-within k.karenas i w e) h
dispatch-AllWithin k base i a d word w e s h =
    unfold handle_arena_base in
    store-AllWithin k i (handle_arena_base a d) w (get_elem?-within k.karenas i w e) h
dispatch-AllWithin k create i a d word w e s h = ground arith
dispatch-AllWithin k (unknown n) i a d word w e s h = ground arith

-- What the caller's data may be: machine words, and a seek inside the arena that is named.
abbrev pub Allowed : Kernel → Cmd → KaData → Type 0
Allowed k cmd d =
    (d.size < word_mod) × ((a : KArena) → get_elem? k.karenas d.arena ≡ some a → SeekInside cmd d a)

named-AllWithin :
    (k : Kernel) (cmd : Cmd) (d : KaData) {ret : Ret} {k' : Kernel} {d' : KaData}
    → AllWithin k.karenas
    → Allowed k cmd d
    → at_slot k cmd d (get_elem? k.karenas d.arena) ≡ some (ret, k', d')
    → AllWithin k'.karenas
named-AllWithin k cmd d w ok h = elim (Option-cases (get_elem? k.karenas d.arena)) [
  | inl e ↦ cc (sym (ap (at_slot k cmd d) e) ∙ h)
  | inr (a, e) ↦
      dispatch-AllWithin k cmd d.arena a d ok.0 w e (ok.1 a e) (sym (ap (at_slot k cmd d) e) ∙ h)
]

pub switch-AllWithin :
    (host : Host) (k : Kernel) (cmd : Cmd) (d : KaData) {ret : Ret} {k' : Kernel} {d' : KaData}
    → AlignsToWord host
    → AllWithin k.karenas
    → Allowed k cmd d
    → ioctl_switch host k cmd d ≡ some (ret, k', d')
    → AllWithin k'.karenas
unfolding ioctl_switch handle_arena_create
switch-AllWithin host k create d word w ok h =
    create_in-AllWithin host k d _ _ word (find_open_slot-AllWithin k.karenas w) h
switch-AllWithin host k (unknown n) d word w ok h = ground arith
switch-AllWithin host k alloc d word w ok h = named-AllWithin k alloc d w ok h
switch-AllWithin host k seek d word w ok h = named-AllWithin k seek d w ok h
switch-AllWithin host k pop d word w ok h = named-AllWithin k pop d w ok h
switch-AllWithin host k pos d word w ok h = named-AllWithin k pos d w ok h
switch-AllWithin host k reserve d word w ok h = named-AllWithin k reserve d w ok h
switch-AllWithin host k destroy d word w ok h = named-AllWithin k destroy d w ok h
switch-AllWithin host k size d word w ok h = named-AllWithin k size d w ok h
switch-AllWithin host k bootstrap d word w ok h = named-AllWithin k bootstrap d w ok h
switch-AllWithin host k base d word w ok h = named-AllWithin k base d w ok h
