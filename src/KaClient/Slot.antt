-- ===== src/KaClient/Slot.antt =====
-- src/allocators/karena.c: each call on an arena, against the same call of the userspace arena.
use lmalloc.Common.{
  ℕ, ◌^◌, ◌≤◌, ◌<◌, ◌≡◌, refl, ap, ◌∙◌, true, Option, none, some, arith, get_elem?,
}
use lmalloc.UArena.{UArena, ua_alloc, ua_pop, ua_pos, ua_seek, ua_reserve}
use lmalloc.KArena.{
  KArena, KaData, Kernel, Host, update, handle_arena_alloc, handle_arena_seek, handle_arena_pop,
  handle_arena_pos, handle_arena_reserve, handle_arena_size, handle_arena_base,
}
use lmalloc.KArena.Bounds.{IsValid}
use lmalloc.KArena.Ioctl.{
  Cmd, karena_ioctl, ioctl_switch, dispatch, at_slot, copy_out, copies_back, is_ok,
}
use lmalloc.KaClient.{
  World, device, ioctl, ioctl_on, ioctl_answer, ka_alloc, ka_seek, ka_pop, ka_pos, ka_reserve,
  ka_base, ka_size,
}

-- A slot of the kernel's table, seen as an arena of u_arena.c.
abbrev pub view : KArena → UArena
view a = record { flags = 0; cap = a.size; cur = a.cur; mem = a.uaddr }

-- The pointer that stands for a NULL or an address.
abbrev pub pointer : Option ℕ → ℕ
pointer none = 0
pointer (some p) = p

-- The world once slot `i` holds `a`.
abbrev pub put_slot : World → ℕ → KArena → World
put_slot w i a = record w {
  kernel = record w.kernel { karenas = update w.kernel.karenas i (λ _. a) };
}

-- The commands that name a slot.
abbrev Named : Cmd → Type 0
Named Cmd.create = ⊥
Named (Cmd.unknown n) = ⊥
Named cmd = Unit {0}

switch-Named :
    (host : Host) (k : Kernel) (cmd : Cmd) (d : KaData)
    → Named cmd
    → ioctl_switch host k cmd d ≡ at_slot k cmd d (get_elem? k.karenas d.arena)
unfolding ioctl_switch
switch-Named host k Cmd.create d h = absurd h
switch-Named host k (Cmd.unknown n) d h = absurd h
switch-Named host k cmd d h = refl

module _ (host : Host) (w : World) (i : ℕ) (a : KArena) (opened : w.fd ≡ device)
    (there : get_elem? w.kernel.karenas i ≡ some a) where
  -- A call on slot `i` reaches the handler with the arena that stands there.
  ioctl-Named :
      (cmd : Cmd) (n : ℕ)
      → Named cmd
      → ioctl host w cmd (record { size = n; arena = i })
        ≡ ioctl_answer w
            (record { size = n; arena = i })
            (copy_out cmd
              (record { size = n; arena = i })
              true
              (dispatch w.kernel cmd i a (record { size = n; arena = i })))
  unfolding ioctl karena_ioctl
  ioctl-Named cmd n h =
      ap (λ f. ioctl_on f host w cmd d) opened
      ∙ ap (λ r. ioctl_answer w d (copy_out cmd d true r))
          (switch-Named host w.kernel cmd d h ∙ ap (at_slot w.kernel cmd d) there)
    where
      d : KaData
      d = record { size = n; arena = i }

  pub ka_alloc-eq-ua_alloc :
      (n : ℕ)
      → IsValid a
      → let (p, ua) = ua_alloc (view a) n in
        (a' : KArena) × (ka_alloc host w i n ≡ some (pointer p, put_slot w i a')) × (view a' ≡ ua)
  unfolding ka_alloc ioctl_answer copy_out dispatch ua_alloc handle_arena_alloc is_ok copies_back
  ka_alloc-eq-ua_alloc n v = (
    (handle_arena_alloc a (record { size = n; arena = i })).1,
    rw (ioctl-Named Cmd.alloc n tt) (ground arith),
    ground arith,
  )

  -- The other calls: position, capacity and base address are the arena's, reserving and freeing do
  -- what u_arena.c does, and so do a seek inside the arena and a pop of less than half the words.
  pub ka_pos-eq-ua_pos : ka_pos host w i ≡ some (ua_pos (view a), put_slot w i a)
  unfolding ka_pos ioctl_answer copy_out dispatch ua_pos handle_arena_pos is_ok copies_back
  ka_pos-eq-ua_pos = rw (ioctl-Named Cmd.pos 0 tt) (ground arith)

  pub ka_size-eq-cap : ka_size host w i ≡ some ((view a).cap, put_slot w i a)
  unfolding ka_size ioctl_answer copy_out dispatch handle_arena_size is_ok copies_back
  ka_size-eq-cap = rw (ioctl-Named Cmd.size 0 tt) (ground arith)

  pub ka_base-eq-mem : ka_base host w i ≡ some ((view a).mem, put_slot w i a)
  unfolding ka_base ioctl_answer copy_out dispatch handle_arena_base is_ok copies_back
  ka_base-eq-mem = rw (ioctl-Named Cmd.base 0 tt) (ground arith)

  pub ka_reserve-eq-ua_reserve :
      (n : ℕ)
      → IsValid a
      → let (got, ua) = ua_reserve (view a) n in
        (a' : KArena) × (ka_reserve host w i n ≡ some (got, put_slot w i a')) × (view a' ≡ ua)
  unfolding ka_reserve ioctl_answer copy_out dispatch ua_reserve handle_arena_reserve is_ok
      copies_back
  ka_reserve-eq-ua_reserve n v = (
    (handle_arena_reserve a (record { size = n; arena = i })).1,
    rw (ioctl-Named Cmd.reserve n tt) (ground arith),
    ground arith,
  )

  pub ka_seek-eq-ua_seek :
      (n : ℕ)
      → IsValid a
      → n ≤ a.size
      → let (p, ua) = ua_seek (view a) n in
        (a' : KArena) × (ka_seek host w i n ≡ some (pointer p, put_slot w i a')) × (view a' ≡ ua)
  unfolding ka_seek ioctl_answer copy_out dispatch ua_seek handle_arena_seek is_ok copies_back
  ka_seek-eq-ua_seek n v le = (
    (handle_arena_seek a (record { size = n; arena = i })).1,
    rw (ioctl-Named Cmd.seek n tt) (ground arith),
    ground arith,
  )

  pub ka_pop-eq-ua_pop :
      (n : ℕ)
      → IsValid a
      → a.size < 2 ^ 63
      → n < 2 ^ 63
      → (a' : KArena) × (ka_pop host w i n ≡ some (put_slot w i a')) × (view a' ≡ ua_pop (view a) n)
  unfolding ka_pop ioctl_answer copy_out dispatch ua_pop handle_arena_pop is_ok copies_back
  ka_pop-eq-ua_pop n v small h = (
    (handle_arena_pop a (record { size = n; arena = i })).1,
    rw (ioctl-Named Cmd.pop n tt) (ground arith),
    ground arith,
  )
