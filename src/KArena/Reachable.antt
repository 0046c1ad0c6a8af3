-- ===== src/KArena/Reachable.antt =====
-- src/modules/karena/karena.c: what holds in every state that the file operations reach.
use lmalloc.Common.{
  ℕ, zero, suc, ◌≡◌, ◌≤◌, List, [], ◌∷◌, Option, none, some, arith, get_elem?, replicate, Bool,
  false,
}
use lmalloc.KArena.{KArena, KaData, Kernel, Host, Ret}
use lmalloc.KArena.Ioctl.{
  Cmd, ioctl_switch, karena_ioctl, karena_mmap, Vma, dev_open, dev_release, release_from, copy_out,
  is_ok, Outcome,
}
use lmalloc.KArena.Within.{
  Fits, AllWithin, AlignsToWord, Allowed, switch-AllWithin, update-AllWithin, get_elem?-within,
}

abbrev pub empty_slot : KArena
empty_slot = record { size = 0; cur = 0; uaddr = 0; bootstrapped = false; kaddr = 0; owner_pid = 0 }

-- The module's state once it is loaded: 100 slots of zeros.
abbrev pub loaded : Kernel
loaded = record {
  karenas = replicate 100 empty_slot;
  current_arena_index = 0;
  vmallocs = [];
  vfrees = [];
}

-- A file operation that some process calls, with no fault. An ioctl seeks inside its arena.
pub data Step (k k' : Kernel) : Type 0 where
  ioctl :
      (host : Host) (cmd : Cmd) (d : KaData) (writable : Bool) (ret : Ret) (arg : Option KaData)
      → AlignsToWord host
      → Allowed k cmd d
      → karena_ioctl host k cmd (some d) writable ≡ some (ret, k', arg)
      → Step k k'
  mmap : (vma : Vma) (ret : Ret) → karena_mmap k vma ≡ some (ret, k') → Step k k'
  open_file : k' ≡ dev_open k → Step k k'
  release : (pid : ℕ) → k' ≡ dev_release pid k → Step k k'

pub data Reach : Kernel → Type 0 where
  start : Reach loaded
  next : {k k' : Kernel} → Reach k → Step k k' → Reach k'

copy_out-kernel :
    (cmd : Cmd) (d : KaData) (writable : Bool) (r : Outcome) {ret : Ret} {k' : Kernel}
    {arg : Option KaData}
    → copy_out cmd d writable r ≡ some (ret, k', arg)
    → (ret1 : Ret) × (d1 : KaData) × (r ≡ some (ret1, k', d1))
unfolding copy_out is_ok
copy_out-kernel cmd d writable none h = absurd (cc)
copy_out-kernel cmd d writable (some (r, k1, d1)) h = (r, d1, ground arith)

mmap-AllWithin :
    (k : Kernel) (vma : Vma) {ret : Ret} {k' : Kernel}
    → AllWithin k.karenas
    → karena_mmap k vma ≡ some (ret, k')
    → AllWithin k'.karenas
unfolding karena_mmap
mmap-AllWithin k vma w h = ground (
  arith,
  update-AllWithin k.karenas k.current_arena_index
      (λ (a : KArena). record a { uaddr = vma.vm_start }) w
      (λ a q. get_elem?-within k.karenas k.current_arena_index w q),
)

release-AllWithin : (pid : ℕ) (ks : List KArena) → AllWithin ks → AllWithin (release_from pid ks).0
unfolding release_from
release-AllWithin pid [] w = tt
release-AllWithin pid (a ∷ ks) w = ground (arith, release-AllWithin pid ks w.1)

Step-AllWithin : {k k' : Kernel} → Step k k' → AllWithin k.karenas → AllWithin k'.karenas
unfolding karena_ioctl dev_release
Step-AllWithin {k} (ioctl host cmd d wr ret arg word allowed e) w =
    let (ret1, d1, q) = copy_out-kernel cmd d wr (ioctl_switch host k cmd d) e in
    switch-AllWithin host k cmd d word w allowed q
Step-AllWithin {k} (mmap vma ret e) w = mmap-AllWithin k vma w e
Step-AllWithin (open_file e) w = unfold dev_open in ground arith
Step-AllWithin {k} (release pid e) w = ground (arith, release-AllWithin pid k.karenas w)

replicate-AllWithin : (n : ℕ) (a : KArena) → Fits a → AllWithin (replicate n a)
replicate-AllWithin zero a f = tt
replicate-AllWithin (suc n) a f = (f, replicate-AllWithin n a f)

Reach-AllWithin : {k : Kernel} → Reach k → AllWithin k.karenas
Reach-AllWithin start = replicate-AllWithin 100 empty_slot (omega arith)
Reach-AllWithin (next r s) = Step-AllWithin s (Reach-AllWithin r)

-- In every state that the file operations reach from the loading of the module, with data that
-- are machine words and seeks inside the arenas, the cursor of each slot is in its arena.
pub Reach-within :
    {k : Kernel} (i : ℕ) (a : KArena) → Reach k → get_elem? k.karenas i ≡ some a → a.cur ≤ a.size
Reach-within {k} i a r e = (get_elem?-within k.karenas i (Reach-AllWithin r) e).0
