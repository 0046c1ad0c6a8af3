-- ===== src/KArena/Release.antt =====
-- src/modules/karena/karena.c, dev_release: which arenas a process gives back when it closes.
use lmalloc.Common.{
  ℕ, zero, suc, ◌≡◌, ◌≢◌, ◌⊎◌, refl, inl, inr, true, false, List, [], ◌∷◌, ◌++◌, some, arith,
  get_elem?, length, not, ◌==◌, ◌&&◌, Bool-cases, ap, length-append, if◌then◌else◌,
}
use mathlib.Core.List.{append_assoc}
use lmalloc.KArena.{KArena, Kernel}
use lmalloc.KArena.Ioctl.{release_from, dev_release}

-- A mapped arena of the process.
abbrev pub Owned : ℕ → KArena → Type 0
Owned pid a = (a.uaddr ≢ 0) × (a.owner_pid ≡ pid)

-- Of the process's arenas none is bootstrapped.
abbrev pub NoneBootstrapped : ℕ → List KArena → Type 0
NoneBootstrapped pid [] = Unit {0}
NoneBootstrapped pid (a ∷ ks) =
    ((a.uaddr ≢ 0) → (a.owner_pid ≡ pid) → a.bootstrapped ≡ false) × NoneBootstrapped pid ks

release_from-clears :
    (pid : ℕ) (ks : List KArena) (i : ℕ) (a : KArena)
    → NoneBootstrapped pid ks
    → get_elem? (release_from pid ks).0 i ≡ some a
    → (a.uaddr ≡ 0) ⊎ (a.owner_pid ≢ pid)
unfolding release_from
release_from-clears pid [] i a none_b e = cc
release_from-clears pid (x ∷ ks) zero a none_b e = ground arith
release_from-clears pid (x ∷ ks) (suc i) a none_b e =
    ground (arith, release_from-clears pid ks i a none_b.1)

-- An arena that is not the process's is left as it was.
release_from-others :
    (pid : ℕ) (ks : List KArena) (i : ℕ) (a : KArena)
    → get_elem? ks i ≡ some a
    → (a.uaddr ≡ 0) ⊎ (a.owner_pid ≢ pid)
    → get_elem? (release_from pid ks).0 i ≡ some a
unfolding release_from
release_from-others pid [] i a e other = cc
release_from-others pid (x ∷ ks) zero a e other = ground arith
release_from-others pid (x ∷ ks) (suc i) a e other =
    ground (arith, release_from-others pid ks i a e other)

-- The first bootstrapped arena of the process ends the loop: every slot behind it stays as it was,
-- the process's own included.
release_from-stops :
    (pid : ℕ) (before after : List KArena) (b : KArena)
    → Owned pid b
    → b.bootstrapped ≡ true
    → (pre : List KArena) × (length pre ≡ suc (length before))
      × ((release_from pid (before ++ (b ∷ after))).0 ≡ pre ++ after)
unfolding release_from
release_from-stops pid [] after b own boot = (
  record b { uaddr = 0; cur = 0; size = 0; owner_pid = 0; bootstrapped = false } ∷ [],
  refl,
  ground arith,
)
release_from-stops pid (x ∷ before) after b own boot =
    let (pre, len, e) = release_from-stops pid before after b own boot in
    elim (Bool-cases (not (x.uaddr == 0) && x.owner_pid == pid)) [
      | inr other ↦ (x ∷ pre, ap suc len, ground arith)
      | inl mine ↦ elim (Bool-cases x.bootstrapped) [
        | inr plain ↦ (
          (if not (x.kaddr == 0)
                then record x { uaddr = 0; cur = 0; size = 0; owner_pid = 0; kaddr = 0 }
                else record x { uaddr = 0; cur = 0; size = 0; owner_pid = 0 })
              ∷ pre,
          ap suc len,
          ground arith,
        )
        | inl first ↦ (
          record x { uaddr = 0; cur = 0; size = 0; owner_pid = 0; bootstrapped = false }
              ∷ (before ++ (b ∷ [])),
          omega (arith, length-append {0} before (b ∷ [])),
          ground (arith, append_assoc before (b ∷ []) after),
        )
      ]
    ]

-- After a release by a process that has no bootstrapped arena mapped, none of its arenas is
-- mapped, and the slots that it has no mapped arena in stay as they were.
pub dev_release-clears :
    (pid : ℕ) (k : Kernel)
    → NoneBootstrapped pid k.karenas
    → ((i : ℕ) (a : KArena)
        → get_elem? (dev_release pid k).karenas i ≡ some a
        → (a.uaddr ≡ 0) ⊎ (a.owner_pid ≢ pid))
      × ((i : ℕ) (a : KArena)
          → get_elem? k.karenas i ≡ some a
          → (a.uaddr ≡ 0) ⊎ (a.owner_pid ≢ pid)
          → get_elem? (dev_release pid k).karenas i ≡ some a)
unfolding dev_release
dev_release-clears pid k none_b = (
  λ i a e. release_from-clears pid k.karenas i a none_b e,
  λ i a e other. release_from-others pid k.karenas i a e other,
)

-- A release by the owner of a mapped, bootstrapped arena leaves all slots behind that arena as
-- they were.
pub dev_release-stops :
    (pid : ℕ) (k : Kernel) (before after : List KArena) (b : KArena)
    → k.karenas ≡ before ++ (b ∷ after)
    → Owned pid b
    → b.bootstrapped ≡ true
    → (pre : List KArena) × (length pre ≡ suc (length before))
      × ((dev_release pid k).karenas ≡ pre ++ after)
unfolding dev_release
dev_release-stops pid k before after b e own boot =
    rw e (release_from-stops pid before after b own boot)
