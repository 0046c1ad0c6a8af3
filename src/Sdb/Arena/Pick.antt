-- ===== src/Sdb/Arena/Pick.antt =====
-- sdhs/Sdb.h, the arenas of a thread: the same table and the same pick as in allocators/u_arena.c.
use lmalloc.Common.{
  ℕ, zero, suc, ◌+◌, ◌≡◌, ◌≢◌, ◌<◌, refl, ap, ◌∙◌, List, [], ◌∷◌, some, arith, get_elem?,
  Option-cases, inl, inr,
}
use lmalloc.UArena.Scratch.{ThreadArenas, ua_scratch_pick, first_differing, differs}
use lmalloc.UArena.Scratch.Pick.{scratch_pick-two_conflicts}
use lmalloc.Sdb.Arena.{
  SdbArena, SdbThreadArenas, any_other, other_from, sdb_scratch_pick, sdb_scratch_get, begin_picked,
  sdb_scratch_begin,
}

abbrev pub as_sdb_table : ThreadArenas → SdbThreadArenas
as_sdb_table tas = record { arenas = tas.uas; count = tas.count; max_count = tas.max_count }

any_other-differs : (a : ℕ) (cs : List ℕ) → any_other a cs ≡ differs a cs
unfolding any_other differs
any_other-differs a [] = refl
any_other-differs a (c ∷ cs) = ground (arith, any_other-differs a cs)

other_from-first :
    (arenas cs : List ℕ) (left i : ℕ)
    → other_from arenas cs left i ≡ first_differing arenas cs left i
unfolding other_from first_differing
other_from-first arenas cs zero i = refl
other_from-first arenas cs (suc left) i =
    let rest = other_from-first arenas cs left (i + 1) in
    elim (Option-cases (get_elem? arenas i)) [
      | inl out ↦ ground arith
      | inr (a, here) ↦ let same = any_other-differs a cs in ground (arith, rest, same)
    ]

-- Sdb__ScratchGet__ picks the arena that ua__scratch_get__ picks from the same table, for all conflicts.
pub sdb_scratch_pick-ua_scratch_pick :
    (conflicts : List ℕ) (tas : ThreadArenas)
    → sdb_scratch_pick conflicts (as_sdb_table tas) ≡ ua_scratch_pick conflicts tas
unfolding sdb_scratch_pick ua_scratch_pick
sdb_scratch_pick-ua_scratch_pick conflicts tas =
    let e = other_from-first tas.uas conflicts tas.count 0 in ground arith

-- With two different conflicts in front the first arena of the table is picked and used, though it may be a conflict itself.
pub sdb_scratch_get-conflict :
    (st : ℕ → SdbArena) (tas : ThreadArenas) (c d : ℕ) (rest : List ℕ)
    → c ≢ d
    → 0 < tas.count
    → get_elem? tas.uas 0 ≡ some c
    → c ≢ 0
    → sdb_scratch_get st (c ∷ d ∷ rest) (as_sdb_table tas)
      ≡ some (record { arena = c; f5 = (st c).cur })
unfolding sdb_scratch_get begin_picked sdb_scratch_begin
sdb_scratch_get-conflict st tas c d rest ne pos e nonnull =
    ap (begin_picked st) (
      sdb_scratch_pick-ua_scratch_pick (c ∷ d ∷ rest) tas
      ∙ scratch_pick-two_conflicts tas c d c rest ne pos e)
    ∙ ground arith
