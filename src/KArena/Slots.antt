-- ===== src/KArena/Slots.antt =====
-- src/modules/karena/karena.c, find_open_slot, and writes to a slot of the table.
use lmalloc.Common.{
  ℕ, zero, suc, ◌+◌, ◌<◌, ◌≡◌, ◌≢◌, ◌⊎◌, refl, inl, inr, ap, List, [], ◌∷◌, none, some, arith,
  get_elem?, length, ◌==◌, Bool-cases, Option-cases, false,
}
use mathlib.Core.Option.{some-injective}
use mathlib.Core.Path.{subst}
use lmalloc.KArena.{KArena, update, open_slot_from, find_open_slot, mark_slot}

pub length-update :
    (ks : List KArena) (i : ℕ) (f : KArena → KArena) → length (update ks i f) ≡ length ks
unfolding update
length-update [] i f = refl
length-update (a ∷ r) zero f = refl
length-update (a ∷ r) (suc i) f = ap suc (length-update r i f)

pub get_elem?-update_self :
    (ks : List KArena) (i : ℕ) (f : KArena → KArena) (a : KArena)
    → get_elem? ks i ≡ some a
    → get_elem? (update ks i f) i ≡ some (f a)
unfolding update
get_elem?-update_self [] i f a h = cc
get_elem?-update_self (b ∷ r) zero f a h = ap (λ x. some (f x)) (some-injective b a h)
get_elem?-update_self (b ∷ r) (suc i) f a h = get_elem?-update_self r i f a h

pub get_elem?-update_ne :
    (ks : List KArena) (i j : ℕ) (f : KArena → KArena)
    → i ≢ j
    → get_elem? (update ks i f) j ≡ get_elem? ks j
unfolding update
get_elem?-update_ne [] i j f h = refl
get_elem?-update_ne (b ∷ r) zero zero f h = absurd (h refl)
get_elem?-update_ne (b ∷ r) zero (suc j) f h = refl
get_elem?-update_ne (b ∷ r) (suc i) zero f h = refl
get_elem?-update_ne (b ∷ r) (suc i) (suc j) f h = get_elem?-update_ne r i j f (λ e. h (ap suc e))

-- The slot `j` places behind index `i` is the first open one.
pub record FirstOpen (ks : List KArena) (j : ℕ) : Type 0 where
  pub slot : KArena
  pub there : get_elem? ks j ≡ some slot
  pub is_open : slot.uaddr ≡ 0
  pub first : (l : ℕ) (b : KArena) → l < j → get_elem? ks l ≡ some b → b.uaddr ≢ 0

open_slot_from-some :
    (ks : List KArena) (i r : ℕ)
    → open_slot_from ks i ≡ some r
    → (j : ℕ) × (r ≡ i + j) × FirstOpen ks j
unfolding open_slot_from
open_slot_from-some [] i r h = cc
open_slot_from-some (a ∷ ks) i r h = elim (Bool-cases (a.uaddr == 0)) [
  | inl zero_addr ↦ (
    0,
    ground arith,
    record {
      slot = a;
      there = refl;
      is_open = ground arith;
      first = λ l b lt e. absurd (omega arith);
    },
  )
  | inr taken ↦
      let (j, e, f) = open_slot_from-some ks (i + 1) r (ground arith) in
      (
        suc j,
        omega arith,
        record {
          slot = f.slot;
          there = f.there;
          is_open = f.is_open;
          first = first_cons a ks j taken f.first;
        },
      )
]
  where
    first_cons :
        (a : KArena) (ks : List KArena) (j : ℕ)
        → (a.uaddr == 0) ≡ false
        → ((l : ℕ) (b : KArena) → l < j → get_elem? ks l ≡ some b → b.uaddr ≢ 0)
        → (l : ℕ) (b : KArena) → l < suc j
        → get_elem? (a ∷ ks) l ≡ some b
        → b.uaddr ≢ 0
    first_cons a ks j taken f zero b lt e = ground arith
    first_cons a ks j taken f (suc l) b lt e = f l b (omega arith) e

open_slot_from-none :
    (ks : List KArena) (i : ℕ)
    → open_slot_from ks i ≡ none
    → (l : ℕ) (b : KArena) → get_elem? ks l ≡ some b
    → b.uaddr ≢ 0
unfolding open_slot_from
open_slot_from-none [] i h l b e = cc
open_slot_from-none (a ∷ ks) i h zero b e = ground arith
open_slot_from-none (a ∷ ks) i h (suc l) b e = open_slot_from-none ks (i + 1) (ground arith) l b e

-- `find_open_slot` answers the first slot whose address is 0 and changes only that slot's
-- address, to 1; or it answers -1 and changes nothing, and then every slot is taken.
pub find_open_slot_lem :
    (ks : List KArena)
    → ((j : ℕ) × (find_open_slot ks ≡ (some j, update ks j (λ a. record a { uaddr = 1 })))
        × FirstOpen ks j)
      ⊎ ((find_open_slot ks ≡ (none, ks))
          × ((l : ℕ) (b : KArena) → get_elem? ks l ≡ some b → b.uaddr ≢ 0))
unfolding find_open_slot
find_open_slot_lem ks = elim (Option-cases (open_slot_from ks 0)) [
  | inl e ↦ inr (ap (mark_slot ks) e, open_slot_from-none ks 0 e)
  | inr (r, e) ↦
      let (j, offset, f) = open_slot_from-some ks 0 r e in
      let q : j ≡ r = omega arith in inl (r, ap (mark_slot ks) e, subst (FirstOpen ks) q f)
]
