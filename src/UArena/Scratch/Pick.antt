-- ===== src/UArena/Scratch/Pick.antt =====
-- src/allocators/u_arena.c, ua__thread_arenas_add__ and ua__scratch_get__: which arena is picked.
use lmalloc.Common.{
  ℕ, zero, suc, ◌+◌, ◌≤◌, ◌<◌, ◌≡◌, ◌≢◌, ◌⊎◌, List, [], ◌∷◌, none, some, arith, length, get_elem?,
  length-set, get_elem?-set_self, inl, inr, Bool-cases, Option-cases, ◌==◌,
}
use lmalloc.UArena.Scratch.{
  ThreadArenas, ua_thread_arenas_add, differs, first_differing, ua_scratch_pick,
}

-- The table's buffer has room for `max_count` arenas and its first `count` are set.
pub record IsValid (tas : ThreadArenas) : Type 0 where
  pub buffer : tas.max_count ≤ length tas.uas
  pub counted : tas.count ≤ tas.max_count

-- `ua__thread_arenas_add__` keeps the table valid. It answers 0 exactly when there is room, and then
-- the arena stands behind those that were there; else it answers 1 and changes nothing.
pub thread_arenas_add_lem :
    {tas : ThreadArenas} (a : ℕ)
    → IsValid tas
    → let (ret, tas') = ua_thread_arenas_add a tas in
      IsValid tas'
      × (((tas.count < tas.max_count)
            × (ret ≡ 0)
            × (tas'.count ≡ tas.count + 1)
            × (get_elem? tas'.uas tas.count ≡ some a))
          ⊎ ((tas.count ≡ tas.max_count) × (ret ≡ 1) × (tas' ≡ tas)))
unfolding ua_thread_arenas_add
thread_arenas_add_lem {tas} a v =
    ground (arith, length-set tas.uas tas.count a, get_elem?-set_self tas.uas tas.count a)

-- With one conflict the arena that is picked is another one, or none is left: NULL.
first_differing-one :
    (uas : List ℕ) (c left i a : ℕ)
    → first_differing uas (c ∷ []) left i ≡ some a
    → (a ≢ c) ⊎ (a ≡ 0)
unfolding first_differing differs
first_differing-one uas c zero i a e = ground arith
first_differing-one uas c (suc left) i a e =
    ground (arith, first_differing-one uas c left (i + 1) a)

get_elem?-some : {A : Type 0} (xs : List A) (i : ℕ) → i < length xs → get_elem? xs i ≢ none
get_elem?-some [] i h = absurd (omega arith)
get_elem?-some (x ∷ xs) zero h = λ e. cc
get_elem?-some (x ∷ xs) (suc i) h = get_elem?-some xs i (omega arith)

-- From index `i` on, the loop finds an arena if there is one to find.
first_differing-finds :
    (uas : List ℕ) (c left i k b : ℕ)
    → i + left ≤ length uas
    → i ≤ k
    → k < i + left
    → get_elem? uas k ≡ some b
    → b ≢ c
    → (a : ℕ) × (first_differing uas (c ∷ []) left i ≡ some a) × (a ≢ c)
unfolding first_differing differs
first_differing-finds uas c zero i k b fit lo hi e ne = absurd (omega arith)
first_differing-finds uas c (suc left) i k b fit lo hi e ne =
    elim (Option-cases (get_elem? uas i)) [
      | inl out ↦ absurd (get_elem?-some uas i (omega arith) out)
      | inr (a, here) ↦ elim (Bool-cases (a == c)) [
        | inr other ↦ (a, ground arith, ground arith)
        | inl same ↦
            let (a', found, other) =
              first_differing-finds uas c left (i + 1) k b (omega arith) (ground arith)
                (omega arith) e ne in
            (a', ground arith, other)
      ]
    ]

-- With one conflict and a valid table, what is picked is not the conflict or is NULL, and an
-- arena other than the conflict is picked whenever one is registered.
pub scratch_pick-one_conflict :
    {tas : ThreadArenas} (c : ℕ)
    → IsValid tas
    → ((a : ℕ) → ua_scratch_pick (c ∷ []) tas ≡ some a → (a ≢ c) ⊎ (a ≡ 0))
      × ((k b : ℕ)
          → k < tas.count
          → get_elem? tas.uas k ≡ some b
          → b ≢ c
          → (a : ℕ) × (ua_scratch_pick (c ∷ []) tas ≡ some a) × (a ≢ c))
unfolding ua_scratch_pick
scratch_pick-one_conflict {tas} c v = (
  λ a e. first_differing-one tas.uas c tas.count 0 a e,
  λ k b lt e ne.
      first_differing-finds tas.uas c tas.count 0 k b (omega arith) (omega arith) (omega arith) e
        ne,
)

first_differing-two :
    (uas : List ℕ) (c d a left i : ℕ) (rest : List ℕ)
    → c ≢ d
    → 0 < left
    → get_elem? uas i ≡ some a
    → first_differing uas (c ∷ d ∷ rest) left i ≡ some a
unfolding first_differing differs
first_differing-two uas c d a zero i rest ne pos e = absurd (omega arith)
first_differing-two uas c d a (suc left) i rest ne pos e = ground arith

-- With two different conflicts in front of any others the first registered arena is picked, also
-- when it is one of them.
pub scratch_pick-two_conflicts :
    (tas : ThreadArenas) (c d a : ℕ) (rest : List ℕ)
    → c ≢ d
    → 0 < tas.count
    → get_elem? tas.uas 0 ≡ some a
    → ua_scratch_pick (c ∷ d ∷ rest) tas ≡ some a
unfolding ua_scratch_pick
scratch_pick-two_conflicts tas c d a rest ne pos e =
    ground (arith, first_differing-two tas.uas c d a tas.count 0 rest)
