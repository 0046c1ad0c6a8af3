-- ===== src/ThreadGroup/Starting.antt =====
-- src/sdhs/Common/ThreadGroup.c, TgStartGroup: what runs after a start, and after a start that failed.
use mathlib.Core.Option.{some-injective}
use lmalloc.Common.{
  ℕ, zero, suc, ◌+◌, ◌≤◌, ◌<◌, ◌≡◌, ◌≢◌, ◌⊎◌, inl, inr, sym, ap, ◌∙◌, arith, true, false,
  Bool-cases, List, [], ◌∷◌, none, some, Option-cases, ◌==◌, refl, length, get_elem?,
}
use lmalloc.ThreadGroup.{
  TgGroup, SdbErrno, success, minus, first_failure, below, Start, end_start, tg_start_group,
  tg_manager_start_all, then_start,
}

first_failure-none :
    (create : ℕ → ℕ) (left i : ℕ)
    → first_failure create left i ≡ none
    → (j : ℕ) → i ≤ j
    → j < i + left
    → create j ≡ 0
unfolding first_failure
first_failure-none create zero i e j lo hi = absurd (omega arith)
first_failure-none create (suc left) i e j lo hi = elim (Bool-cases (create i == 0)) [
  | inr bad ↦ absurd (ground arith)
  | inl ok ↦ elim (Bool-cases (i == j)) [
    | inl here ↦
        let q : i ≡ j = ground arith in let z : create i ≡ 0 = ground arith in sym (ap create q) ∙ z
    | inr later ↦
        first_failure-none create left (i + 1) (ground arith) j (ground arith) (omega arith)
  ]
]

first_failure-some :
    (create : ℕ → ℕ) (left i k err : ℕ)
    → first_failure create left i ≡ some (k, err)
    → (i ≤ k)
      × (k < i + left)
      × (create k ≡ err)
      × (err ≢ 0)
      × ((j : ℕ) → i ≤ j → j < k → create j ≡ 0)
unfolding first_failure
first_failure-some create zero i k err e = absurd (cc)
first_failure-some create (suc left) i k err e = elim (Bool-cases (create i == 0)) [
  | inr bad ↦ ground arith
  | inl ok ↦
      let (lo, hi, val, ne, before) = first_failure-some create left (i + 1) k err (ground arith) in
      (
        omega arith,
        omega arith,
        val,
        ne,
        λ j lo' hi'. elim (Bool-cases (i == j)) [
          | inl here ↦
              let q : i ≡ j = ground arith in
              let z : create i ≡ 0 = ground arith in sym (ap create q) ∙ z
          | inr later ↦ before j (ground arith) hi'
        ],
      )
]

-- A start leaves one of three behind: every thread and the monitor run and 0 is returned; or the
-- thread `i` was the first that could not be started, and then those before it were joined, the
-- cleanup was called if there is one, and the error is returned; or only the monitor could not be
-- started, and then the error is returned while all threads run, with nothing joined or cleaned
-- up.
pub tg_start_group_lem :
    (create : ℕ → ℕ) (monitor : ℕ) (g : TgGroup)
    → let s = tg_start_group create monitor g in
      (((j : ℕ) → j < g.thread_count → create j ≡ 0)
        × (s.started ≡ below g.thread_count)
        × (s.joined ≡ [])
        × (s.cleaned ≡ false)
        × (((monitor ≡ 0) × (s.ret ≡ success) × (s.monitored ≡ true))
            ⊎ ((monitor ≢ 0) × (s.ret ≡ minus monitor) × (s.monitored ≡ false))))
      ⊎ ((i : ℕ) × (i < g.thread_count)
          × (create i ≢ 0)
          × ((j : ℕ) → j < i → create j ≡ 0)
          × (s ≡ record {
            ret = minus (create i);
            started = below i;
            joined = below i;
            cleaned = g.has_cleanup;
            monitored = false;
          }))
unfolding tg_start_group
tg_start_group_lem create monitor g = elim (Option-cases (first_failure create g.thread_count 0)) [
  | inl e ↦ inl (
    (λ j lt. first_failure-none create g.thread_count 0 e j (omega arith) (omega arith)),
    ground (arith, e),
    ground (arith, e),
    ground (arith, e),
    ground (arith, e),
  )
  | inr ((i, err), e) ↦
      let (lo, hi, val, ne, before) = first_failure-some create g.thread_count 0 i err e in
      inr (
        i,
        omega arith,
        ground arith,
        (λ j lt. before j (omega arith) lt),
        ap (end_start g monitor) e ∙ ground (arith, val),
      )
]

-- What the answer of `TgManagerStartAll` says of the starts that were tried.
abbrev pub Tried : SdbErrno → ℕ → List Start → Type 0
Tried success n starts =
    (length starts ≡ n) × ((k : ℕ) (s : Start) → get_elem? starts k ≡ some s → s.monitored ≡ true)
Tried (minus e) n starts =
    (length starts ≤ n)
    × ((k : ℕ) (s : Start)
        → suc k < length starts
        → get_elem? starts k ≡ some s
        → s.monitored ≡ true)

success-monitored :
    (create : ℕ → ℕ) (monitor : ℕ) (g : TgGroup)
    → (tg_start_group create monitor g).ret ≡ success
    → (tg_start_group create monitor g).monitored ≡ true
success-monitored create monitor g e = elim (tg_start_group_lem create monitor g) [
  | inl (all, started, joined, cleaned, inl (m, ret, monitored)) ↦ monitored
  | inl (all, started, joined, cleaned, inr (m, ret, monitored)) ↦ absurd (cc)
  | inr (i, lt, ne, before, q) ↦ absurd (cc (sym (ap (λ (s : Start). s.ret) q) ∙ e))
]

-- One more start in front of those below the bound `bound`.
cons-monitored :
    (s : Start) (starts : List Start) (bound : ℕ)
    → s.monitored ≡ true
    → ((k : ℕ) (s' : Start) → k < bound → get_elem? starts k ≡ some s' → s'.monitored ≡ true)
    → (k : ℕ) (s' : Start) → k < suc bound
    → get_elem? (s ∷ starts) k ≡ some s'
    → s'.monitored ≡ true
cons-monitored s starts bound m f zero s' lt e =
    sym (ap (λ (x : Start). x.monitored) (some-injective s s' e)) ∙ m
cons-monitored s starts bound m f (suc k) s' lt e = f k s' (omega arith) e

then_start-Tried :
    (ret : SdbErrno) (s : Start) (rest : SdbErrno × List Start) (n : ℕ)
    → (ret ≡ success → s.monitored ≡ true)
    → Tried rest.0 n rest.1
    → Tried (then_start ret s rest).0 (suc n) (then_start ret s rest).1
then_start-Tried success s (success, starts) n ok v = (
  omega arith,
  λ k s' e. cons-monitored s starts k (ok refl) (λ l t lt q. v.1 l t q) k s' (omega arith) e,
)
then_start-Tried success s (minus e, starts) n ok v = (
  omega arith,
  λ k s' lt e.
      cons-monitored s starts k (ok refl) (λ l t lt' q. v.1 l t (omega arith) q) k s' (omega arith)
        e,
)
then_start-Tried (minus e) s rest n ok v = (omega arith, λ k s' lt e. absurd (omega arith))

-- The starts that TgManagerStartAll tried: when 0 is returned, there is one for each group and each left its
-- monitor running; when an error is returned, there are at most as many as groups, and each but the last left
-- its monitor running.
pub tg_manager_start_all_lem :
    (groups : List ((ℕ → ℕ) × ℕ × TgGroup))
    → let (ret, starts) = tg_manager_start_all groups in Tried ret (length groups) starts
unfolding tg_manager_start_all
tg_manager_start_all_lem [] = (refl, λ k s e. absurd (cc))
tg_manager_start_all_lem ((create, monitor, g) ∷ groups) =
    then_start-Tried (tg_start_group create monitor g).ret (tg_start_group create monitor g)
      (tg_manager_start_all groups) (length groups) (success-monitored create monitor g)
      (tg_manager_start_all_lem groups)
