-- ===== src/Sdb/Rng.antt =====
-- sdhs/Sdb.h, SdbRandPCG: the generator over its 32-bit state.
use Prim.Native.Nat.{bit_xor}
use lmalloc.Common.{
  ℕ, zero, suc, ◌+◌, ◌*◌, ◌/◌, ◌%◌, ◌^◌, ◌-◌, ◌<◌, ◌≡◌, sym, ap, ◌∙◌, arith, List, [], ◌∷◌,
}

-- The state after a call: `State * 747796405u + 2891336453u`
pcg_next : ℕ → ℕ
pcg_next state = (state * 747_796_405 + 2_891_336_453) % 2 ^ 32

pcg_next-lt : (state : ℕ) → pcg_next state < 2 ^ 32
unfolding pcg_next
pcg_next-lt state = omega arith

-- The number that a call answers, from the state before it.
pcg_output : ℕ → ℕ
pcg_output state =
    let word = (bit_xor (state / 2 ^ (state / 2 ^ 28 + 4)) state * 277_803_737) % 2 ^ 32 in
    bit_xor (word / 2 ^ 22) word

unfoldable pub sdb_rand_pcg : ℕ → ℕ × ℕ
unfolding pcg_next pcg_output
sdb_rand_pcg state = (pcg_output state, pcg_next state)

unfoldable pub sdb_seed_rand_pcg : ℕ → ℕ → ℕ
sdb_seed_rand_pcg seed state = seed

-- The state before the one that is given.
pcg_previous : ℕ → ℕ
pcg_previous state = ((state + 2 ^ 32 - 2_891_336_453) * 3_425_435_293) % 2 ^ 32

previous-next : (state : ℕ) → state < 2 ^ 32 → pcg_previous (pcg_next state) ≡ state
unfolding pcg_next pcg_previous
previous-next state small = omega arith

-- The numbers that so many calls answer, and the state behind them.
unfoldable pub rand_run : ℕ → ℕ → List ℕ × ℕ
unfolding sdb_rand_pcg
rand_run zero state = ([], state)
rand_run (suc n) state =
    let (x, next) = sdb_rand_pcg state in let (xs, last) = rand_run n next in (x ∷ xs, last)

-- Two runs of equally many calls that end in the same state started from the same 32-bit seed: no two seeds ever come to
-- run through the same states.
pub rand_run-injective :
    (n a b : ℕ) → a < 2 ^ 32 → b < 2 ^ 32 → (rand_run n a).1 ≡ (rand_run n b).1 → a ≡ b
unfolding rand_run sdb_rand_pcg
rand_run-injective zero a b la lb e = e
rand_run-injective (suc n) a b la lb e =
    let same = rand_run-injective n (pcg_next a) (pcg_next b) (pcg_next-lt a) (pcg_next-lt b) e in
    sym (previous-next a la) ∙ ap pcg_previous same ∙ previous-next b lb
