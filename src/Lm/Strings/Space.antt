-- ===== src/Lm/Strings/Space.antt =====
-- lm.h, lm_string_make_space: how a string grows in its arena.
use lmalloc.Common.{
  ℕ, ◌+◌, ◌≤◌, ◌<◌, ◌≡◌, refl, ◌⊎◌, inl, inr, none, some, arith, word_mod, ltb, Bool-cases, put,
  add_size,
}
use lmalloc.UArena.{UArena, ua_reserve}
use lmalloc.Lm.Strings.{
  LmWorld, lm_string_make_space, lm_string_len, lm_string_cap, lm_string_space_avail,
  lm_string_set_cap,
}

-- The arena that a string lives in.
abbrev pub home : ℕ → LmWorld → UArena
home string w = w.arenas (w.headers string).ua

-- The header, the text and the NUL behind it lie in the part of the arena that is in use.
pub record IsString (string : ℕ) (w : LmWorld) : Type 0 where
  pub len_le_cap : lm_string_len string w ≤ lm_string_cap string w
  pub above : (home string w).mem + 24 ≤ string
  pub below : string + lm_string_cap string w + 1 ≤ (home string w).mem + (home string w).cur
  pub within : (home string w).cur ≤ (home string w).cap
  pub placed : (home string w).mem + (home string w).cap < word_mod
  pub ended : w.bytes (string + lm_string_len string w) ≡ 0

-- Nothing was allocated behind the string.
abbrev pub IsTop : ℕ → LmWorld → Type 0
IsTop string w = string + lm_string_cap string w + 1 ≡ (home string w).mem + (home string w).cur

-- There is room for `n` more bytes, in the string or behind it.
abbrev pub HasRoom : ℕ → ℕ → LmWorld → Type 0
HasRoom string n w =
    (lm_string_len string w + n ≤ lm_string_cap string w)
    ⊎ ((home string w).cur + n ≤ (home string w).cap)

-- `w'` is `w`, but that the string may be longer.
pub record Grown (string n : ℕ) (w w' : LmWorld) : Type 0 where
  pub is_string : IsString string w'
  pub is_top : IsTop string w'
  pub same_len : lm_string_len string w' ≡ lm_string_len string w
  pub room : lm_string_len string w' + n ≤ lm_string_cap string w'
  pub cap_le : lm_string_cap string w ≤ lm_string_cap string w'
  pub same_bytes : w'.bytes ≡ w.bytes

-- The world after a reservation of `n` bytes that was granted.
grow : ℕ → ℕ → LmWorld → LmWorld
unfolding lm_string_set_cap lm_string_cap
grow string n w =
    let ua = (w.headers string).ua in
    let arena = w.arenas ua in
    lm_string_set_cap string (add_size (lm_string_cap string w) n)
      (record w { arenas = put w.arenas ua (record arena { cur = add_size arena.cur n }) })

make_space-grow :
    {string : ℕ} {w : LmWorld} (n : ℕ)
    → IsString string w
    → lm_string_cap string w < lm_string_len string w + n
    → (home string w).cur + n ≤ (home string w).cap
    → lm_string_make_space string n w ≡ (some string, grow string n w)
unfolding lm_string_make_space lm_string_len lm_string_cap lm_string_space_avail grow ua_reserve
make_space-grow {string} {w} n v full fits = let b = v.below in let l = v.len_le_cap in ground arith

grow-Grown :
    {string : ℕ} {w : LmWorld} (n : ℕ)
    → IsString string w
    → IsTop string w
    → (home string w).cur + n ≤ (home string w).cap
    → Grown string n w (grow string n w)
unfolding lm_string_len lm_string_cap grow lm_string_set_cap
grow-Grown {string} {w} n v top fits = record {
  is_string = record {
    len_le_cap = ground arith;
    above = ground arith;
    below = ground arith;
    within = ground arith;
    placed = ground arith;
    ended = ground arith;
  };
  is_top = ground arith;
  same_len = ground arith;
  room = ground arith;
  cap_le = ground arith;
  same_bytes = refl;
}

pub make_space_lem :
    {string : ℕ} {w : LmWorld} (n : ℕ)
    → IsString string w
    → IsTop string w
    → HasRoom string n w
    → (w' : LmWorld) × (lm_string_make_space string n w ≡ (some string, w')) × Grown string n w w'
unfolding lm_string_make_space lm_string_len lm_string_cap lm_string_space_avail
make_space_lem {string} {w} n v top room =
    elim (Bool-cases (ltb (lm_string_cap string w) (lm_string_len string w + n))) [
      | inl full ↦ (
        grow string n w,
        make_space-grow n v (ground arith) (ground arith),
        grow-Grown n v top (ground arith),
      )
      | inr enough ↦ (
        w,
        let b = v.below in ground arith,
        record {
          is_string = v;
          is_top = top;
          same_len = refl;
          room = ground arith;
          cap_le = omega arith;
          same_bytes = refl;
        },
      )
    ]

-- Without room neither in the string nor behind it, NULL is answered, and headers, bytes and the arena are as
-- before.
pub make_space-null :
    {string : ℕ} {w : LmWorld} (n : ℕ)
    → IsString string w
    → lm_string_cap string w < lm_string_len string w + n
    → (home string w).cap < (home string w).cur + n
    → (home string w).cur + n < word_mod
    → let (r, w') = lm_string_make_space string n w in
      (r ≡ none)
      × (w'.headers ≡ w.headers)
      × (w'.bytes ≡ w.bytes)
      × (home string w' ≡ home string w)
unfolding lm_string_make_space lm_string_len lm_string_cap lm_string_space_avail ua_reserve
make_space-null {string} {w} n v full none_left small =
    let b = v.below in let l = v.len_le_cap in ground arith
