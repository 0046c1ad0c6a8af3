-- ===== src/Lm/MemSize.antt =====
-- lm.h, lm_mem_sz_from_string: a size in bytes from its text, such as 64kB.
pub mod Reads
use lmalloc.Common.{
  ℕ, ◌*◌, ◌%◌, Bool, true, false, Option, none, some, List, [], ◌∷◌, ◌==◌, ◌&&◌, not, if◌then◌else◌,
  CString, skip_spaces, strtoull, word_mod,
}

-- The switch, at the byte `c` behind the number with `rest` behind it; `none` where it returns 0.
unfoldable pub multiplier : ℕ → CString → Option ℕ
multiplier c rest =
    if c == b'T'
    then some (1000 * 1000 * 1000 * 1000)
    else if c == b't'
    then some (1024 * 1024 * 1024 * 1024)
    else if c == b'G'
    then some (1000 * 1000 * 1000)
    else if c == b'g'
    then some (1024 * 1024 * 1024)
    else if c == b'M'
    then some (1000 * 1000)
    else if c == b'm'
    then some (1024 * 1024)
    else if c == b'K'
    then some 1000
    else if c == b'k'
    then some 1024
    else if c == b'B'
    then elim rest [ [] ↦ some 1 | ◌∷◌ _ _ ↦ none ]
    else none

-- `end_ptr[1] == 'B' && end_ptr[2] == '\0'`
unfoldable pub is_just_b : CString → Bool
is_just_b [] = false
is_just_b (c ∷ []) = c == b'B'
is_just_b (c ∷ d ∷ s) = false

-- The test of the letter behind the unit, and the product, which wraps.
unfoldable pub scaled : ℕ → ℕ → CString → Option ℕ → ℕ
unfolding is_just_b
scaled value c rest none = 0
scaled value c rest (some m) =
    if not (c == b'B') && not (is_just_b rest) then 0 else (value * m) % word_mod

unfoldable pub with_unit : ℕ → CString → ℕ
unfolding multiplier scaled
with_unit value [] = value
with_unit value (c ∷ rest) = scaled value c rest (multiplier c rest)

unfoldable pub with_number : Option (ℕ × CString) → ℕ
unfolding with_unit
with_number none = 0
with_number (some (value, rest)) = with_unit value (skip_spaces rest)

-- NULL is `none`.
unfoldable pub lm_mem_sz_from_string : Option CString → ℕ
unfolding with_number
lm_mem_sz_from_string none = 0
lm_mem_sz_from_string (some []) = 0
lm_mem_sz_from_string (some (c ∷ s)) = with_number (strtoull (c ∷ s))
