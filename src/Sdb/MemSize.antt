-- ===== src/Sdb/MemSize.antt =====
-- sdhs/Sdb.h, SdbMemSizeFromString: the same as lm_mem_sz_from_string of lm.h.
use lmalloc.Common.{
  ℕ, ◌*◌, ◌%◌, ◌≡◌, refl, Option, none, some, [], ◌∷◌, ◌==◌, ◌&&◌, ◌||◌, not, if◌then◌else◌, arith,
  CString, skip_spaces, strtoull, word_mod, inl, inr, Option-cases, ap, sym, ◌∙◌, NoNul,
  NoNul-skip_spaces, NoNul-strtoull,
}
use lmalloc.Lm.MemSize.{
  lm_mem_sz_from_string, with_unit, scaled, multiplier, is_just_b, with_number,
}

-- `EndPtr[i]`, a NUL at the end and the reads stopping there.
char_at : CString → ℕ
char_at [] = 0
char_at (c ∷ s) = c

next : CString → CString
next [] = []
next (c ∷ s) = s

-- The switch at `EndPtr`; `none` where it returns 0.
sdb_multiplier : CString → Option ℕ
unfolding char_at next
sdb_multiplier end' =
    let c = char_at end' in
    if c == b'T'
    then some (1000 * 1000 * 1000 * 1000)
    else if c == b't'
    then some (1024 * 1024 * 1024 * 1024)
    else if c == b'G'
    then some (1000 * 1000 * 1000)
    else if c == b'g'
    then some (1024 * 1024 * 1024)
    else if c == b'M'
    then some (1000 * 1000)
    else if c == b'm'
    then some (1024 * 1024)
    else if c == b'K'
    then some 1000
    else if c == b'k'
    then some 1024
    else if c == b'B'
    then if not (char_at (next end') == 0) then none else some 1
    else none

-- The test behind the switch, and the product, which wraps.
sdb_product : ℕ → CString → Option ℕ → ℕ
unfolding char_at next
sdb_product value end' none = 0
sdb_product value end' (some m) =
    if not (char_at end' == b'B')
      && (not (char_at (next end') == b'B') || not (char_at (next (next end')) == 0))
    then 0
    else (value * m) % word_mod

sdb_sized_at : ℕ → CString → ℕ
unfolding sdb_multiplier sdb_product char_at
sdb_sized_at value end' =
    if char_at end' == 0 then value else sdb_product value end' (sdb_multiplier end')

sdb_sized : Option (ℕ × CString) → ℕ
unfolding sdb_sized_at
sdb_sized none = 0
sdb_sized (some (value, rest)) = sdb_sized_at value (skip_spaces rest)

-- NULL is `none`.
unfoldable pub sdb_mem_size_from_string : Option CString → ℕ
unfolding sdb_sized
sdb_mem_size_from_string none = 0
sdb_mem_size_from_string (some []) = 0
sdb_mem_size_from_string (some (c ∷ s)) = sdb_sized (strtoull (c ∷ s))

multiplier-multiplier : (c : ℕ) (s : CString) → NoNul s → sdb_multiplier (c ∷ s) ≡ multiplier c s
unfolding sdb_multiplier multiplier char_at next
multiplier-multiplier c [] h = refl
multiplier-multiplier c (d ∷ s) (nz, h) = ground arith

product-scaled :
    (value c : ℕ) (s : CString) (m : Option ℕ)
    → NoNul s
    → sdb_product value (c ∷ s) m ≡ scaled value c s m
unfolding sdb_product scaled is_just_b char_at next
product-scaled value c s none h = refl
product-scaled value c [] (some m) h = ground arith
product-scaled value c (d ∷ []) (some m) h = ground arith
product-scaled value c (d ∷ e ∷ s) (some m) (nd, (ne, h)) = ground arith

sized-with_unit : (value : ℕ) (s : CString) → NoNul s → sdb_sized_at value s ≡ with_unit value s
unfolding sdb_sized_at with_unit char_at
sized-with_unit value [] h = refl
sized-with_unit value (c ∷ s) (nz, h) =
    let step : sdb_sized_at value (c ∷ s) ≡ sdb_product value (c ∷ s) (sdb_multiplier (c ∷ s)) =
      ground arith in
    step
    ∙ ap (sdb_product value (c ∷ s)) (multiplier-multiplier c s h)
    ∙ product-scaled value c s (multiplier c s) h

-- SdbMemSizeFromString reads every text as lm_mem_sz_from_string does, also where it is refused.
pub sdb_mem_size-lm_mem_sz :
    (s : CString) → NoNul s → sdb_mem_size_from_string (some s) ≡ lm_mem_sz_from_string (some s)
unfolding sdb_mem_size_from_string lm_mem_sz_from_string sdb_sized with_number
sdb_mem_size-lm_mem_sz [] h = refl
sdb_mem_size-lm_mem_sz (c ∷ s) h = elim (Option-cases (strtoull (c ∷ s))) [
  | inl out ↦ ap sdb_sized out ∙ sym (ap with_number out)
  | inr ((value, rest), e) ↦
      ap sdb_sized e
      ∙ sized-with_unit value (skip_spaces rest)
          (NoNul-skip_spaces rest (NoNul-strtoull (c ∷ s) e h))
      ∙ sym (ap with_number e)
]
