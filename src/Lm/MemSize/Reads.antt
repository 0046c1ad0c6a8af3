-- ===== src/Lm/MemSize/Reads.antt =====
-- lm.h, lm_mem_sz_from_string: what each well-formed text reads as, and what is refused.
use lmalloc.Common.{
  ℕ, ◌*◌, ◌%◌, ◌<◌, ◌≡◌, ◌≢◌, refl, ap, ◌∙◌, inl, inr, true, false, some, [], ◌∷◌, ◌++◌, arith,
  ◌==◌, CString, codes, skip_spaces, strtoull, word_mod, AllDigits, AllSpaces, EndsDigits, decimal,
  saturate, saturate-word, strtoull-word, strtoull-digits, skip_spaces-append, skip_spaces-splits,
  subst, Bool-cases, Option-cases,
}
use mathlib.Core.Option.{some-injective}
use lmalloc.Lm.MemSize.{
  multiplier, is_just_b, scaled, with_unit, with_number, lm_mem_sz_from_string,
}

-- The units, and how many bytes each stands for.
pub data SizeUnit : CString → ℕ → Type 0 where
  no_unit : SizeUnit [] 1
  bytes : SizeUnit (codes "B") 1
  kilo : SizeUnit (codes "KB") 1000
  kibi : SizeUnit (codes "kB") 1024
  mega : SizeUnit (codes "MB") (1000 * 1000)
  mebi : SizeUnit (codes "mB") (1024 * 1024)
  giga : SizeUnit (codes "GB") (1000 * 1000 * 1000)
  gibi : SizeUnit (codes "gB") (1024 * 1024 * 1024)
  tera : SizeUnit (codes "TB") (1000 * 1000 * 1000 * 1000)
  tebi : SizeUnit (codes "tB") (1024 * 1024 * 1024 * 1024)

-- A size with the wrap-around is itself when it is a word.
with_unit-SizeUnit :
    (value m : ℕ) {u : CString}
    → value < word_mod
    → SizeUnit u m
    → with_unit value (skip_spaces u) ≡ (value * m) % word_mod
unfolding with_unit multiplier scaled skip_spaces is_just_b
with_unit-SizeUnit value m small no_unit = omega arith
with_unit-SizeUnit value m small bytes = refl
with_unit-SizeUnit value m small kilo = refl
with_unit-SizeUnit value m small kibi = refl
with_unit-SizeUnit value m small mega = refl
with_unit-SizeUnit value m small mebi = refl
with_unit-SizeUnit value m small giga = refl
with_unit-SizeUnit value m small gibi = refl
with_unit-SizeUnit value m small tera = refl
with_unit-SizeUnit value m small tebi = refl

SizeUnit-EndsDigits : {u : CString} (m : ℕ) → SizeUnit u m → EndsDigits u
SizeUnit-EndsDigits m no_unit = tt
SizeUnit-EndsDigits m bytes = refl
SizeUnit-EndsDigits m kilo = refl
SizeUnit-EndsDigits m kibi = refl
SizeUnit-EndsDigits m mega = refl
SizeUnit-EndsDigits m mebi = refl
SizeUnit-EndsDigits m giga = refl
SizeUnit-EndsDigits m gibi = refl
SizeUnit-EndsDigits m tera = refl
SizeUnit-EndsDigits m tebi = refl

spaces-EndsDigits : (ws u : CString) → AllSpaces ws → EndsDigits u → EndsDigits (ws ++ u)
spaces-EndsDigits [] u h e = e
spaces-EndsDigits (c ∷ ws) u (h, _) e = ground arith

-- A text of digits, spaces and one of the units reads as the number of the digits times the unit, both as
-- 64-bit words: a number above the greatest word counts as that word, and the product wraps around.
pub mem_sz_reads :
    (c : ℕ) (ds ws u : CString) (m : ℕ)
    → AllDigits (c ∷ ds)
    → AllSpaces ws
    → SizeUnit u m
    → lm_mem_sz_from_string (some ((c ∷ ds) ++ (ws ++ u)))
      ≡ (saturate false (decimal (c ∷ ds) 0) * m) % word_mod
unfolding lm_mem_sz_from_string with_number
mem_sz_reads c ds ws u m digits spaces unit =
    let value = saturate false (decimal (c ∷ ds) 0) in
    ap with_number (
      strtoull-digits c ds (ws ++ u) digits
        (spaces-EndsDigits ws u spaces (SizeUnit-EndsDigits m unit)))
    ∙ ap (with_unit value) (skip_spaces-append ws u spaces)
    ∙ with_unit-SizeUnit value m (saturate-word false (decimal (c ∷ ds) 0)) unit

-- A letter and a B, when the tests have found them.
unit_text :
    (c k : ℕ) (rest : CString) → (c == k) ≡ true → is_just_b rest ≡ true → k ∷ codes "B" ≡ c ∷ rest
unfolding is_just_b
unit_text c k [] e b = cc
unit_text c k (d ∷ []) e b =
    let ec : k ≡ c = ground arith in let ed : b'B' ≡ d = ground arith in cc (ec, ed)
unit_text c k (d ∷ f ∷ s) e b = cc

-- A letter that the switch knows, with a B behind it, is a unit.
letter-SizeUnit :
    (c k m n : ℕ) (rest : CString)
    → SizeUnit (k ∷ codes "B") n
    → (c == k) ≡ true
    → is_just_b rest ≡ true
    → some n ≡ some m
    → SizeUnit (c ∷ rest) m
letter-SizeUnit c k m n rest unit e b same =
    let at_text = subst (λ t. SizeUnit t n) (unit_text c k rest e b) unit in
    subst (λ j. SizeUnit (c ∷ rest) j) (some-injective _ _ same) at_text

multiplier-SizeUnit :
    (c m : ℕ) (rest : CString)
    → multiplier c rest ≡ some m
    → is_just_b rest ≡ true
    → SizeUnit (c ∷ rest) m
unfolding multiplier is_just_b
multiplier-SizeUnit c m [] e b = absurd (ground arith)
multiplier-SizeUnit c m (d ∷ rest) e b = elim (Bool-cases (c == b'T')) [
  | inl is ↦ letter-SizeUnit c b'T' m _ (d ∷ rest) tera is b (ground arith)
  | inr not0 ↦ elim (Bool-cases (c == b't')) [
    | inl is ↦ letter-SizeUnit c b't' m _ (d ∷ rest) tebi is b (ground arith)
    | inr not1 ↦ elim (Bool-cases (c == b'G')) [
      | inl is ↦ letter-SizeUnit c b'G' m _ (d ∷ rest) giga is b (ground arith)
      | inr not2 ↦ elim (Bool-cases (c == b'g')) [
        | inl is ↦ letter-SizeUnit c b'g' m _ (d ∷ rest) gibi is b (ground arith)
        | inr not3 ↦ elim (Bool-cases (c == b'M')) [
          | inl is ↦ letter-SizeUnit c b'M' m _ (d ∷ rest) mega is b (ground arith)
          | inr not4 ↦ elim (Bool-cases (c == b'm')) [
            | inl is ↦ letter-SizeUnit c b'm' m _ (d ∷ rest) mebi is b (ground arith)
            | inr not5 ↦ elim (Bool-cases (c == b'K')) [
              | inl is ↦ letter-SizeUnit c b'K' m _ (d ∷ rest) kilo is b (ground arith)
              | inr not6 ↦ elim (Bool-cases (c == b'k')) [
                | inl is ↦ letter-SizeUnit c b'k' m _ (d ∷ rest) kibi is b (ground arith)
                | inr not7 ↦ absurd (ground arith)
              ]
            ]
          ]
        ]
      ]
    ]
  ]
]

plain_b :
    (c m : ℕ) (rest : CString)
    → (c == b'B') ≡ true
    → multiplier c rest ≡ some m
    → SizeUnit (c ∷ rest) m
unfolding multiplier
plain_b c m [] is e =
    let same : b'B' ≡ c = ground arith in
    let one : some 1 ≡ some m = ground arith in
    subst (λ k. SizeUnit (k ∷ []) m) same
      (subst (SizeUnit (codes "B")) (some-injective _ _ one) bytes)
plain_b c m (d ∷ rest) is e = absurd (ground arith)

with_unit-nonzero :
    (value : ℕ) (s : CString)
    → value < word_mod
    → with_unit value s ≢ 0
    → (m : ℕ) × SizeUnit s m × (with_unit value s ≡ (value * m) % word_mod)
unfolding with_unit scaled
with_unit-nonzero value [] small h = (1, no_unit, omega arith)
with_unit-nonzero value (c ∷ rest) small h = elim (Option-cases (multiplier c rest)) [
  | inl out ↦ absurd (h (rw out refl))
  | inr (m, e) ↦ elim (Bool-cases (is_just_b rest)) [
    | inl just ↦ (m, multiplier-SizeUnit c m rest e just, ground arith)
    | inr other ↦ elim (Bool-cases (c == b'B')) [
      | inl is ↦ (m, plain_b c m rest is e, ground arith)
      | inr letter ↦ absurd (h (ground arith))
    ]
  ]
]

-- A text that does not read as 0 has a number in front, as strtoull reads it; behind it stand spaces and
-- one of the units and nothing else, and the result is the number times the unit, wrapped around.
pub mem_sz-nonzero :
    (s : CString)
    → lm_mem_sz_from_string (some s) ≢ 0
    → (value : ℕ) × (rest ws u : CString) × (m : ℕ) × (strtoull s ≡ some (value, rest))
      × AllSpaces ws
      × (rest ≡ ws ++ u)
      × SizeUnit u m
      × (lm_mem_sz_from_string (some s) ≡ (value * m) % word_mod)
unfolding lm_mem_sz_from_string with_number
mem_sz-nonzero [] h = absurd (h refl)
mem_sz-nonzero (c ∷ s) h = elim (Option-cases (strtoull (c ∷ s))) [
  | inl out ↦ absurd (h (rw out refl))
  | inr ((value, rest), e) ↦
      let (ws, spaces, splits) = skip_spaces-splits rest in
      let (m, unit, is) =
        with_unit-nonzero value (skip_spaces rest) (strtoull-word (c ∷ s) e) (rw e at h) in
      (value, rest, ws, skip_spaces rest, m, e, spaces, splits, unit, rw e is)
]
