-- ===== src/Common/Text.antt =====
-- C strings, as the bytes in front of the NUL, and what the C library reads off them.
use Prim.Native.Nat.{ℕ, ◌+◌, ◌-◌, ◌*◌, ◌%◌, ◌^◌, ◌<◌}
use Prim.Native.Char.{code}
use Prim.Native.String.{String}
use mathlib.Core.Path.{◌≡◌, refl, ap, subst}
use mathlib.Core.Logic.{inl, inr}
use mathlib.Core.Bool.{Bool, true, false, ◌&&◌, ◌||◌}
use mathlib.Core.List.{List, [], ◌∷◌, ◌++◌}
use mathlib.Core.Option.{Option, none, some}
use native.Mathlib.Omega.{arith}
use lmalloc.Common.Tests.{ltb, leb, ◌==◌, if◌then◌else◌, Bool-cases}

abbrev pub CString : Type 0
CString = List ℕ

abbrev pub codes : String → CString
codes String.[] = []
codes (String.◌∷◌ c s) = code c ∷ codes s

-- `isspace(c)` in the C locale
abbrev pub is_space : ℕ → Bool
is_space c = (c == 32) || (leb 9 c && leb c 13)

abbrev pub is_digit : ℕ → Bool
is_digit c = leb b'0' c && leb c b'9'

unfoldable pub skip_spaces : CString → CString
skip_spaces [] = []
skip_spaces (c ∷ s) = if is_space c then skip_spaces s else c ∷ s

-- The number that the digits in front spell behind `n`, and the rest.
unfoldable pub scan_digits : CString → ℕ → ℕ × CString
scan_digits [] n = (n, [])
scan_digits (c ∷ s) n = if is_digit c then scan_digits s (n * 10 + (c - b'0')) else (n, c ∷ s)

abbrev pub ullong_max : ℕ
ullong_max = 2 ^ 64 - 1

unfoldable pub saturate : Bool → ℕ → ℕ
saturate minus n =
    if ltb ullong_max n then ullong_max else if minus then (2 ^ 64 - n) % 2 ^ 64 else n

abbrev pub saturated : Bool → ℕ × CString → ℕ × CString
saturated minus (n, rest) = (saturate minus n, rest)

unfoldable pub read_unsigned : Bool → CString → Option (ℕ × CString)
unfolding scan_digits
read_unsigned minus [] = none
read_unsigned minus (c ∷ s) =
    if is_digit c then some (saturated minus (scan_digits (c ∷ s) 0)) else none

unfoldable pub read_signed : CString → Option (ℕ × CString)
unfolding read_unsigned
read_signed [] = none
read_signed (c ∷ s) =
    if c == b'-'
    then read_unsigned true s
    else if c == b'+'
    then read_unsigned false s
    else read_unsigned false (c ∷ s)

-- `strtoull(s, &end, 10)`, with the rest of the text at `end`; `none`: there is no number.
unfoldable pub strtoull : CString → Option (ℕ × CString)
unfolding read_signed skip_spaces
strtoull s = read_signed (skip_spaces s)

abbrev pub AllDigits : CString → Type 0
AllDigits [] = Unit {0}
AllDigits (c ∷ s) = (is_digit c ≡ true) × AllDigits s

abbrev pub AllSpaces : CString → Type 0
AllSpaces [] = Unit {0}
AllSpaces (c ∷ s) = (is_space c ≡ true) × AllSpaces s

-- The number that digits spell behind `n`.
abbrev pub decimal : CString → ℕ → ℕ
decimal [] n = n
decimal (c ∷ s) n = decimal s (n * 10 + (c - b'0'))

-- No digit stands in front.
abbrev pub EndsDigits : CString → Type 0
EndsDigits [] = Unit {0}
EndsDigits (c ∷ s) = is_digit c ≡ false

pub scan_digits-append :
    (ds rest : CString) (n : ℕ)
    → AllDigits ds
    → EndsDigits rest
    → scan_digits (ds ++ rest) n ≡ (decimal ds n, rest)
unfolding scan_digits
scan_digits-append [] [] n d e = refl
scan_digits-append [] (c ∷ s) n d e = ground arith
scan_digits-append (c ∷ ds) rest n (d, more) e =
    ground (arith, scan_digits-append ds rest (n * 10 + (c - b'0')) more e)

-- A text that starts with a digit is read as the number of its digits, or as the greatest word.
pub strtoull-digits :
    (c : ℕ) (ds rest : CString)
    → AllDigits (c ∷ ds)
    → EndsDigits rest
    → strtoull ((c ∷ ds) ++ rest) ≡ some (saturate false (decimal (c ∷ ds) 0), rest)
unfolding strtoull skip_spaces read_signed read_unsigned
strtoull-digits c ds rest (dc, more) e =
    let scanned = scan_digits-append (c ∷ ds) rest 0 (dc, more) e in
    ground (arith, ap (λ r. some (saturated false r)) scanned)

pub skip_spaces-append :
    (ws rest : CString) → AllSpaces ws → skip_spaces (ws ++ rest) ≡ skip_spaces rest
unfolding skip_spaces
skip_spaces-append [] rest h = refl
skip_spaces-append (c ∷ ws) rest (h, more) = ground (arith, skip_spaces-append ws rest more)

-- What is skipped are spaces.
pub skip_spaces-splits : (s : CString) → (ws : CString) × AllSpaces ws × (s ≡ ws ++ skip_spaces s)
unfolding skip_spaces
skip_spaces-splits [] = ([], tt, refl)
skip_spaces-splits (c ∷ s) = elim (Bool-cases (is_space c)) [
  | inr stops ↦ ([], tt, rw stops refl)
  | inl space ↦
      let (ws, all, e) = skip_spaces-splits s in (c ∷ ws, (space, all), rw space (ap (◌∷◌ c) e))
]

pub saturate-word : (minus : Bool) (n : ℕ) → saturate minus n < 2 ^ 64
unfolding saturate
saturate-word minus n = ground arith

read_unsigned-word :
    (minus : Bool) (s : CString) {n : ℕ} {rest : CString}
    → read_unsigned minus s ≡ some (n, rest)
    → n < 2 ^ 64
unfolding read_unsigned
read_unsigned-word minus [] e = cc
read_unsigned-word minus (c ∷ s) e = ground (arith, saturate-word minus (scan_digits (c ∷ s) 0).0)

read_signed-word :
    (s : CString) {n : ℕ} {rest : CString} → read_signed s ≡ some (n, rest) → n < 2 ^ 64
unfolding read_signed
read_signed-word [] e = cc
read_signed-word (c ∷ s) {n} {rest} e = ground (
  arith,
  read_unsigned-word true s {n = n} {rest = rest},
  read_unsigned-word false s {n = n} {rest = rest},
  read_unsigned-word false (c ∷ s) {n = n} {rest = rest},
)

-- What strtoull answers is a word.
pub strtoull-word :
    (s : CString) {n : ℕ} {rest : CString} → strtoull s ≡ some (n, rest) → n < 2 ^ 64
unfolding strtoull
strtoull-word s e = read_signed-word (skip_spaces s) e

-- A C string has no NUL in front of its end.
abbrev pub NoNul : CString → Type 0
NoNul [] = Unit {0}
NoNul (c ∷ s) = ((c == 0) ≡ false) × NoNul s

pub NoNul-skip_spaces : (s : CString) → NoNul s → NoNul (skip_spaces s)
unfolding skip_spaces
NoNul-skip_spaces [] h = tt
NoNul-skip_spaces (c ∷ s) (nz, h) = elim (Bool-cases (is_space c)) [
  | inl space ↦ rw space (NoNul-skip_spaces s h)
  | inr stops ↦ rw stops (nz, h)
]

NoNul-scan_digits : (s : CString) (n : ℕ) → NoNul s → NoNul (scan_digits s n).1
unfolding scan_digits
NoNul-scan_digits [] n h = tt
NoNul-scan_digits (c ∷ s) n (nz, h) = elim (Bool-cases (is_digit c)) [
  | inl digit ↦ rw digit (NoNul-scan_digits s _ h)
  | inr stops ↦ rw stops (nz, h)
]

-- The rest of a text that was read has no NUL.
abbrev RestNoNul : Option (ℕ × CString) → Type 0
RestNoNul none = Unit {0}
RestNoNul (some (n, rest)) = NoNul rest

NoNul-read_unsigned : (minus : Bool) (s : CString) → NoNul s → RestNoNul (read_unsigned minus s)
unfolding read_unsigned
NoNul-read_unsigned minus [] h = tt
NoNul-read_unsigned minus (c ∷ s) (_, h) = elim (Bool-cases (is_digit c)) [
  | inl digit ↦ rw digit (NoNul-scan_digits s (0 * 10 + (c - b'0')) h)
  | inr stops ↦ rw stops tt
]

NoNul-read_signed : (s : CString) → NoNul s → RestNoNul (read_signed s)
unfolding read_signed
NoNul-read_signed [] h = tt
NoNul-read_signed (c ∷ s) (nz, h) = elim (Bool-cases (c == b'-')) [
  | inl minus ↦ rw minus (NoNul-read_unsigned true s h)
  | inr no_minus ↦ rw no_minus (elim (Bool-cases (c == b'+')) [
    | inl plus ↦ rw plus (NoNul-read_unsigned false s h)
    | inr no_plus ↦ rw no_plus (NoNul-read_unsigned false (c ∷ s) (nz, h))
  ])
]

pub NoNul-strtoull :
    (s : CString) {n : ℕ} {rest : CString} → strtoull s ≡ some (n, rest) → NoNul s → NoNul rest
unfolding strtoull
NoNul-strtoull s e h = subst RestNoNul e (NoNul-read_signed (skip_spaces s) (NoNul-skip_spaces s h))
