-- ===== src/Lm/Strings/Text.antt =====
-- lm.h, lm_string_append, lm_string_backspace and lm_strings_are_equal: what a string reads.
use lmalloc.Common.{
  ℕ, ◌+◌, ◌≤◌, ◌<◌, ◌≡◌, ◌∙◌, ap, sym, ◌⊎◌, inl, some, arith, word_mod, put, add_size, Bytes,
  memcpy, memcpy-inside, memcpy-outside, memcmp_eq→, →memcmp_eq, true, ◌↔◌,
}
use lmalloc.Lm.Strings.{
  LmWorld, lm_string_append_from, append_bytes, lm_string_len, lm_string_cap, lm_string_backspace,
  lm_strings_are_equal, lm_string_set_len,
}
use lmalloc.Lm.Strings.Space.{IsString, IsTop, HasRoom, Grown, make_space_lem}

-- `w'` is `w`, but that the string has the `n` bytes at `other` behind its text.
pub record Appended (string other n : ℕ) (w w' : LmWorld) : Type 0 where
  pub is_string : IsString string w'
  pub is_top : IsTop string w'
  pub longer : lm_string_len string w' ≡ lm_string_len string w + n
  pub kept : (i : ℕ) → i < lm_string_len string w → w'.bytes (string + i) ≡ w.bytes (string + i)
  pub added :
      (i : ℕ) → i < n → w'.bytes (string + (lm_string_len string w + i)) ≡ w.bytes (other + i)
  pub outside :
      (a : ℕ) → (a < string) ⊎ (string + lm_string_cap string w' < a) → w'.bytes a ≡ w.bytes a

-- The bytes of the text after `append_bytes`.
appended : ℕ → ℕ → ℕ → ℕ → Bytes → Bytes
appended string len other n m = put (memcpy (string + len) other n m) (string + (len + n)) 0

appended-kept :
    (string len other n : ℕ) (m : Bytes) (a : ℕ)
    → (a < string + len) ⊎ (string + (len + n) < a)
    → appended string len other n m a ≡ m a
unfolding appended
appended-kept string len other n m a h = ground (arith, memcpy-outside (string + len) other n m a)

appended-added :
    (string len other n : ℕ) (m : Bytes) (i : ℕ)
    → i < n
    → appended string len other n m (string + (len + i)) ≡ m (other + i)
unfolding appended
appended-added string len other n m i h =
    let e : string + (len + i) ≡ string + len + i = omega arith in
    ground
      (arith, ap (memcpy (string + len) other n m) e, memcpy-inside (string + len) other n m i h)

appended-ended :
    (string len other n : ℕ) (m : Bytes) → appended string len other n m (string + (len + n)) ≡ 0
unfolding appended
appended-ended string len other n m = ground arith

-- The world after `append_bytes` at a string with room.
filled : ℕ → ℕ → ℕ → LmWorld → LmWorld
unfolding appended lm_string_len lm_string_set_len
filled string other n w =
    let len = lm_string_len string w in
    record (lm_string_set_len string (len + n) w) { bytes = appended string len other n w.bytes }

append_bytes-filled :
    (string : ℕ) (w : LmWorld) (other n : ℕ)
    → lm_string_len string w + n < word_mod
    → append_bytes other n (some string, w) ≡ (some string, filled string other n w)
unfolding append_bytes filled
append_bytes-filled string w other n small =
    let e : lm_string_len string w + n ≡ add_size (lm_string_len string w) n = omega arith in
    unfold lm_string_set_len in
    ap
      (λ k. (
        some string,
        record (lm_string_set_len string k w) {
          bytes = put (memcpy (string + lm_string_len string w) other n w.bytes) (string + k) 0;
        },
      ))
      (omega arith)

filled-Appended :
    {string : ℕ} {w w1 : LmWorld} (other n : ℕ)
    → Grown string n w w1
    → Appended string other n w (filled string other n w1)
unfolding filled lm_string_set_len lm_string_len lm_string_cap
filled-Appended {string} {w} {w1} other n g =
    let v = g.is_string in
    let t = g.is_top in
    let sl = g.same_len in
    let len = lm_string_len string w1 in
    record {
      is_string = record {
        len_le_cap = ground (arith, g.room);
        above = ground (arith, v.above);
        below = ground (arith, v.below);
        within = ground (arith, v.within);
        placed = ground (arith, v.placed);
        ended = ground (arith, appended-ended string len other n w1.bytes);
      };
      is_top = ground arith;
      longer = ground arith;
      kept = λ i lt.
          appended-kept string len other n w1.bytes (string + i) (inl (omega arith))
          ∙ ap (λ m. m (string + i)) g.same_bytes;
      added = λ i lt.
          ap (λ k. appended string len other n w1.bytes (string + (k + i))) (sym sl)
          ∙ appended-added string len other n w1.bytes i lt
          ∙ ap (λ m. m (other + i)) g.same_bytes;
      outside = λ a out.
          let r = g.room in
          appended-kept string len other n w1.bytes a (ground arith) ∙ ap (λ m. m a) g.same_bytes;
    }

-- Appending to a string that is last in its arena, with room for it, from bytes that do not overlap the
-- place they are copied to: the string stays where it is and stays well formed and last in its arena, its
-- length grows by that of the appended bytes, its text is the old text with those bytes behind it, and no
-- byte outside the string changes.
pub string_append_lem :
    {string : ℕ} {w : LmWorld} (other n : ℕ)
    → IsString string w
    → IsTop string w
    → HasRoom string n w
    → (other + n ≤ string + lm_string_len string w) ⊎ (string + lm_string_len string w + n ≤ other)
    → (w' : LmWorld) × (lm_string_append_from string other n w ≡ (some string, w'))
      × Appended string other n w w'
unfolding lm_string_append_from
string_append_lem {string} {w} other n v top room _ =
    let (w1, e, g) = make_space_lem n v top room in
    (
      filled string other n w1,
      ap (append_bytes other n) e
          ∙ append_bytes-filled string w1 other n (
              let u = g.is_string in
              let b = u.below in
              let r = g.room in let p = u.placed in let q = u.within in ground arith),
      filled-Appended other n g,
    )

backspace_lem :
    {string : ℕ} {w : LmWorld} (n : ℕ)
    → IsString string w
    → n ≤ lm_string_len string w
    → let w' = lm_string_backspace string n w in
      IsString string w'
      × (lm_string_len string w' + n ≡ lm_string_len string w)
      × (lm_string_cap string w' ≡ lm_string_cap string w)
      × ((i : ℕ) → i < lm_string_len string w' → w'.bytes (string + i) ≡ w.bytes (string + i))
unfolding lm_string_backspace lm_string_len lm_string_cap
backspace_lem {string} {w} n v short =
    let b = v.below in
    (
      record {
        len_le_cap = ground (arith, v.len_le_cap);
        above = ground (arith, v.above);
        below = ground (arith, v.below);
        within = ground (arith, v.within);
        placed = ground (arith, v.placed);
        ended = ground (arith, v.len_le_cap, v.within, v.placed);
      },
      ground (arith, v.len_le_cap, v.within, v.placed),
      ground arith,
      λ i lt. ground (arith, v.len_le_cap, v.within, v.placed),
    )

-- Taking back what was appended: with the conditions of the append, `lm_string_backspace` of as many bytes
-- gives a well-formed string of the length and the text before, at the same place, with the capacity that it
-- grew to.
pub backspace-append :
    {string : ℕ} {w : LmWorld} (other n : ℕ)
    → IsString string w
    → IsTop string w
    → HasRoom string n w
    → (other + n ≤ string + lm_string_len string w) ⊎ (string + lm_string_len string w + n ≤ other)
    → (w' : LmWorld) × (lm_string_append_from string other n w ≡ (some string, w'))
      × (let w'' = lm_string_backspace string n w' in
          IsString string w''
          × (lm_string_len string w'' ≡ lm_string_len string w)
          × (lm_string_cap string w'' ≡ lm_string_cap string w')
          × ((i : ℕ) → i < lm_string_len string w → w''.bytes (string + i) ≡ w.bytes (string + i)))
backspace-append {string} {w} other n v top room apart =
    let (w', e, a) = string_append_lem other n v top room apart in
    let l = a.longer in
    let (v'', len, cap, text) = backspace_lem n a.is_string (omega arith) in
    (w', e, (v'', omega arith, cap, λ i lt. text i (omega arith) ∙ a.kept i lt))

-- Two strings are equal for `lm_strings_are_equal` exactly when they are equally long and have the same
-- bytes.
pub lm_strings_are_equal_iff :
    (lhs rhs : ℕ) (w : LmWorld)
    → (lm_strings_are_equal lhs rhs w ≡ true) ↔ (
        (lm_string_len lhs w ≡ lm_string_len rhs w)
        × ((i : ℕ) → i < lm_string_len lhs w → w.bytes (lhs + i) ≡ w.bytes (rhs + i)))
unfolding lm_strings_are_equal
lm_strings_are_equal_iff lhs rhs w =
    let n = lm_string_len lhs w in
    (
      λ h. (ground arith, memcmp_eq→ lhs rhs n w.bytes (ground arith)),
      λ (same_len, same). ground (arith, →memcmp_eq lhs rhs n w.bytes same),
    )
