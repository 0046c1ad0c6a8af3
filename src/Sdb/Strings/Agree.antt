-- ===== src/Sdb/Strings/Agree.antt =====
-- sdhs/Sdb.h, sdb_string over u_arena.c: the same strings as those of lm.h.
use lmalloc.Common.{
  ℕ, ◌+◌, ◌≤◌, ◌≡◌, ◌≢◌, refl, ap, sym, subst, ◌∙◌, ◌⊎◌, Option, none, some, arith, add_size, Bytes,
}
use lmalloc.Lm.Strings.{
  LmWorld, lm_string_len, lm_string_make_space, lm_string_append_from, append_bytes,
  lm_string_space_avail, lm_string_backspace, lm_strings_are_equal, write_byte, lm_string_set_len,
  lm_string_set_cap, lm_string_cap, lm_string_clear,
}
use lmalloc.KaClient.Slot.{pointer}
use lmalloc.SdhsArena.{u_arena}
use lmalloc.Sdb.Memory.{sdb_memcpy}
use lmalloc.Sdb.Memory.Loops.{memcpy-memcpy, memcmp-memcmp_eq}
use lmalloc.Sdb.Strings.{
  sdb_string_make_space, sdb_string_append_from, sdb_append_bytes, granted,
  sdb_string_available_space, sdb_string_set_cap, sdb_string_cap, sdb_string_set_len,
  sdb_string_len, then_do, sdb_string_backspace, sdb_strings_are_equal, sdb_string_clear,
}

-- What lm.h answers, in the form in which the arena interface answers.
abbrev pub answered : Option ℕ × LmWorld → Option (ℕ × LmWorld)
answered (r, w) = some (pointer r, w)

pub make_space-make_space :
    (string n : ℕ) (w : LmWorld)
    → sdb_string_make_space u_arena string n w ≡ answered (lm_string_make_space string n w)
unfolding sdb_string_make_space lm_string_make_space sdb_string_available_space
    lm_string_space_avail granted sdb_string_set_cap lm_string_set_cap sdb_string_cap lm_string_cap
make_space-make_space string n w = ground arith

-- A string that is not NULL stays where it is or becomes NULL.
make_space-place :
    (string n : ℕ) (w : LmWorld)
    → ((lm_string_make_space string n w).0 ≡ none)
      ⊎ ((lm_string_make_space string n w).0 ≡ some string)
unfolding lm_string_make_space
make_space-place string n w = ground arith

-- The world after the bytes `m` were written and the length was set.
with_bytes : ℕ → ℕ → LmWorld → Bytes → LmWorld
with_bytes string n w m =
    let cur_len = lm_string_len string w in
    let w2 = lm_string_set_len string (add_size cur_len n) (record w { bytes = m }) in
    write_byte (string + add_size cur_len n) 0 w2

bytes-bytes :
    (string other n : ℕ) (w : LmWorld)
    → string ≢ 0
    → (other + n ≤ string + lm_string_len string w) ⊎ (string + lm_string_len string w + n ≤ other)
    → sdb_append_bytes u_arena other n (string, w)
      ≡ (string, (append_bytes other n (some string, w)).1)
unfolding sdb_append_bytes append_bytes sdb_string_len lm_string_len sdb_string_set_len
    lm_string_set_len with_bytes
bytes-bytes string other n w nz apart =
    let step : sdb_append_bytes u_arena other n (string, w) ≡ (
      string,
      with_bytes string n w (sdb_memcpy (string + lm_string_len string w) other n w.bytes),
    ) =
      ground arith in
    step
    ∙ ap (λ m. (string, with_bytes string n w m))
        (memcpy-memcpy (string + lm_string_len string w) other n w.bytes apart)

make_space-len :
    (string n : ℕ) (w : LmWorld)
    → lm_string_len string (lm_string_make_space string n w).1 ≡ lm_string_len string w
unfolding lm_string_make_space lm_string_len lm_string_set_cap
make_space-len string n w = ground arith

-- Appending after space was made, or not.
end-end :
    (string other n : ℕ) (r : Option ℕ × LmWorld)
    → (r.0 ≡ none) ⊎ (r.0 ≡ some string)
    → string ≢ 0
    → (other + n ≤ string + lm_string_len string r.1)
      ⊎ (string + lm_string_len string r.1 + n ≤ other)
    → some (sdb_append_bytes u_arena other n (pointer r.0, r.1)) ≡ answered (append_bytes other n r)
unfolding sdb_append_bytes append_bytes
end-end string other n (none, w) is nz apart = refl
end-end string other n (some s, w) is nz apart =
    let e : string ≡ s = ground arith in
    ap some (
      bytes-bytes s other n w (ground arith) (
        subst (λ k. (other + n ≤ k + lm_string_len k w) ⊎ (k + lm_string_len k w + n ≤ other)) e
          apart))

append-append :
    (string other n : ℕ) (w : LmWorld)
    → string ≢ 0
    → (other + n ≤ string + lm_string_len string w) ⊎ (string + lm_string_len string w + n ≤ other)
    → sdb_string_append_from u_arena string other n w
      ≡ answered (lm_string_append_from string other n w)
unfolding sdb_string_append_from lm_string_append_from
append-append string other n w nz apart =
    let same = make_space-len string n w in
    ap (λ o. then_do o (λ r. some (sdb_append_bytes u_arena other n r)))
      (make_space-make_space string n w)
    ∙ end-end string other n (lm_string_make_space string n w) (make_space-place string n w) nz
        (subst (λ len. (other + n ≤ string + len) ⊎ (string + len + n ≤ other)) (sym same) apart)

equal-equal :
    (lhs rhs : ℕ) (w : LmWorld) → sdb_strings_are_equal lhs rhs w ≡ lm_strings_are_equal lhs rhs w
unfolding sdb_strings_are_equal lm_strings_are_equal sdb_string_len lm_string_len
equal-equal lhs rhs w =
    let same = memcmp-memcmp_eq lhs rhs (lm_string_len lhs w) w.bytes in ground arith

-- Over arenas of u_arena.c the sdb_string calls do to a string that is not NULL what the lm_string calls do, for every
-- state of the string and its arena: making space, appending bytes that do not overlap the place they are copied to, dropping characters, clearing and comparing.
pub sdb_string-lm_string :
    (string other n : ℕ) (w : LmWorld)
    → string ≢ 0
    → (other + n ≤ string + lm_string_len string w) ⊎ (string + lm_string_len string w + n ≤ other)
    → (sdb_string_make_space u_arena string n w ≡ answered (lm_string_make_space string n w))
      × (sdb_string_append_from u_arena string other n w
          ≡ answered (lm_string_append_from string other n w))
      × (sdb_string_backspace string n w ≡ lm_string_backspace string n w)
      × (sdb_string_clear string w ≡ lm_string_clear string w)
      × (sdb_strings_are_equal string other w ≡ lm_strings_are_equal string other w)
unfolding sdb_string_backspace lm_string_backspace sdb_string_clear lm_string_clear
sdb_string-lm_string string other n w nz apart = (
  make_space-make_space string n w,
  append-append string other n w nz apart,
  refl,
  refl,
  equal-equal string other w,
)
