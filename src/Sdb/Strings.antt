-- ===== src/Sdb/Strings.antt =====
-- sdhs/Sdb.h, sdb_string: the strings of lm.h over the arena interface of the sensor system. The
-- header has the fields of lm.h's, so the worlds are the same, with arenas of any kind.
pub mod Agree
pub mod Free
use lmalloc.Common.{
  ℕ, ◌+◌, Bool, true, false, Option, none, some, ltb, ◌==◌, if◌then◌else◌, add_size, sub_size, put,
  Bytes,
}
use lmalloc.Lm.Strings.{LmStringHeader, StringWorld, write_byte}
use lmalloc.SdhsArena.{SdhsArena, Timer}
use lmalloc.Sdb.Memory.{sdb_memcpy, sdb_memset, sdb_memcmp, sdb_strlen}

abbrev pub sdb_header_size : ℕ
sdb_header_size = 24

-- The end of what follows a call that may fault.
abbrev pub then_do {ℓ κ} : {A : Type ℓ} {B : Type κ} → Option A → (A → Option B) → Option B
then_do none f = none
then_do (some a) f = f a

module _ {S : Type 0} where
  unfoldable pub sdb_string_len : ℕ → StringWorld S → ℕ
  sdb_string_len string w = (w.headers string).len

  unfoldable pub sdb_string_cap : ℕ → StringWorld S → ℕ
  sdb_string_cap string w = (w.headers string).cap

  unfoldable pub sdb_string_available_space : ℕ → StringWorld S → ℕ
  sdb_string_available_space string w =
      let header = w.headers string in sub_size header.cap header.len

  unfoldable pub sdb_string_alloc_size : ℕ → StringWorld S → ℕ
  unfolding sdb_string_cap
  sdb_string_alloc_size string w = add_size sdb_header_size (sdb_string_cap string w)

  unfoldable pub sdb_string_set_len : ℕ → ℕ → StringWorld S → StringWorld S
  sdb_string_set_len string len w = record w {
    headers = put w.headers string (record (w.headers string) { len = len });
  }

  unfoldable pub sdb_string_set_cap : ℕ → ℕ → StringWorld S → StringWorld S
  sdb_string_set_cap string cap w = record w {
    headers = put w.headers string (record (w.headers string) { cap = cap });
  }

  unfoldable pub sdb_string_clear : ℕ → StringWorld S → StringWorld S
  unfolding sdb_string_set_len
  sdb_string_clear string w = write_byte string 0 (sdb_string_set_len string 0 w)

  unfoldable pub sdb_string_backspace : ℕ → ℕ → StringWorld S → StringWorld S
  unfolding sdb_string_set_len sdb_string_len
  sdb_string_backspace string n w =
      let new_len = sub_size (sdb_string_len string w) n in
      write_byte (add_size string new_len) 0 (sdb_string_set_len string new_len w)

  unfoldable pub sdb_strings_are_equal : ℕ → ℕ → StringWorld S → Bool
  unfolding sdb_string_len
  sdb_strings_are_equal lhs rhs w =
      if sdb_string_len lhs w == sdb_string_len rhs w
      then sdb_memcmp lhs rhs (sdb_string_len lhs w) w.bytes
      else false

-- The calls on the arenas, with NULL as 0 and a fault as `none`.
module _ {S : Type 0} (ops : SdhsArena S) where
  -- The bytes behind the header: all zero where there is no text, else the text with its NUL, if it has a byte.
  sdb_init_bytes : Option ℕ → ℕ → ℕ → Bytes → Bytes
  sdb_init_bytes none ptr len m = sdb_memset ptr 0 (add_size (add_size sdb_header_size len) 1) m
  sdb_init_bytes (some from) ptr len m =
      let string = ptr + sdb_header_size in
      if ltb 0 len then put (sdb_memcpy string from len m) (string + len) 0 else m

  sdb_string_fill : Option ℕ → ℕ → ℕ → ℕ → StringWorld S → ℕ × StringWorld S
  unfolding sdb_init_bytes
  sdb_string_fill init len a ptr w =
      if ptr == 0
      then (0, w)
      else (let string = ptr + sdb_header_size in
          (
            string,
            record w {
              headers = put w.headers string (record { ua = a; len = len; cap = len });
              bytes = sdb_init_bytes init ptr len w.bytes;
            },
          ))

  -- `Sdb__StringMake__`
  unfoldable pub sdb_string_make_from :
      Option ℕ → ℕ → ℕ → StringWorld S → Timer → Option (ℕ × StringWorld S × Timer)
  unfolding sdb_string_fill
  sdb_string_make_from init len a w t =
      then_do (ops.arena_alloc (w.arenas a) (add_size (add_size sdb_header_size len) 1) t)
        λ (ptr, s, t').
          let (string, w') =
            sdb_string_fill init len a ptr (record w { arenas = put w.arenas a s }) in
          some (string, w', t')

  unfoldable pub sdb_string_make :
      ℕ → Option ℕ → StringWorld S → Timer → Option (ℕ × StringWorld S × Timer)
  unfolding sdb_string_make_from
  sdb_string_make a none w t = sdb_string_make_from none 0 a w t
  sdb_string_make a (some from) w t =
      then_do (sdb_strlen from w.bytes) λ len. sdb_string_make_from (some from) len a w t

  unfoldable pub sdb_string_duplicate :
      ℕ → ℕ → StringWorld S → Timer → Option (ℕ × StringWorld S × Timer)
  unfolding sdb_string_make_from sdb_string_len
  sdb_string_duplicate a string w t =
      sdb_string_make_from (some string) (sdb_string_len string w) a w t

  unfoldable pub sdb_string_free : ℕ → StringWorld S → Option (StringWorld S)
  sdb_string_free string w =
      if string == 0
      then some w
      else (let h = w.headers string in
          let pop_size = add_size (add_size sdb_header_size h.cap) 1 in
          then_do (ops.arena_pop (w.arenas h.ua) pop_size)
            λ s. some (record w { arenas = put w.arenas h.ua s }))

  -- What is done with the bytes that ArenaReserve granted.
  granted : ℕ → ℕ → ℕ × S → StringWorld S → ℕ × StringWorld S
  unfolding sdb_string_set_cap sdb_string_cap
  granted string add_len (reserved, s) w =
      let w' = record w { arenas = put w.arenas (w.headers string).ua s } in
      if ltb reserved add_len
      then (0, w')
      else (string, sdb_string_set_cap string (add_size (sdb_string_cap string w') add_len) w')

  unfoldable pub sdb_string_make_space : ℕ → ℕ → StringWorld S → Option (ℕ × StringWorld S)
  unfolding granted sdb_string_available_space
  sdb_string_make_space string add_len w =
      let a = (w.headers string).ua in
      if ltb (sdb_string_available_space string w) add_len
      then then_do (ops.arena_reserve (w.arenas a) add_len) (λ r. some (granted string add_len r w))
      else some (string, w)

  sdb_append_bytes : ℕ → ℕ → ℕ × StringWorld S → ℕ × StringWorld S
  unfolding sdb_string_len sdb_string_set_len
  sdb_append_bytes other other_len (string, w) =
      if string == 0
      then (0, w)
      else (let cur_len = sdb_string_len string w in
          let w1 = record w { bytes = sdb_memcpy (string + cur_len) other other_len w.bytes } in
          let w2 = sdb_string_set_len string (add_size cur_len other_len) w1 in
          (string, write_byte (string + add_size cur_len other_len) 0 w2))

  -- `Sdb__StringAppend__`
  unfoldable pub sdb_string_append_from : ℕ → ℕ → ℕ → StringWorld S → Option (ℕ × StringWorld S)
  unfolding sdb_append_bytes sdb_string_make_space
  sdb_string_append_from string other other_len w =
      then_do (sdb_string_make_space string other_len w)
        λ r. some (sdb_append_bytes other other_len r)

  unfoldable pub sdb_string_append : ℕ → ℕ → StringWorld S → Option (ℕ × StringWorld S)
  unfolding sdb_string_append_from sdb_string_len
  sdb_string_append string other w = sdb_string_append_from string other (sdb_string_len other w) w

  unfoldable pub sdb_string_append_c : ℕ → ℕ → StringWorld S → Option (ℕ × StringWorld S)
  unfolding sdb_string_append_from
  sdb_string_append_c string other w =
      then_do (sdb_strlen other w.bytes) λ len. sdb_string_append_from string other len w

  sdb_set_bytes : ℕ → ℕ → ℕ × StringWorld S → ℕ × StringWorld S
  unfolding sdb_string_set_len
  sdb_set_bytes c_string len (string, w) =
      if string == 0
      then (0, w)
      else (let w1 = record w { bytes = sdb_memcpy string c_string len w.bytes } in
          (string, sdb_string_set_len string len (write_byte (string + len) 0 w1)))

  unfoldable pub sdb_string_set : ℕ → ℕ → StringWorld S → Option (ℕ × StringWorld S)
  unfolding sdb_set_bytes sdb_string_make_space
  sdb_string_set string c_string w =
      then_do (sdb_strlen c_string w.bytes)
        λ len. then_do (sdb_string_make_space string len w) λ r. some (sdb_set_bytes c_string len r)

  -- SdbStrdup tests nothing: a NULL block is written through, which faults.
  unfoldable pub sdb_strdup : ℕ → ℕ → StringWorld S → Option (ℕ × StringWorld S)
  sdb_strdup string arena w = then_do (sdb_strlen string w.bytes) λ len.
      then_do (ops.arena_push (w.arenas arena) (add_size len 1)) λ (p, s).
        if p == 0
        then none
        else some (
          p,
          record w {
            arenas = put w.arenas arena s;
            bytes = put (sdb_memcpy p string len w.bytes) (p + len) 0;
          },
        )
