-- ===== src/Lm/Strings.antt =====
-- lm.h, lm_string_*: strings that know their length, each in an arena behind a header of its own.
pub mod Space
pub mod Text
pub mod Make
use lmalloc.Common.{
  ℕ, ◌+◌, Bool, true, false, Option, none, some, ltb, ◌==◌, if◌then◌else◌, add_size, sub_size,
  Bytes, memcpy, put, strlen, memcmp_eq,
}
use lmalloc.UArena.{UArena, ua_zalloc, ua_reserve}

-- `LmStringHeader`. The arena is named by its address.
pub record LmStringHeader : Type 0 where
  pub ua : ℕ
  pub len : ℕ
  pub cap : ℕ

-- The arenas by address, the headers by the address of the string behind them, and the bytes.
pub record StringWorld (S : Type 0) : Type 0 where
  pub arenas : ℕ → S
  pub headers : ℕ → LmStringHeader
  pub bytes : Bytes

abbrev pub lm_header_size : ℕ
lm_header_size = 24

module _ {S : Type 0} where
  unfoldable pub lm_string_len : ℕ → StringWorld S → ℕ
  lm_string_len string w = (w.headers string).len

  unfoldable pub lm_string_cap : ℕ → StringWorld S → ℕ
  lm_string_cap string w = (w.headers string).cap

  unfoldable pub lm_string_space_avail : ℕ → StringWorld S → ℕ
  lm_string_space_avail string w = let header = w.headers string in sub_size header.cap header.len

  unfoldable pub lm_string_alloc_sz : ℕ → StringWorld S → ℕ
  unfolding lm_string_cap
  lm_string_alloc_sz string w = add_size lm_header_size (lm_string_cap string w)

  unfoldable pub lm_string_set_len : ℕ → ℕ → StringWorld S → StringWorld S
  lm_string_set_len string len w = record w {
    headers = put w.headers string (record (w.headers string) { len = len });
  }

  unfoldable pub lm_string_set_cap : ℕ → ℕ → StringWorld S → StringWorld S
  lm_string_set_cap string cap w = record w {
    headers = put w.headers string (record (w.headers string) { cap = cap });
  }

  -- `string[i] = c`
  abbrev pub write_byte : ℕ → ℕ → StringWorld S → StringWorld S
  write_byte p c w = record w { bytes = put w.bytes p c }

  unfoldable pub lm_string_clear : ℕ → StringWorld S → StringWorld S
  unfolding lm_string_set_len
  lm_string_clear string w = write_byte string 0 (lm_string_set_len string 0 w)

  -- The subtraction wraps, and so does the address that is written.
  unfoldable pub lm_string_backspace : ℕ → ℕ → StringWorld S → StringWorld S
  unfolding lm_string_set_len lm_string_len
  lm_string_backspace string n w =
      let new_len = sub_size (lm_string_len string w) n in
      write_byte (add_size string new_len) 0 (lm_string_set_len string new_len w)

  unfoldable pub lm_strings_are_equal : ℕ → ℕ → StringWorld S → Bool
  unfolding lm_string_len
  lm_strings_are_equal lhs rhs w =
      if lm_string_len lhs w == lm_string_len rhs w
      then memcmp_eq lhs rhs (lm_string_len lhs w) w.bytes
      else false

abbrev pub LmWorld : Type 0
LmWorld = StringWorld UArena

-- `init_string` is NULL as `none`.
init_bytes : Option ℕ → ℕ → ℕ → Bytes → Bytes
init_bytes none string len m = m
init_bytes (some from) string len m = if ltb 0 len then memcpy string from len m else m

-- The block that `ua_zalloc` answered, filled in.
string_fill : Option ℕ → ℕ → ℕ → Option ℕ → LmWorld → Option ℕ × LmWorld
unfolding init_bytes
string_fill init len ua none w = (none, w)
string_fill init len ua (some mem) w =
    let string = mem + lm_header_size in
    let headers = put w.headers string (record { ua = ua; len = len; cap = len }) in
    let bytes = init_bytes init string len w.bytes in
    (some string, record w { headers = headers; bytes = put bytes (string + len) 0 })

-- `lm__string_make__`: the string, or NULL as `none`, and the world after it.
unfoldable pub lm_string_make_from : Option ℕ → ℕ → ℕ → LmWorld → Option ℕ × LmWorld
unfolding string_fill
lm_string_make_from init len ua w =
    let (mem, ua', bytes) =
      ua_zalloc (w.arenas ua) (add_size (add_size lm_header_size len) 1) w.bytes in
    string_fill init len ua mem (record w { arenas = put w.arenas ua ua'; bytes = bytes })

-- What is done with the length of a C string; `none`: it has no end.
unfoldable pub with_length {ℓ} : {A : Type ℓ} → Option ℕ → (ℕ → A) → Option A
with_length none f = none
with_length (some len) f = some (f len)

unfoldable pub lm_string_make : Option ℕ → ℕ → LmWorld → Option (Option ℕ × LmWorld)
unfolding lm_string_make_from with_length
lm_string_make none ua w = some (lm_string_make_from none 0 ua w)
lm_string_make (some from) ua w =
    with_length (strlen from w.bytes) λ len. lm_string_make_from (some from) len ua w

unfoldable pub lm_string_dup : ℕ → ℕ → LmWorld → Option ℕ × LmWorld
unfolding lm_string_make_from lm_string_len
lm_string_dup string ua w = lm_string_make_from (some string) (lm_string_len string w) ua w

unfoldable pub lm_string_make_space : ℕ → ℕ → LmWorld → Option ℕ × LmWorld
unfolding lm_string_space_avail lm_string_cap lm_string_set_cap
lm_string_make_space string add_len w =
    if ltb (lm_string_space_avail string w) add_len
    then (let ua = (w.headers string).ua in
        let (reserved, ua') = ua_reserve (w.arenas ua) add_len in
        let w' = record w { arenas = put w.arenas ua ua' } in
        if ltb reserved add_len then (none, w') else (
          some string,
          lm_string_set_cap string (add_size (lm_string_cap string w') add_len) w',
        ))
    else (some string, w)

-- `memcpy` of `other_len` bytes to where the string ends, with the new length and the NUL.
unfoldable pub append_bytes : ℕ → ℕ → Option ℕ × LmWorld → Option ℕ × LmWorld
unfolding lm_string_len lm_string_set_len
append_bytes other other_len (none, w) = (none, w)
append_bytes other other_len (some string, w) =
    let cur_len = lm_string_len string w in
    let w1 = record w { bytes = memcpy (string + cur_len) other other_len w.bytes } in
    let w2 = lm_string_set_len string (add_size cur_len other_len) w1 in
    (some string, write_byte (string + add_size cur_len other_len) 0 w2)

-- `lm__string_append__`
unfoldable pub lm_string_append_from : ℕ → ℕ → ℕ → LmWorld → Option ℕ × LmWorld
unfolding append_bytes lm_string_make_space
lm_string_append_from string other other_len w =
    append_bytes other other_len (lm_string_make_space string other_len w)

unfoldable pub lm_string_append : ℕ → ℕ → LmWorld → Option ℕ × LmWorld
unfolding lm_string_append_from lm_string_len
lm_string_append string other w = lm_string_append_from string other (lm_string_len other w) w

unfoldable pub lm_string_append_c : ℕ → ℕ → LmWorld → Option (Option ℕ × LmWorld)
unfolding lm_string_append_from with_length
lm_string_append_c string other w =
    with_length (strlen other w.bytes) λ len. lm_string_append_from string other len w

unfoldable pub set_bytes : ℕ → ℕ → Option ℕ × LmWorld → Option ℕ × LmWorld
unfolding lm_string_set_len
set_bytes c_string len (none, w) = (none, w)
set_bytes c_string len (some string, w) =
    let w1 = record w { bytes = memcpy string c_string len w.bytes } in
    (some string, lm_string_set_len string len (write_byte (string + len) 0 w1))

unfoldable pub lm_string_set : ℕ → ℕ → LmWorld → Option (Option ℕ × LmWorld)
unfolding set_bytes lm_string_make_space with_length
lm_string_set string c_string w =
    with_length (strlen c_string w.bytes)
      λ len. set_bytes c_string len (lm_string_make_space string len w)
