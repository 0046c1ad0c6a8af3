-- ===== src/Lm/Strings/Make.antt =====
-- lm.h, lm__string_make__ and lm_string_make: a new string.
use lmalloc.Common.{
  ℕ, ◌+◌, ◌-◌, ◌≤◌, ◌<◌, ◌≡◌, ◌≢◌, ◌∙◌, ap, refl, ◌⊎◌, some, arith, word_mod, put, add_size, Bytes,
  memcpy-inside, memcpy-outside, bzero, bzero-outside, strlen-first,
}
use lmalloc.UArena.{ua_zalloc}
use lmalloc.Lm.Strings.{
  LmWorld, lm_string_make_from, lm_string_make, init_bytes, string_fill, with_length, lm_string_len,
  lm_string_cap,
}
use lmalloc.Lm.Strings.Space.{IsString, IsTop}

-- A new string of the `len` bytes at `from`, behind what the arena at `ua` held.
pub record Made (from len ua : ℕ) (w w' : LmWorld) (string : ℕ) : Type 0 where
  pub is_string : IsString string w'
  pub is_top : IsTop string w'
  pub placed : string ≡ (w.arenas ua).mem + (w.arenas ua).cur + 24
  pub long : lm_string_len string w' ≡ len
  pub text : (i : ℕ) → i < len → w'.bytes (string + i) ≡ w.bytes (from + i)
  pub outside :
      (a : ℕ)
      → (a < (w.arenas ua).mem + (w.arenas ua).cur) ⊎ (string + len < a)
      → w'.bytes a ≡ w.bytes a

-- The bytes after a string was made at `string`.
made_bytes : ℕ → ℕ → ℕ → Bytes → Bytes
unfolding init_bytes
made_bytes from string len m =
    put (init_bytes (some from) string len (bzero (string - 24) (24 + len + 1) m)) (string + len) 0

made_bytes-text :
    (from string len : ℕ) (m : Bytes)
    → 24 ≤ string
    → (from + len ≤ string - 24) ⊎ (string + len < from)
    → (i : ℕ) → i < len
    → made_bytes from string len m (string + i) ≡ m (from + i)
unfolding made_bytes
made_bytes-text from string len m placed apart i lt =
    let copied = memcpy-inside string from len (bzero (string - 24) (24 + len + 1) m) i lt in
    let kept = bzero-outside (string - 24) (24 + len + 1) m (from + i) (ground arith) in
    ground arith

made_bytes-outside :
    (from string len : ℕ) (m : Bytes) (a : ℕ)
    → 24 ≤ string
    → (a < string - 24) ⊎ (string + len < a)
    → made_bytes from string len m a ≡ m a
unfolding made_bytes
made_bytes-outside from string len m a placed out =
    let copied =
      memcpy-outside string from len (bzero (string - 24) (24 + len + 1) m) a (ground arith) in
    let kept = bzero-outside (string - 24) (24 + len + 1) m a (ground arith) in ground arith

-- The world after the string was made in a block of `size` bytes at `mem`.
world_with : ℕ → ℕ → ℕ → ℕ → ℕ → LmWorld → LmWorld
unfolding init_bytes
world_with from len ua mem size w =
    let arena = w.arenas ua in
    let string = arena.mem + arena.cur + 24 in
    record {
      arenas = put w.arenas ua (record arena { cur = add_size arena.cur size });
      headers = put w.headers string (record { ua = ua; len = len; cap = len });
      bytes = put (init_bytes (some from) string len (bzero mem size w.bytes)) (string + len) 0;
    }

made_world : ℕ → ℕ → ℕ → LmWorld → LmWorld
unfolding world_with
made_world from len ua w =
    let arena = w.arenas ua in
    world_with from len ua (arena.mem + arena.cur + 24 - 24) (24 + len + 1) w

make_from-made :
    (from len ua : ℕ) (w : LmWorld)
    → (w.arenas ua).cur + 24 + len + 1 ≤ (w.arenas ua).cap
    → (w.arenas ua).mem + (w.arenas ua).cap < word_mod
    → lm_string_make_from (some from) len ua w
      ≡ (some ((w.arenas ua).mem + (w.arenas ua).cur + 24), made_world from len ua w)
unfolding lm_string_make_from made_world ua_zalloc string_fill world_with
make_from-made from len ua w fits small =
    let arena = w.arenas ua in
    let mem = arena.mem + arena.cur in
    let size : add_size (add_size 24 len) 1 ≡ 24 + len + 1 = omega arith in
    let start : mem ≡ mem + 24 - 24 = omega arith in
    let step : lm_string_make_from (some from) len ua w
        ≡ (some (mem + 24), world_with from len ua mem (add_size (add_size 24 len) 1) w) =
      ground arith in
    step
    ∙ ap (λ n. (some (mem + 24), world_with from len ua mem n w)) size
    ∙ ap (λ p. (some (mem + 24), world_with from len ua p (24 + len + 1) w)) start

make_from_lem :
    (from len ua : ℕ) (w : LmWorld)
    → (w.arenas ua).cur + 24 + len + 1 ≤ (w.arenas ua).cap
    → (w.arenas ua).mem + (w.arenas ua).cap < word_mod
    → (from + len ≤ (w.arenas ua).mem + (w.arenas ua).cur)
      ⊎ ((w.arenas ua).mem + (w.arenas ua).cur + 24 + len < from)
    → (string : ℕ) × (w' : LmWorld) × (lm_string_make_from (some from) len ua w ≡ (some string, w'))
      × Made from len ua w w' string
unfolding made_world world_with made_bytes lm_string_len lm_string_cap
make_from_lem from len ua w fits small apart =
    let string = (w.arenas ua).mem + (w.arenas ua).cur + 24 in
    (
      string,
      made_world from len ua w,
      make_from-made from len ua w fits small,
      record {
        is_string = record {
          len_le_cap = ground arith;
          above = ground arith;
          below = ground arith;
          within = ground arith;
          placed = ground arith;
          ended = ground arith;
        };
        is_top = ground arith;
        placed = refl;
        long = ground arith;
        text = made_bytes-text from string len w.bytes (omega arith) (ground arith);
        outside =
            λ a out. made_bytes-outside from string len w.bytes a (omega arith) (ground arith);
      },
    )

-- Making a string of a C string of `len` bytes, in an arena with room for the header, the bytes and the NUL,
-- the C string being outside the new block: the call returns, the string is well formed, stands last in the
-- arena behind what the arena held, is `len` long and reads the bytes of the C string; no byte outside the block changes.
pub string_make_lem :
    (from len ua : ℕ) (w : LmWorld)
    → ((i : ℕ) → i < len → w.bytes (from + i) ≢ 0)
    → w.bytes (from + len) ≡ 0
    → (w.arenas ua).cur + 24 + len + 1 ≤ (w.arenas ua).cap
    → (w.arenas ua).mem + (w.arenas ua).cap < word_mod
    → (from + len ≤ (w.arenas ua).mem + (w.arenas ua).cur)
      ⊎ ((w.arenas ua).mem + (w.arenas ua).cur + 24 + len < from)
    → (string : ℕ) × (w' : LmWorld) × (lm_string_make (some from) ua w ≡ some (some string, w'))
      × Made from len ua w w' string
unfolding lm_string_make with_length
string_make_lem from len ua w text end fits small apart =
    let (string, w', e, made) = make_from_lem from len ua w fits small apart in
    let long = strlen-first from len w.bytes (omega arith) text end in
    (
      string,
      w',
      ap (λ n. with_length n (λ len'. lm_string_make_from (some from) len' ua w)) long ∙ ap some e,
      made,
    )
