-- ===== src/Lm/Examples.antt =====
-- lm.h: concrete runs, and the theorems at concrete inputs.
use lmalloc.Common.{
  ◌*◌, ◌%◌, ◌≡◌, refl, inl, inr, true, false, some, [], ◌∷◌, ◌++◌, arith, ◌==◌, if◌then◌else◌,
  codes, strtoull, saturate, decimal, word_mod,
}
use lmalloc.Lm.Strings.{LmWorld, lm_string_append_from, lm_string_len, lm_string_cap}
use lmalloc.Lm.Strings.Space.{IsString}
use lmalloc.Lm.Strings.Text.{Appended, string_append_lem}
use lmalloc.Lm.Log.{LmLogModule, LogCalls, lm_write_log}
use lmalloc.Lm.MemSize.{lm_mem_sz_from_string}
use lmalloc.Lm.MemSize.Reads.{kibi, mem_sz_reads}

-- The string "abc" last in an arena of 200 bytes at 1000, and "de" at 500.
abbrev abc : LmWorld
abc = record {
  arenas = λ a. record { flags = 0; cap = 200; cur = 28; mem = 1000 };
  headers = λ p. record { ua = 8; len = 3; cap = 3 };
  bytes = λ p.
      if p == 1024
      then b'a'
      else if p == 1025
      then b'b'
      else if p == 1026
      then b'c'
      else if p == 500
      then b'd'
      else if p == 501
      then b'e'
      else 0;
}

abc-IsString : IsString 1024 abc
unfolding lm_string_len lm_string_cap
abc-IsString = record {
  len_le_cap = omega arith;
  above = omega arith;
  below = omega arith;
  within = omega arith;
  placed = omega arith;
  ended = refl;
}

string_append_lem_example :
    (w' : LmWorld) × (lm_string_append_from 1024 500 2 abc ≡ (some 1024, w'))
    × Appended 1024 500 2 abc w'
unfolding lm_string_len lm_string_cap
string_append_lem_example =
    string_append_lem 500 2 abc-IsString refl (inr (omega arith)) (inl (omega arith))

abbrev calls : LogCalls
calls = record {
  time_ok = true;
  localtime_ok = true;
  strftime_ret = 10;
  prefix_ret = some 12;
  message_ret = some 500;
  dropped_ret = some 24;
  write_ok = true;
  fwrite_ok = true;
  ferror_ret = 1;
  errno = 5;
  asserts = true;
}

abbrev log : LmLogModule
log = record {
  lock = false;
  write_to_term = true;
  write_to_file = true;
  file = some 3;
  buf_size = 128;
}

-- A message of 500 bytes is dropped for the note of 24.
too_big :
    lm_write_log calls false true log
    ≡ some (record { ret = 0; to_term = some (2, 47); to_file = some 47; log = log })
unfolding lm_write_log
too_big = refl

sixty_four : lm_mem_sz_from_string (some (codes "64 kB")) ≡ 65536
unfolding lm_mem_sz_from_string strtoull saturate
sixty_four = refl

mem_sz_reads_example :
    lm_mem_sz_from_string (some (codes "64" ++ (codes " " ++ codes "kB")))
    ≡ (saturate false (decimal (codes "64") 0) * 1024) % word_mod
mem_sz_reads_example =
    mem_sz_reads b'6' (b'4' ∷ []) (codes " ") (codes "kB") 1024 (refl, (refl, tt)) (refl, tt) kibi
