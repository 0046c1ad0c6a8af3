-- ===== src/Sdb/Strings/Free.antt =====
-- sdhs/Sdb.h, SdbStringMake and SdbStringFree over u_arena.c: what freeing gives back.
use lmalloc.Common.{
  ℕ, ◌+◌, ◌≤◌, ◌<◌, ◌^◌, ◌≡◌, refl, ap, ◌∙◌, Option, some, arith, put, add_size, word_mod, length,
}
use lmalloc.UArena.{ua_alloc, ua_pop}
use lmalloc.Lm.Strings.{LmWorld}
use lmalloc.SdhsArena.{u_arena, Timer, ticked, u_answer}
use lmalloc.SdhsArena.Agree.{record_time-room}
use lmalloc.Wrappers.{Timing, answer_timed, ua_alloc_timed}
use lmalloc.Sdb.Strings.{sdb_string_make_from, sdb_string_fill, sdb_string_free, then_do}

-- The world after the string was made in an arena with room.
new_world : Option ℕ → ℕ → ℕ → LmWorld → LmWorld
new_world init len a w =
    let arena = w.arenas a in
    let p = arena.mem + arena.cur in
    (sdb_string_fill u_arena init len a p
      (record w { arenas = put w.arenas a (record arena { cur = arena.cur + (24 + len + 1) }) })).1

make-new_world :
    (init : Option ℕ) (len a : ℕ) (w : LmWorld) (t : Timer)
    → t.timing.tcoll.cur < length t.timing.tcoll.arr
    → (w.arenas a).cur + 24 + len + 1 ≤ (w.arenas a).cap
    → (w.arenas a).cap < word_mod
    → 0 < (w.arenas a).mem
    → (t' : Timer) × (sdb_string_make_from u_arena init len a w t
        ≡ some ((w.arenas a).mem + (w.arenas a).cur + 24, new_world init len a w, t'))
unfolding sdb_string_make_from ua_alloc_timed ua_alloc new_world sdb_string_fill
make-new_world init len a w t room fits small placed =
    let n = add_size (add_size 24 len) 1 in
    let (timing, e, _, _) = record_time-room (t.readings 0).0 (t.readings 0).1 t.timing room in
    let made : Option Timing → Option (ℕ × LmWorld × Timer) = λ o.
      then_do (u_answer (answer_timed (ua_alloc (w.arenas a) n) o) t) λ (ptr, s, t').
        let (string, w') =
          sdb_string_fill u_arena init len a ptr (record w { arenas = put w.arenas a s }) in
        some (string, w', t') in
    (ticked timing t, ap made e ∙ ground arith)

free-new_world :
    (init : Option ℕ) (len a : ℕ) (w : LmWorld)
    → (w.arenas a).cur + 24 + len + 1 ≤ (w.arenas a).cap
    → (w.arenas a).cap < 2 ^ 63
    → 0 < (w.arenas a).mem
    → (w2 : LmWorld) × (sdb_string_free u_arena
          ((w.arenas a).mem + (w.arenas a).cur + 24)
          (new_world init len a w)
        ≡ some w2)
      × ((w2.arenas a).cur ≡ (w.arenas a).cur)
      × (w2.bytes ≡ (new_world init len a w).bytes)
unfolding sdb_string_free new_world sdb_string_fill ua_pop
free-new_world init len a w fits small placed =
    let nw = new_world init len a w in
    let size : add_size (add_size 24 len) 1 ≡ 24 + len + 1 = omega arith in
    let popped : ℕ → LmWorld =
      λ n. record nw { arenas = put nw.arenas a (ua_pop (nw.arenas a) n) } in
    let step : sdb_string_free u_arena ((w.arenas a).mem + (w.arenas a).cur + 24) nw
        ≡ some (popped (add_size (add_size 24 len) 1)) =
      ground arith in
    (popped (24 + len + 1), step ∙ ap (λ n. some (popped n)) size, ground arith, refl)

-- A string made of `len` bytes, with or without a text, in an arena with room, of capacity below 2^63 and not at
-- address 0, with room for the time that the allocation takes, and freed again while nothing was allocated behind it: both calls go through, and the arena's cursor is back where
-- it was.
pub free-make :
    (init : Option ℕ) (len a : ℕ) (w : LmWorld) (t : Timer)
    → t.timing.tcoll.cur < length t.timing.tcoll.arr
    → (w.arenas a).cur + 24 + len + 1 ≤ (w.arenas a).cap
    → (w.arenas a).cap < 2 ^ 63
    → 0 < (w.arenas a).mem
    → (string : ℕ) × (w1 w2 : LmWorld) × (t' : Timer) × (sdb_string_make_from u_arena init len a w t
        ≡ some (string, w1, t'))
      × (sdb_string_free u_arena string w1 ≡ some w2)
      × ((w2.arenas a).cur ≡ (w.arenas a).cur)
free-make init len a w t room fits small placed =
    let (w2, freed, back, _) = free-new_world init len a w fits small placed in
    let (t', made) = make-new_world init len a w t room fits (omega arith) placed in
    (_, _, w2, t', made, freed, back)
