-- ===== src/Sdb/Arena/Pool.antt =====
-- sdhs/Sdb.h, SDB_POOL_ALLOCATOR_DEFINE: a pool of structs of one size, with a list of those that
-- were given back.
use lmalloc.Common.{
  ℕ, ◌+◌, ◌≤◌, ◌<◌, ◌≡◌, ◌≢◌, refl, ap, sym, ◌∙◌, List, [], ◌∷◌, Option, none, some, arith,
  word_mod, ◌==◌, not, if◌then◌else◌, put, subst,
}
use lmalloc.Sdb.Arena.{SdbArena, sdb_arena_push}

-- The pool: its arena and the head of the list of free instances, 0 being NULL. `next` holds the Next field
-- of each instance, by its address; the other bytes of the structs are left out.
pub record Pool : Type 0 where
  pub arena : SdbArena
  pub first_free : ℕ
  pub next : ℕ → ℕ

-- The instance that SdbPushStructZero answered.
push_instance : Pool → Option ℕ × SdbArena → Option ℕ × Pool
push_instance pool (none, arena) = (none, record pool { arena = arena })
push_instance pool (some p, arena) =
    (some p, record pool { arena = arena; next = put pool.next p 0 })

-- `func_name##Alloc`, for a type of `size` bytes; the instance is zeroed, its Next too.
unfoldable pub pool_alloc : ℕ → Pool → Option ℕ × Pool
unfolding push_instance
pool_alloc size pool =
    let result = pool.first_free in
    if not (result == 0)
    then (some result, record pool { first_free = pool.next result; next = put pool.next result 0 })
    else push_instance pool (sdb_arena_push pool.arena size)

-- `func_name##Release`
unfoldable pub pool_release : ℕ → Pool → Pool
pool_release instance' pool = record pool {
  next = put pool.next instance' pool.first_free;
  first_free = instance';
}

-- The list from `head` on by the Next fields is `free`.
abbrev pub Chain : (ℕ → ℕ) → ℕ → List ℕ → Type 0
Chain next head [] = head ≡ 0
Chain next head (p ∷ free) = (head ≡ p) × (p ≢ 0) × Chain next (next p) free

-- `p` stands in none of the list.
abbrev pub Absent : ℕ → List ℕ → Type 0
Absent p [] = Unit {0}
Absent p (q ∷ qs) = (p ≢ q) × Absent p qs

abbrev pub Distinct : List ℕ → Type 0
Distinct [] = Unit {0}
Distinct (p ∷ ps) = Absent p ps × Distinct ps

-- Each instance lies in the part of the arena that is in use.
abbrev pub AllPushed : SdbArena → List ℕ → Type 0
AllPushed arena [] = Unit {0}
AllPushed arena (p ∷ ps) = (arena.mem ≤ p) × (p < arena.mem + arena.cur) × AllPushed arena ps

abbrev Disjoint : List ℕ → List ℕ → Type 0
Disjoint [] qs = Unit {0}
Disjoint (p ∷ ps) qs = Absent p qs × Disjoint ps qs

-- The instances of the pool: those that are out and those that are free are all different, and all were
-- pushed to the arena, whose memory is not at address 0.
pub record IsPool (pool : Pool) (out free : List ℕ) : Type 0 where
  pub chain : Chain pool.next pool.first_free free
  pub out_distinct : Distinct out
  pub free_distinct : Distinct free
  pub apart : Disjoint free out
  pub out_pushed : AllPushed pool.arena out
  pub free_pushed : AllPushed pool.arena free
  pub placed : 0 < pool.arena.mem
  pub within : pool.arena.cur ≤ pool.arena.cap
  pub in_space : pool.arena.mem + pool.arena.cap < word_mod

put-Chain :
    (next : ℕ → ℕ) (head p v : ℕ) (free : List ℕ)
    → Absent p free
    → Chain next head free
    → Chain (put next p v) head free
put-Chain next head p v [] a c = c
put-Chain next head p v (q ∷ free) (ne, a) (is, nz, c) =
    let e : next q ≡ put next p v q = ground arith in
    (is, nz, subst (λ h. Chain (put next p v) h free) e (put-Chain next (next q) p v free a c))

pushed-Absent :
    (arena : SdbArena) (p : ℕ) (ps : List ℕ)
    → arena.mem + arena.cur ≤ p
    → AllPushed arena ps
    → Absent p ps
pushed-Absent arena p [] le all = tt
pushed-Absent arena p (q ∷ ps) le (_, lt, all) = (ground arith, pushed-Absent arena p ps le all)

AllPushed-grow :
    (arena : SdbArena) (size : ℕ) (ps : List ℕ)
    → AllPushed arena ps
    → AllPushed (record arena { cur = arena.cur + size }) ps
AllPushed-grow arena size [] all = tt
AllPushed-grow arena size (q ∷ ps) (lo, lt, all) =
    (lo, omega arith, AllPushed-grow arena size ps all)

Disjoint-cons : (p : ℕ) (ps qs : List ℕ) → Absent p ps → Disjoint ps qs → Disjoint ps (p ∷ qs)
Disjoint-cons p [] qs a d = tt
Disjoint-cons p (q ∷ ps) qs (ne, a) (e, d) = (((λ h. ne (sym h)), e), Disjoint-cons p ps qs a d)

Disjoint-tail : (p : ℕ) (ps qs : List ℕ) → Disjoint ps (p ∷ qs) → Absent p ps × Disjoint ps qs
Disjoint-tail p [] qs d = (tt, tt)
Disjoint-tail p (q ∷ ps) qs ((ne, e), d) =
    let (a, d') = Disjoint-tail p ps qs d in (((λ h. ne (sym h)), a), (e, d'))

alloc-free :
    (size : ℕ) (pool : Pool) (out free : List ℕ) (p : ℕ)
    → IsPool pool out (p ∷ free)
    → (pool' : Pool) × (pool_alloc size pool ≡ (some p, pool')) × IsPool pool' (p ∷ out) free
unfolding pool_alloc
alloc-free size pool out free p v =
    let (is, nz, rest) = v.chain in
    let (fresh, distinct) = v.free_distinct in
    let (absent, apart) = v.apart in
    let (lo, lt, pushed) = v.free_pushed in
    (
      record pool { first_free = pool.next p; next = put pool.next p 0 },
      (let step : pool_alloc size pool ≡ (
        some pool.first_free,
        record pool {
          first_free = pool.next pool.first_free;
          next = put pool.next pool.first_free 0;
        },
      ) =
            ground arith in
          step
          ∙ ap (λ h. (some h, record pool { first_free = pool.next h; next = put pool.next h 0 }))
              is),
      record {
        chain = put-Chain pool.next (pool.next p) p 0 free fresh rest;
        out_distinct = (absent, v.out_distinct);
        free_distinct = distinct;
        apart = Disjoint-cons p free out fresh apart;
        out_pushed = (lo, lt, v.out_pushed);
        free_pushed = pushed;
        placed = v.placed;
        within = v.within;
        in_space = v.in_space;
      },
    )

-- With none free and room in the arena an allocation answers an instance that is different from all that
-- are out.
pub alloc-push :
    (size : ℕ) (pool : Pool) (out : List ℕ)
    → IsPool pool out []
    → 0 < size
    → pool.arena.cur + size ≤ pool.arena.cap
    → (p : ℕ) × (pool' : Pool) × (pool_alloc size pool ≡ (some p, pool'))
      × IsPool pool' (p ∷ out) []
unfolding pool_alloc sdb_arena_push push_instance
alloc-push size pool out v pos fits =
    let none_free = v.chain in
    let p = pool.arena.mem + pool.arena.cur in
    let arena' : SdbArena = record pool.arena { cur = pool.arena.cur + size } in
    (
      p,
      record pool { arena = arena'; next = put pool.next p 0 },
      (let i = v.in_space in ground arith),
      record {
        chain = v.chain;
        out_distinct = (pushed-Absent pool.arena p out (omega arith) v.out_pushed, v.out_distinct);
        free_distinct = tt;
        apart = tt;
        out_pushed = (omega arith, omega arith, AllPushed-grow pool.arena size out v.out_pushed);
        free_pushed = tt;
        placed = v.placed;
        within = fits;
        in_space = v.in_space;
      },
    )

release-IsPool :
    (pool : Pool) (out free : List ℕ) (p : ℕ)
    → IsPool pool (p ∷ out) free
    → IsPool (pool_release p pool) out (p ∷ free)
unfolding pool_release
release-IsPool pool out free p v =
    let (absent, distinct) = v.out_distinct in
    let (lo, lt, pushed) = v.out_pushed in
    let (fresh, apart) = Disjoint-tail p free out v.apart in
    let head : pool.first_free ≡ put pool.next p pool.first_free p = ground arith in
    let chain = put-Chain pool.next pool.first_free p pool.first_free free fresh v.chain in
    record {
      chain = (
        refl,
        (let pl = v.placed in λ z. absurd (omega arith)),
        subst (λ h. Chain (put pool.next p pool.first_free) h free) head chain,
      );
      out_distinct = distinct;
      free_distinct = (fresh, v.free_distinct);
      apart = (absent, apart);
      out_pushed = pushed;
      free_pushed = (lo, lt, v.free_pushed);
      placed = v.placed;
      within = v.within;
      in_space = v.in_space;
    }

-- Giving back an instance that is out, in a pool whose instances are out or free, all different and all pushed to
-- its arena: the instance becomes free, the pool stays such a pool, and the next allocation answers that
-- instance again and leaves the same instances out and free as before.
pub alloc-release :
    (size : ℕ) (pool : Pool) (out free : List ℕ) (p : ℕ)
    → IsPool pool (p ∷ out) free
    → (pool' : Pool) × IsPool (pool_release p pool) out (p ∷ free)
      × (pool_alloc size (pool_release p pool) ≡ (some p, pool'))
      × IsPool pool' (p ∷ out) free
alloc-release size pool out free p v =
    let back = release-IsPool pool out free p v in
    let (pool', e, v') = alloc-free size (pool_release p pool) out free p back in
    (pool', back, e, v')
