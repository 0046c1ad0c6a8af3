-- ===== src/Sdb/MemMap.antt =====
-- sdhs/Sdb.h, Sdb__MemMap__ and SdbMemUnmap: a mapping with the file behind it.
use lmalloc.Common.{
  ℕ, ◌+◌, ◌≡◌, ◌⊎◌, inl, inr, refl, arith, Option-cases, Bool, true, false, Option, none, some,
  List, [], ◌∷◌, ◌==◌, ◌&&◌, ◌||◌, not, if◌then◌else◌,
}

-- `MFd`: below -1, -1, or a descriptor.
pub data MapFd : Type 0 where
  by_name no_file : MapFd
  descriptor : ℕ → MapFd

-- The bits of MFlags, MProt and OFlags that are looked at.
pub record MapFlags : Type 0 where
  pub truncates : Bool
  pub shared : Bool
  pub writes : Bool
  pub anonymous : Bool
  pub private' : Bool

-- What the system answers; `none` is -1, and MAP_FAILED for mmap. On -1 the calls on a descriptor fail.
pub record MapCalls : Type 0 where
  pub open_ret : Option ℕ
  pub ftruncate_ok : Bool
  pub lseek_ok : Bool
  pub mmap_ret : Option ℕ

pub data MapEvent : Type 0 where
  opened closed unmapped : ℕ → MapEvent

-- `Data` and `Fd` of an sdb_mmap, NULL and MAP_FAILED being `none`, with what was done so far, the last first.
pub record SdbMmap : Type 0 where
  pub data' : Option ℕ
  pub fd : Option ℕ
  pub events : List MapEvent

pub data MapStep : Type 0 where
  go error : SdbMmap → MapStep

then_map : MapStep → (SdbMmap → MapStep) → MapStep
then_map (error m) f = error m
then_map (go m) f = f m

close_fd : Option ℕ → SdbMmap → SdbMmap
close_fd none m = m
close_fd (some fd) m = record m { events = closed fd ∷ m.events }

-- `if(Map->Fd != -1) { close(Map->Fd); Map->Fd = -1; }`
drop_fd : SdbMmap → SdbMmap
unfolding close_fd
drop_fd m = record (close_fd m.fd m) { fd = none }

unmap_data : Option ℕ → SdbMmap → SdbMmap
unmap_data none m = m
unmap_data (some p) m = record m { events = unmapped p ∷ m.events }

-- The fields keep their values.
unfoldable pub sdb_mem_unmap : SdbMmap → SdbMmap
unfolding close_fd unmap_data
sdb_mem_unmap m = close_fd m.fd (unmap_data m.data' m)

open_named : Option ℕ → SdbMmap → MapStep
open_named none m = error m
open_named (some fd) m = go (record m { fd = some fd; events = opened fd ∷ m.events })

map_open : MapCalls → MapFd → SdbMmap → MapStep
unfolding open_named
map_open calls by_name m = open_named calls.open_ret m
map_open calls no_file m = go m
map_open calls (descriptor fd) m = go (record m { fd = some fd })

on_fd : Option ℕ → Bool → Bool
on_fd none ok = false
on_fd (some fd) ok = ok

map_size : MapCalls → MapFlags → SdbMmap → MapStep
unfolding on_fd
map_size calls flags m =
    if flags.truncates || (flags.shared && flags.writes)
    then (if not (on_fd m.fd calls.ftruncate_ok)
        then error m
        else if not (on_fd m.fd calls.lseek_ok)
        then error m
        else go m)
    else go m

mapped : MapFlags → Option ℕ → SdbMmap → MapStep
unfolding drop_fd
mapped flags none m = error (record m { data' = none })
mapped flags (some p) m =
    let m' = record m { data' = some p } in go (if flags.private' then drop_fd m' else m')

map_pages : MapCalls → MapFlags → SdbMmap → MapStep
unfolding mapped drop_fd
map_pages calls flags m = mapped flags calls.mmap_ret (if flags.anonymous then drop_fd m else m)

-- `error:`; whether the call answers 0, and the map after it.
map_end : MapStep → Bool × SdbMmap
unfolding sdb_mem_unmap
map_end (go m) = (true, m)
map_end (error m) = (false, sdb_mem_unmap m)

-- `stale` is what `Map->Data` holds before the call. mlock only logs a failure.
unfoldable pub sdb_mem_map : MapCalls → MapFlags → MapFd → Option ℕ → Bool × SdbMmap
unfolding map_end map_open map_size map_pages then_map
sdb_mem_map calls flags m_fd stale =
    let start : SdbMmap = record { data' = stale; fd = none; events = [] } in
    map_end (
      then_map (then_map (map_open calls m_fd start) (map_size calls flags))
        (map_pages calls flags))

-- How often the descriptor was closed.
abbrev pub closes : ℕ → List MapEvent → ℕ
closes fd [] = 0
closes fd (closed g ∷ es) = (if fd == g then 1 else 0) + closes fd es
closes fd (opened g ∷ es) = closes fd es
closes fd (unmapped p ∷ es) = closes fd es

-- A file opened by its name is closed once if the mapping fails, and once if it succeeds with MAP_PRIVATE or
-- MAP_ANONYMOUS, when no descriptor is kept; else it is kept open in the map.
pub sdb_mem_map-closes :
    (calls : MapCalls) (flags : MapFlags) (stale : Option ℕ) (fd : ℕ)
    → calls.open_ret ≡ some fd
    → let (ok, m) = sdb_mem_map calls flags by_name stale in
      ((ok ≡ true)
        × (m.fd ≡ some fd)
        × (closes fd m.events ≡ 0)
        × (flags.private' ≡ false)
        × (flags.anonymous ≡ false))
      ⊎ ((ok ≡ true)
          × (m.fd ≡ none)
          × (closes fd m.events ≡ 1)
          × ((flags.private' || flags.anonymous) ≡ true))
      ⊎ ((ok ≡ false) × (closes fd m.events ≡ 1))
unfolding sdb_mem_map
sdb_mem_map-closes calls flags stale fd e = ground arith

abbrev pub unmaps : ℕ → List MapEvent → ℕ
unmaps p [] = 0
unmaps p (unmapped q ∷ es) = (if p == q then 1 else 0) + unmaps p es
unmaps p (opened g ∷ es) = unmaps p es
unmaps p (closed g ∷ es) = unmaps p es

-- Mapping a file by its name and unmapping it again: a mapping that succeeded is at the place that mmap
-- answered and is unmapped once, and the file that was opened is closed once, whatever the flags are.
pub unmap-map :
    (calls : MapCalls) (flags : MapFlags) (stale : Option ℕ) (fd : ℕ)
    → calls.open_ret ≡ some fd
    → (sdb_mem_map calls flags by_name stale).0 ≡ true
    → let m = (sdb_mem_map calls flags by_name stale).1 in
      (p : ℕ) × (calls.mmap_ret ≡ some p)
      × (m.data' ≡ some p)
      × (unmaps p (sdb_mem_unmap m).events ≡ 1)
      × (closes fd (sdb_mem_unmap m).events ≡ 1)
unfolding sdb_mem_map
unmap-map calls flags stale fd e ok = elim (Option-cases calls.mmap_ret) [
  | inl failed ↦ absurd (ground arith)
  | inr (p, mapped_at) ↦ (p, mapped_at, ground arith, ground arith, ground arith)
]

-- A shared mapping that is written and has no file, MFd being -1, fails, with or without MAP_ANONYMOUS, and whatever the system answers:
-- nothing is opened or mapped; what the map's Data held before the call is unmapped.
pub sdb_mem_map-no_file :
    (calls : MapCalls) (flags : MapFlags) (stale : Option ℕ)
    → flags.shared ≡ true
    → flags.writes ≡ true
    → let (ok, m) = sdb_mem_map calls flags no_file stale in
      (ok ≡ false)
      × (((stale ≡ none) × (m.events ≡ []))
          ⊎ ((p : ℕ) × (stale ≡ some p) × (m.events ≡ unmapped p ∷ [])))
unfolding sdb_mem_map
sdb_mem_map-no_file calls flags none s w = (ground arith, inl (refl, ground arith))
sdb_mem_map-no_file calls flags (some p) s w = (ground arith, inr (p, refl, ground arith))
