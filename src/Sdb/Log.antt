-- ===== src/Sdb/Log.antt =====
-- sdhs/Sdb.h, Sdb__WriteLog__: the log, with the calls of lm.h's in the same order, and its lock.
use lmalloc.Common.{
  ℕ, ◌+◌, ◌≤◌, ◌≡◌, refl, ◌⊎◌, inl, inr, Bool, true, false, Option, none, some, arith,
  if◌then◌else◌, Bool-cases,
}
use lmalloc.Lm.Log.{LogCalls, Step, go, stop, aborts, log_prefix, log_message}
use lmalloc.Lm.Log.Lock.{Inside, IsSized, prefix-Inside, message-Inside}

-- `sdb__log_module__`; the name and the bytes of the buffer are left out.
pub record SdbLogModule : Type 0 where
  pub lock : Bool
  pub buffer_size : ℕ

-- A call's answer (the negative of `ret`), the descriptor and the length written, and the module.
pub record SdbLogged : Type 0 where
  pub ret : ℕ
  pub written : Option (ℕ × ℕ)
  pub log : SdbLogModule

-- From the newline on: only the last exit unlocks.
sdb_log_end : LogCalls → Bool → SdbLogModule → Step → Option SdbLogged
sdb_log_end calls is_error m aborts = none
sdb_log_end calls is_error m (stop e) = some (record { ret = e; written = none; log = m })
sdb_log_end calls is_error m (go chars) =
    if calls.write_ok
    then some (record {
      ret = 0;
      written = some (if is_error then 2 else 1, chars + 1);
      log = record m { lock = false };
    })
    else some (record { ret = calls.errno; written = none; log = m })

-- `none`: the call does not return. A NULL module answers 0 at once, before `sdb_write_log`.
unfoldable pub sdb_write_log : LogCalls → Bool → SdbLogModule → Option SdbLogged
unfolding sdb_log_end
sdb_write_log calls is_error m =
    if m.lock
    then none
    else (let m' = record m { lock = true } in
        let size = m'.buffer_size in
        sdb_log_end calls is_error m' (log_message calls size (log_prefix calls size)))

-- How a call may return: the message was written and the lock is free, or nothing was written, the lock is
-- held, and no later call returns.
abbrev pub Ends : SdbLogModule → SdbLogged → Type 0
Ends m r =
    ((n fd : ℕ) × (r.written ≡ some (fd, n))
      × (n ≤ m.buffer_size)
      × (r.ret ≡ 0)
      × (r.log.lock ≡ false))
    ⊎ ((r.written ≡ none)
        × (r.log.lock ≡ true)
        × ((calls : LogCalls) (is_error : Bool) → sdb_write_log calls is_error r.log ≡ none))

blocks :
    (m : SdbLogModule)
    → m.lock ≡ true
    → (calls : LogCalls) (is_error : Bool) → sdb_write_log calls is_error m ≡ none
unfolding sdb_write_log
blocks m held calls is_error = rw held refl

sdb_log_end-Ends :
    (calls : LogCalls) (is_error : Bool) (m : SdbLogModule) (s : Step)
    → m.lock ≡ true
    → Inside m.buffer_size s
    → (r : SdbLogged) × (sdb_log_end calls is_error m s ≡ some r) × Ends m r
unfolding sdb_log_end
sdb_log_end-Ends calls is_error m aborts held i = elim i [ ]
sdb_log_end-Ends calls is_error m (stop e) held i = (_, refl, inr (refl, held, blocks m held))
sdb_log_end-Ends calls is_error m (go chars) held i = elim (Bool-cases calls.write_ok) [
  | inl ok ↦ rw ok (_, refl, inl (_, _, refl, omega arith, refl, refl))
  | inr failed ↦ rw failed (_, refl, inr (refl, held, blocks m held))
]

-- A call with the lock free, a buffer that the time fits in and notes that are not empty returns. Either the
-- message was written, no longer than the buffer, with answer 0 and the lock free; or nothing was written,
-- the lock stays held, and no later call on the module returns.
pub sdb_write_log_lem :
    (calls : LogCalls) (is_error : Bool) (m : SdbLogModule)
    → m.lock ≡ false
    → IsSized calls m.buffer_size
    → (r : SdbLogged) × (sdb_write_log calls is_error m ≡ some r) × Ends m r
unfolding sdb_write_log
sdb_write_log_lem calls is_error m free v =
    let size = m.buffer_size in
    let (r, e, ends) =
      sdb_log_end-Ends calls is_error (record m { lock = true }) _ refl
        (message-Inside calls size _ v (prefix-Inside calls size v)) in
    (r, rw free e, ends)
