-- ===== src/Lm/Log.antt =====
-- lm.h, lm__write_log__ and the calls that direct the log: a module's lock, its buffer and its outputs.

pub mod Lock
use lmalloc.Common.{
  ℕ, ◌+◌, ◌-◌, Bool, true, false, Option, none, some, leb, ◌==◌, ◌&&◌, if◌then◌else◌, not,
}

-- `lm__log_module__`; the name and the bytes of the buffer are left out.
pub record LmLogModule : Type 0 where
  pub lock : Bool
  pub write_to_term : Bool
  pub write_to_file : Bool
  pub file : Option ℕ
  pub buf_size : ℕ

-- What the C library answers during one call, and `errno` where a call fails; `none` for a
-- negative answer. `asserts`: the build keeps assert.
pub record LogCalls : Type 0 where
  pub time_ok : Bool
  pub localtime_ok : Bool
  pub strftime_ret : ℕ
  pub prefix_ret : Option ℕ
  pub message_ret : Option ℕ
  pub dropped_ret : Option ℕ
  pub write_ok : Bool
  pub fwrite_ok : Bool
  pub ferror_ret : ℕ
  pub errno : ℕ
  pub asserts : Bool

abbrev pub enomem : ℕ
enomem = 12

-- A part of the call: it goes on with so many characters in the buffer, leaves with the negative
-- of an error number, or ends the program at an assert.
pub data Step : Type 0 where
  go stop : ℕ → Step
  aborts : Step

-- An answer of snprintf or vsnprintf with `chars` in the buffer; what is done when it does not fit.
unfoldable pub fitting : LogCalls → ℕ → ℕ → Step → Option ℕ → Step
fitting calls size chars too_big none = stop calls.errno
fitting calls size chars too_big (some n) = if leb (size - chars) n then too_big else go (chars + n)

-- `assert(fmt_ret)` and the error behind it
unfoldable pub asserted : LogCalls → Option ℕ → Step
asserted calls none = stop enomem
asserted calls (some n) = if calls.asserts && (n == 0) then aborts else stop enomem

-- The time, the name and the level in front of a message that is not raw.
pub log_prefix : LogCalls → ℕ → Step
unfolding fitting asserted
log_prefix calls size =
    if not calls.time_ok
    then stop calls.errno
    else if not calls.localtime_ok
    then stop calls.errno
    else if calls.strftime_ret == 0
    then asserted calls (some 0)
    else fitting calls size calls.strftime_ret (asserted calls calls.prefix_ret) calls.prefix_ret

-- The message; one that is too big is dropped, and a note takes its place.
pub log_message : LogCalls → ℕ → Step → Step
unfolding fitting asserted
log_message calls size (go chars) =
    let dropped = fitting calls size chars (asserted calls calls.dropped_ret) calls.dropped_ret in
    fitting calls size chars dropped calls.message_ret
log_message calls size s = s

-- What was done by the end of a call: its answer, what was written to a descriptor of the terminal
-- and to the file, by length, and the module.
pub record Logged : Type 0 where
  pub ret : ℕ
  pub to_term : Option (ℕ × ℕ)
  pub to_file : Option ℕ
  pub log : LmLogModule

unlock : LmLogModule → LmLogModule
unlock m = record m { lock = false }

unfoldable pub log_to_file : LogCalls → LmLogModule → Option (ℕ × ℕ) → ℕ → Logged
unfolding unlock
log_to_file calls m term chars =
    if m.write_to_file
    then (if calls.fwrite_ok
        then record { ret = 0; to_term = term; to_file = some chars; log = unlock m }
        else record { ret = calls.ferror_ret; to_term = term; to_file = none; log = unlock m })
    else record { ret = 0; to_term = term; to_file = none; log = unlock m }

-- `is_error`: the level's text starts with E, and the message goes to standard error.
unfoldable pub log_out : LogCalls → Bool → LmLogModule → ℕ → Logged
unfolding log_to_file unlock
log_out calls is_error m chars =
    if m.write_to_term
    then (if calls.write_ok
        then log_to_file calls m (some (if is_error then 2 else 1, chars)) chars
        else record { ret = calls.errno; to_term = none; to_file = none; log = unlock m })
    else log_to_file calls m none chars

log_end : LogCalls → Bool → Bool → LmLogModule → Step → Option Logged
unfolding log_out unlock
log_end calls raw is_error m aborts = none
log_end calls raw is_error m (stop e) =
    some (record { ret = e; to_term = none; to_file = none; log = unlock m })
log_end calls raw is_error m (go chars) =
    some (log_out calls is_error m (if raw then chars else chars + 1))

-- `pthread_mutex_lock` by the thread that runs: `none` if the lock is held, since nothing releases it.
lock_log : LmLogModule → Option LmLogModule
lock_log m = if m.lock then none else some (record m { lock = true })

abbrev pub then_log : {A B : Type 0} → Option A → (A → Option B) → Option B
then_log none f = none
then_log (some a) f = f a

-- `none`: the call does not return. A NULL module answers 0 at once, before `lm_write_log`.
unfoldable pub lm_write_log : LogCalls → Bool → Bool → LmLogModule → Option Logged
unfolding lock_log log_end log_message log_prefix
lm_write_log calls raw is_error m = then_log (lock_log m) λ m'.
    let start = if raw then go 0 else log_prefix calls m'.buf_size in
    log_end calls raw is_error m' (log_message calls m'.buf_size start)

unfoldable pub lm_set_log_file : ℕ → LmLogModule → Option LmLogModule
unfolding lock_log unlock
lm_set_log_file file m =
    then_log (lock_log m) λ m'. some (unlock (record m' { write_to_file = true; file = some file }))

unfoldable pub lm_remove_log_file : LmLogModule → Option LmLogModule
unfolding lock_log unlock
lm_remove_log_file m =
    then_log (lock_log m) λ m'. some (unlock (record m' { write_to_file = false; file = none }))

unfoldable pub lm_enable_log_to_term : LmLogModule → Option LmLogModule
unfolding lock_log unlock
lm_enable_log_to_term m =
    then_log (lock_log m) λ m'. some (unlock (record m' { write_to_term = true }))

-- The last call locks where it should unlock.
unfoldable pub lm_disable_log_to_term : LmLogModule → Option LmLogModule
unfolding lock_log
lm_disable_log_to_term m =
    then_log (lock_log m) λ m'. lock_log (record m' { write_to_term = false })
