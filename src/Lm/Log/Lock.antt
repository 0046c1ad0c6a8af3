-- ===== src/Lm/Log/Lock.antt =====
-- lm.h, the lock of a log module: which calls return, and with it released.
use lmalloc.Common.{
  ℕ, ◌≤◌, ◌<◌, ◌≡◌, ◌≢◌, Bool, true, false, Option, none, some, arith, inl, inr, Bool-cases, leb,
  ◌-◌, ◌==◌, ◌&&◌, ap, sym, ◌∙◌,
}
use lmalloc.Lm.Log.{
  LmLogModule, LogCalls, Logged, Step, go, stop, aborts, lm_set_log_file, lm_remove_log_file,
  lm_enable_log_to_term, lm_disable_log_to_term, fitting, asserted, log_prefix, log_message,
  then_log, lock_log,
}

-- A part that does not end the program, with its characters in front of the last byte of the buffer.
abbrev pub Inside : ℕ → Step → Type 0
Inside size (go chars) = chars < size
Inside size (stop e) = Unit {0}
Inside size aborts = ⊥

-- strftime answers a length that fits, as documented, and the time and the notes are not empty.
pub record IsSized (calls : LogCalls) (size : ℕ) : Type 0 where
  pub time_written : calls.strftime_ret ≢ 0
  pub time_fits : calls.strftime_ret < size
  pub prefix_written : calls.prefix_ret ≢ some 0
  pub dropped_written : calls.dropped_ret ≢ some 0

fitting-Inside :
    (calls : LogCalls) (size chars : ℕ) (s : Step) (r : Option ℕ)
    → chars < size
    → Inside size s
    → Inside size (fitting calls size chars s r)
unfolding fitting
fitting-Inside calls size chars s none lt i = tt
fitting-Inside calls size chars s (some n) lt i = elim (Bool-cases (leb (size - chars) n)) [
  | inl big ↦ rw big i
  | inr fits ↦ rw fits (ground arith)
]

asserted-Inside :
    (calls : LogCalls) (size : ℕ) (r : Option ℕ) → r ≢ some 0 → Inside size (asserted calls r)
unfolding asserted
asserted-Inside calls size none h = tt
asserted-Inside calls size (some n) h = elim (Bool-cases (calls.asserts && (n == 0))) [
  | inl ends ↦ absurd (h (ap some (ground arith)))
  | inr goes ↦ rw goes tt
]

pub prefix-Inside :
    (calls : LogCalls) (size : ℕ) → IsSized calls size → Inside size (log_prefix calls size)
unfolding log_prefix
prefix-Inside calls size v = elim (Bool-cases calls.time_ok) [
  | inr none_got ↦ rw none_got tt
  | inl t ↦ rw t (elim (Bool-cases calls.localtime_ok) [
    | inr none_got ↦ rw none_got tt
    | inl l ↦ rw l (elim (Bool-cases (calls.strftime_ret == 0)) [
      | inl empty ↦ absurd (v.time_written (ground arith))
      | inr filled ↦ rw filled (
          fitting-Inside calls size calls.strftime_ret _ calls.prefix_ret v.time_fits
            (asserted-Inside calls size calls.prefix_ret v.prefix_written))
    ])
  ])
]

pub message-Inside :
    (calls : LogCalls) (size : ℕ) (s : Step)
    → IsSized calls size
    → Inside size s
    → Inside size (log_message calls size s)
unfolding log_message
message-Inside calls size (go chars) v i = fitting-Inside calls size chars _ calls.message_ret i (
    fitting-Inside calls size chars _ calls.dropped_ret i
      (asserted-Inside calls size calls.dropped_ret v.dropped_written))
message-Inside calls size (stop e) v i = tt
message-Inside calls size aborts v i = elim i [ ]

-- A call that returned with the lock released and the module unchanged, and wrote no more bytes than its buffer has.
pub record Returned (m : LmLogModule) (r : Logged) : Type 0 where
  pub same : r.log ≡ m
  pub term_in : (fd n : ℕ) → r.to_term ≡ some (fd, n) → n ≤ m.buf_size
  pub file_in : (n : ℕ) → r.to_file ≡ some n → n ≤ m.buf_size

locked :
    {B : Type 0} (m : LmLogModule)
    → m.lock ≡ false
    → (f : LmLogModule → Option B) → then_log (lock_log m) f ≡ f (record m { lock = true })
unfolding lock_log
locked m free f = rw free

-- When the lock is free, setting or removing the file and turning the terminal on change what they name and
-- leave the lock free; `lm__disable_log_to_term__` does not return.
pub log_directed :
    (file : ℕ) (m : LmLogModule)
    → m.lock ≡ false
    → (lm_set_log_file file m ≡ some (record m { write_to_file = true; file = some file }))
      × (lm_remove_log_file m ≡ some (record m { write_to_file = false; file = none }))
      × (lm_enable_log_to_term m ≡ some (record m { write_to_term = true }))
      × (lm_disable_log_to_term m ≡ none)
unfolding lm_set_log_file lm_remove_log_file lm_enable_log_to_term lm_disable_log_to_term lock_log
log_directed file m free =
    let back = λ (f : Bool → LmLogModule). ap (λ b. some (f b)) (sym free) in
    (
      locked m free _ ∙ back (λ b. record m { lock = b; write_to_file = true; file = some file }),
      locked m free _ ∙ back (λ b. record m { lock = b; write_to_file = false; file = none }),
      locked m free _ ∙ back (λ b. record m { lock = b; write_to_term = true }),
      ground arith,
    )
