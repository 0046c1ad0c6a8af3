-- ===== src/Postgres/Insert.antt =====
-- sdhs/DatabaseSystems/Postgres.c, PgInsertData: the transaction around the rows.
use lmalloc.Common.{ℕ, ◌+◌, Bool, true, false, List, [], ◌∷◌, ◌++◌, if◌then◌else◌, not, Bytes}
use lmalloc.Postgres.{PgTableInfo, convert_rows}

-- What the library answers to each command, and whether the scratch arena has room for the buffer.
pub record PgCalls : Type 0 where
  pub begin_ok : Bool
  pub copy_ok : Bool
  pub header_ok : Bool
  pub room : Bool
  pub rows_ok : Bool
  pub end_ok : Bool
  pub result_ok : Bool
  pub finish_ok : Bool

-- What is sent; `copy_end` with whether it ends without an error message.
pub data PgCommand : Type 0 where
  begin copy header commit rollback : PgCommand
  rows : List ℕ → PgCommand
  copy_end : Bool → PgCommand

-- Whether the call answers 0, and what it sent, in order.
pub record Inserted : Type 0 where
  pub ok : Bool
  pub sent : List PgCommand

-- `cleanup:`, with whether no error was seen so far, and what was sent so far.
pg_cleanup : PgCalls → Bool → List PgCommand → Inserted
pg_cleanup calls ok sent =
    let ended = if calls.end_ok then ok else false in
    let done = if calls.result_ok then ended else false in
    record {
      ok = if calls.finish_ok then done else false;
      sent = sent ++ (copy_end ok ∷ (if done then commit else rollback) ∷ []);
    }

-- From the buffer on. Without room for it no error is noted.
pg_send_rows : PgCalls → List ℕ → Inserted
unfolding pg_cleanup
pg_send_rows calls converted =
    let sent = begin ∷ copy ∷ header ∷ [] in
    if not calls.room
    then pg_cleanup calls true sent
    else pg_cleanup calls calls.rows_ok (sent ++ (rows converted ∷ []))

unfoldable pub pg_insert_data : PgCalls → PgTableInfo → Bytes → ℕ → ℕ → Inserted
unfolding pg_send_rows pg_cleanup
pg_insert_data calls ti m data' item_count =
    if not calls.begin_ok
    then record { ok = false; sent = begin ∷ [] }
    else if not calls.copy_ok
    then record { ok = false; sent = begin ∷ copy ∷ rollback ∷ [] }
    else if not calls.header_ok
    then pg_cleanup calls false (begin ∷ copy ∷ header ∷ [])
    else pg_send_rows calls (convert_rows ti m data' item_count 0)

-- How often a transaction was committed, and rolled back.
abbrev pub commits : List PgCommand → ℕ
commits [] = 0
commits (commit ∷ cs) = 1 + commits cs
commits (_ ∷ cs) = commits cs

abbrev pub rollbacks : List PgCommand → ℕ
rollbacks [] = 0
rollbacks (rollback ∷ cs) = 1 + rollbacks cs
rollbacks (_ ∷ cs) = rollbacks cs
