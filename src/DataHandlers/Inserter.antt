-- ===== src/DataHandlers/Inserter.antt =====
-- sdhs/DataHandlers/ModbusWithPostgres/Postgres.c, PgRun: from the pipe's buffers to the database.
use lmalloc.Common.{
  ℕ, ◌+◌, ◌/◌, ◌≤◌, ◌≡◌, ◌↔◌, ◌⊎◌, ◌<◌, inl, inr, leb, Bool-cases, refl, Bool, true, false, List,
  [], ◌∷◌, arith, ltb, leb, not, ◌&&◌, if◌then◌else◌,
}

-- The event that epoll_wait filled in: EPOLLERR or EPOLLHUP, and EPOLLIN.
pub record EpollEvents : Type 0 where
  pub error_or_hup : Bool
  pub readable : Bool

-- What epoll_wait answers. After a time-out the events hold what they held.
pub data EpollWait : Type 0 where
  interrupted : EpollWait
  wait_failed : ℕ → EpollWait
  timed_out ready : EpollEvents → EpollWait

-- The answer (the negative of `ret`), the counters, and whether the loop goes on.
pub record PgState : Type 0 where
  pub ret : ℕ
  pub pg_fail_counter : ℕ
  pub timeout_counter : ℕ
  pub total_inserted_items : ℕ
  pub running : Bool

abbrev pub break_on_count : ℕ
break_on_count = 10_000

abbrev pub eio : ℕ
eio = 5

abbrev pub etimedout : ℕ
etimedout = 110

-- A failed insertion is counted, and the fifth leaves the loop over the buffers.
after_insert : Bool → PgState → PgState → PgState
after_insert ok s rest =
    if ok then rest else if leb 5 s.pg_fail_counter then record s { ret = 1 } else rest

-- The loop over the buffers of the pipe: where each is filled to, and whether PgInsertData answers 0. It ends when the pipe answers NULL.
unfoldable pub pg_buffers : ℕ → List (ℕ × Bool) → PgState → PgState
unfolding after_insert
pg_buffers packet_size [] s = s
pg_buffers packet_size ((pos, ok) ∷ bs) s =
    let s1 = record s { total_inserted_items = s.total_inserted_items + pos / packet_size } in
    let s2 = if ok then s1 else record s1 { pg_fail_counter = s1.pg_fail_counter + 1 } in
    let rest = pg_buffers packet_size bs s2 in
    if leb break_on_count s1.total_inserted_items then s1 else after_insert ok s2 rest

-- From the events on.
unfoldable pub pg_events : ℕ → EpollEvents → List (ℕ × Bool) → PgState → PgState
unfolding pg_buffers
pg_events packet_size events bs s =
    if events.error_or_hup
    then record s { ret = eio; running = false }
    else if events.readable
    then pg_buffers packet_size bs s
    else s

-- One round. The fifth time-out sets the answer and goes on to the events.
unfoldable pub pg_step : ℕ → EpollWait → List (ℕ × Bool) → PgState → PgState
unfolding pg_events
pg_step packet_size interrupted bs s = s
pg_step packet_size (wait_failed errno) bs s = record s { ret = errno; running = false }
pg_step packet_size (ready events) bs s = pg_events packet_size events bs s
pg_step packet_size (timed_out events) bs s =
    let s1 = record s { timeout_counter = s.timeout_counter + 1 } in
    if leb 5 s1.timeout_counter
    then pg_events packet_size events bs (record s1 { ret = etimedout })
    else s1

-- The test of the loop, with whether a shutdown was asked for, unless a break has left it.
unfoldable pub goes_on : Bool → PgState → Bool
goes_on shutdown s = s.running && (not shutdown && ltb s.total_inserted_items break_on_count)

-- The loop, with what each round meets: whether a shutdown was asked for before it, the answer of epoll_wait, and the buffers.
unfoldable pub pg_run : ℕ → List (Bool × EpollWait × List (ℕ × Bool)) → PgState → PgState
unfolding pg_step goes_on
pg_run packet_size [] s = s
pg_run packet_size ((shutdown, wait, bs) ∷ rounds) s =
    let rest = pg_run packet_size rounds (pg_step packet_size wait bs s) in
    if goes_on shutdown s then rest else s

pg_buffers-running :
    (size : ℕ) (bs : List (ℕ × Bool)) (s : PgState) → (pg_buffers size bs s).running ≡ s.running
unfolding pg_buffers
pg_buffers-running size [] s = refl
pg_buffers-running size ((pos, true) ∷ bs) s =
    let ih =
      pg_buffers-running size bs
        (record s { total_inserted_items = s.total_inserted_items + pos / size }) in
    ground arith
pg_buffers-running size ((pos, false) ∷ bs) s =
    let ih = pg_buffers-running size bs (record s {
      total_inserted_items = s.total_inserted_items + pos / size;
      pg_fail_counter = s.pg_fail_counter + 1;
    }) in
    ground arith

-- What ends the loop from inside a round.
abbrev pub Ends : EpollWait → ℕ → Type 0
Ends interrupted timeouts = ⊥
Ends (wait_failed errno) timeouts = Unit {0}
Ends (ready events) timeouts = events.error_or_hup ≡ true
Ends (timed_out events) timeouts = (4 ≤ timeouts) × (events.error_or_hup ≡ true)

-- Whether the buffers that a round counts bring the items to the limit: they are read one by one, and counted whether or not their insertion succeeds,
-- until the limit or the fifth failure.
abbrev pub ReachesLimit : ℕ → ℕ → ℕ → List (ℕ × Bool) → Type 0
ReachesLimit size total failures [] = break_on_count ≤ total
ReachesLimit size total failures ((pos, true) ∷ bs) =
    (break_on_count ≤ total + pos / size) ⊎ ReachesLimit size (total + pos / size) failures bs
ReachesLimit size total failures ((pos, false) ∷ bs) =
    (break_on_count ≤ total + pos / size)
    ⊎ ((failures < 4) × ReachesLimit size (total + pos / size) (failures + 1) bs)

-- Whether a round looks at buffers that bring the items to the limit.
abbrev pub Fills : ℕ → EpollWait → List (ℕ × Bool) → PgState → Type 0
Fills size interrupted bs s = ⊥
Fills size (wait_failed errno) bs s = ⊥
Fills size (ready events) bs s =
    (events.readable ≡ true) × ReachesLimit size s.total_inserted_items s.pg_fail_counter bs
Fills size (timed_out events) bs s =
    (4 ≤ s.timeout_counter)
    × (events.readable ≡ true)
    × ReachesLimit size s.total_inserted_items s.pg_fail_counter bs

pg_buffers-ReachesLimit :
    (size : ℕ) (bs : List (ℕ × Bool)) (s : PgState)
    → (break_on_count ≤ (pg_buffers size bs s).total_inserted_items)
      ↔ ReachesLimit size s.total_inserted_items s.pg_fail_counter bs
unfolding pg_buffers
pg_buffers-ReachesLimit size [] s = (λ e. e, λ e. e)
pg_buffers-ReachesLimit size ((pos, true) ∷ bs) s =
    let (to, from) =
      pg_buffers-ReachesLimit size bs
        (record s { total_inserted_items = s.total_inserted_items + pos / size }) in
    elim (Bool-cases (leb break_on_count (s.total_inserted_items + pos / size))) [
      | inl full ↦ (λ e. inl (ground arith), λ e. ground arith)
      | inr room ↦ (
        λ e. inr (to (ground arith)),
        λ e. elim e [ inl h ↦ absurd (ground arith) | inr h ↦ rw room (from h) ],
      )
    ]
pg_buffers-ReachesLimit size ((pos, false) ∷ bs) s =
    let (to, from) = pg_buffers-ReachesLimit size bs (record s {
      total_inserted_items = s.total_inserted_items + pos / size;
      pg_fail_counter = s.pg_fail_counter + 1;
    }) in
    elim (Bool-cases (leb break_on_count (s.total_inserted_items + pos / size))) [
      | inl full ↦ (λ e. inl (ground arith), λ e. ground arith)
      | inr room ↦ elim (Bool-cases (leb 5 (s.pg_fail_counter + 1))) [
        | inl last ↦ (
          λ e. absurd (ground arith),
          λ e. elim e [ inl h ↦ absurd (ground arith) | inr (h, _) ↦ absurd (ground arith) ],
        )
        | inr more ↦ (
          λ e. inr (ground arith, to (ground arith)),
          λ e. elim e [ inl h ↦ absurd (ground arith) | inr (_, h) ↦ rw room (rw more (from h)) ],
        )
      ]
    ]

pg_events-goes_on :
    (size : ℕ) (events : EpollEvents) (bs : List (ℕ × Bool)) (s : PgState)
    → goes_on false s ≡ true
    → (goes_on false (pg_events size events bs s) ≡ false) ↔ (
        (events.error_or_hup ≡ true)
        ⊎ ((events.readable ≡ true)
            × ReachesLimit size s.total_inserted_items s.pg_fail_counter bs))
unfolding pg_events goes_on
pg_events-goes_on size events bs s on =
    let r = pg_buffers-running size bs s in
    let (to, from) = pg_buffers-ReachesLimit size bs s in
    elim (Bool-cases events.error_or_hup) [
      | inl bad ↦ (λ e. inl bad, λ e. ground arith)
      | inr good ↦ elim (Bool-cases events.readable) [
        | inl readable ↦ (
          λ e. inr (readable, to (ground arith)),
          λ e. elim e [
            | inl h ↦ absurd (ground arith)
            | inr (_, h) ↦ (let full = from h in ground arith)
          ],
        )
        | inr nothing ↦ (
          λ e. absurd (ground arith),
          λ e. elim e [ inl h ↦ absurd (ground arith) | inr (h, _) ↦ absurd (ground arith) ],
        )
      ]
    ]

-- A round that the loop begins, with items below the limit, is its last, when no shutdown is asked for, exactly when epoll_wait fails and was not interrupted,
-- when the events that it looks at say error or hang-up, or when the buffers that it reads bring the items that were counted to the limit. Neither five
-- failed insertions nor five time-outs end the loop by themselves.
pub pg_step-Ends_iff :
    (size : ℕ) (wait : EpollWait) (bs : List (ℕ × Bool)) (s : PgState)
    → goes_on false s ≡ true
    → (goes_on false (pg_step size wait bs s) ≡ false)
      ↔ (Ends wait s.timeout_counter ⊎ Fills size wait bs s)
unfolding pg_step goes_on
pg_step-Ends_iff size interrupted bs s on =
    (λ e. absurd (ground arith), λ e. elim e [ inl h ↦ elim h [ ] | inr h ↦ elim h [ ] ])
pg_step-Ends_iff size (wait_failed errno) bs s on = (λ e. inl tt, λ e. refl)
pg_step-Ends_iff size (ready events) bs s on = pg_events-goes_on size events bs s on
pg_step-Ends_iff size (timed_out events) bs s on =
    let (to, from) =
      pg_events-goes_on size events bs
        (record s { timeout_counter = s.timeout_counter + 1; ret = etimedout }) on in
    elim (Bool-cases (leb 5 (s.timeout_counter + 1))) [
      | inl last ↦
          let late : 4 ≤ s.timeout_counter = ground arith in
          rw last (
            λ e. elim (to e) [ inl h ↦ inl (late, h) | inr (r, h) ↦ inr (late, r, h) ],
            λ e. elim e [ inl (_, h) ↦ from (inl h) | inr (_, r, h) ↦ from (inr (r, h)) ],
          )
      | inr more ↦ (
        λ e. absurd (ground arith),
        λ e. elim e [ inl (h, _) ↦ absurd (ground arith) | inr (h, _, _) ↦ absurd (ground arith) ],
      )
    ]
