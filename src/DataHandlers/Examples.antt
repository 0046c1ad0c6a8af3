-- ===== src/DataHandlers/Examples.antt =====
-- sdhs/DataHandlers/ModbusWithPostgres: concrete runs, and the theorems at concrete inputs.
use lmalloc.Common.{ℕ, ◌≡◌, ◌≢◌, ◌↔◌, ◌⊎◌, refl, replicate, true, false, List, [], ◌∷◌, arith}
use lmalloc.Modbus.{mb_parse_tcp_frame}
use lmalloc.DataHandlers.Receiver.{
  SocketRecv, recv_timed_out, recv_failed, got, reconnect, packet, MbState, mb_round, mb_run,
}
use lmalloc.DataHandlers.Packets.{InStep, packet-reconnect}
use lmalloc.DataHandlers.Frames.{AllStay, rounds, mb_run-InStep}
use lmalloc.DataHandlers.Inserter.{
  timed_out, EpollEvents, PgState, Ends, Fills, goes_on, pg_step, pg_run, pg_step-Ends_iff,
}

abbrev no_bytes : ℕ → List ℕ
no_bytes i = []

-- Before the first packet.
abbrev start : MbState
start = record { buffers = no_bytes; write_buf_idx = 0; cur_buf = 0; handed = [] }

-- A frame of unit 1 with two bytes of data.
frame :
    mb_round 2 (got (0 ∷ 0 ∷ 0 ∷ 0 ∷ 0 ∷ 5 ∷ 1 ∷ [])) (got (3 ∷ 2 ∷ 7 ∷ 8 ∷ 0 ∷ []))
    ≡ packet (7 ∷ 8 ∷ [])
unfolding mb_round mb_parse_tcp_frame
frame = refl

-- A packet of two bytes, a time-out, and two more packets.
abbrev of_bytes : ℕ → ℕ → SocketRecv × SocketRecv
of_bytes a b = (got (0 ∷ 0 ∷ 0 ∷ 0 ∷ 0 ∷ 5 ∷ 1 ∷ []), got (3 ∷ 2 ∷ a ∷ b ∷ 0 ∷ []))

abbrev three_packets : List (SocketRecv × SocketRecv)
three_packets = of_bytes 1 2 ∷ (recv_timed_out, recv_failed) ∷ of_bytes 3 4 ∷ of_bytes 5 6 ∷ []

two_each : (mb_run 4 4 (rounds 2 three_packets) start).handed ≡ (0, 1 ∷ 2 ∷ 3 ∷ 4 ∷ []) ∷ []
unfolding mb_run mb_round mb_parse_tcp_frame
two_each = refl

all_stay : AllStay (rounds 2 three_packets)
unfolding mb_round mb_parse_tcp_frame
all_stay = (tt, (tt, (tt, (tt, tt))))

start-InStep : InStep 2 2 start
start-InStep = record { synced = refl; items = 0; whole = refl; fits = omega arith; full = tt }

mb_run-InStep_example : InStep 2 2 (mb_run 4 4 (rounds 2 three_packets) start)
mb_run-InStep_example =
    mb_run-InStep 4 2 2 three_packets start (omega arith) (omega arith) all_stay start-InStep

abbrev one_packet : ℕ → List ℕ
one_packet i = 1 ∷ 2 ∷ []

packet-reconnect_example :
    let s : MbState = record {
      buffers = one_packet;
      write_buf_idx = 1;
      cur_buf = 1;
      handed = [];
    } in
    let s' = mb_run 4 6 (reconnect ∷ packet (7 ∷ 8 ∷ []) ∷ []) s in
    (s'.handed ≡ (1, 1 ∷ 2 ∷ []) ∷ [])
    × (s'.buffers 1 ≡ 1 ∷ 2 ∷ 7 ∷ 8 ∷ [])
    × (s'.write_buf_idx ≢ 1)
    × (s'.buffers s'.write_buf_idx ≡ [])
packet-reconnect_example =
    packet-reconnect 4 6 1 (7 ∷ 8 ∷ []) one_packet [] (omega arith) (omega arith) (omega arith)
      (omega arith)

-- The loop before its first round, and after four time-outs.
abbrev first : PgState
first = record {
  ret = 0;
  pg_fail_counter = 0;
  timeout_counter = 0;
  total_inserted_items = 0;
  running = true;
}

abbrev quiet : EpollEvents
quiet = record { error_or_hup = false; readable = false }

fifth : (pg_run 4 (replicate 5 (false, timed_out quiet, [])) first).ret ≡ 110
unfolding pg_run
fifth = refl

pg_step-Ends_iff_example :
    let s = record first { timeout_counter = 4 } in
    (goes_on false (pg_step 4 (timed_out quiet) [] s) ≡ false)
    ↔ (Ends (timed_out quiet) 4 ⊎ Fills 4 (timed_out quiet) [] s)
unfolding goes_on
pg_step-Ends_iff_example =
    pg_step-Ends_iff 4 (timed_out quiet) [] (record first { timeout_counter = 4 }) refl
