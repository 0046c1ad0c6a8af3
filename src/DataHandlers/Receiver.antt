-- ===== src/DataHandlers/Receiver.antt =====
-- sdhs/DataHandlers/ModbusWithPostgres/Modbus.c, MbRun: from the frames of the socket to the pipe's
-- buffers.
use lmalloc.Common.{
  ℕ, ◌+◌, ◌-◌, ◌%◌, Option, none, some, List, [], ◌∷◌, ◌++◌, ltb, ◌==◌, not, if◌then◌else◌, length,
  take, put,
}
use lmalloc.Modbus.{frame_length, mb_parse_tcp_frame, modbus_tcp_header_len}

-- What SocketRecvWithTimeout answers: -2, another negative number, or the bytes read, none for 0.
pub data SocketRecv : Type 0 where
  recv_timed_out recv_failed : SocketRecv
  got : List ℕ → SocketRecv

-- How a round of the inner loop ends: at its top, at the label reconnect, or with a packet.
pub data Round : Type 0 where
  again reconnect : Round
  packet : List ℕ → Round

abbrev pub modbus_tcp_frame_max_size : ℕ
modbus_tcp_frame_max_size = 260

-- The parsed frame, if its data is as long as a packet.
sized_packet : ℕ → Option (ℕ × ℕ × List ℕ) → Round
sized_packet packet_size none = reconnect
sized_packet packet_size (some (unit_id, data_length, bytes)) =
    if not (data_length == packet_size) then reconnect else packet (take data_length bytes)

with_data : ℕ → List ℕ → SocketRecv → Round
unfolding sized_packet
with_data packet_size header recv_timed_out = reconnect
with_data packet_size header recv_failed = reconnect
with_data packet_size header (got bytes) =
    if not (length bytes == frame_length header)
    then reconnect
    else sized_packet packet_size (mb_parse_tcp_frame (header ++ bytes))

-- One round, from the answers to the header's and the data's call.
unfoldable pub mb_round : ℕ → SocketRecv → SocketRecv → Round
unfolding with_data
mb_round packet_size recv_timed_out rest = again
mb_round packet_size recv_failed rest = reconnect
mb_round packet_size (got header) rest =
    if not (length header == modbus_tcp_header_len)
    then reconnect
    else if ltb (modbus_tcp_frame_max_size - modbus_tcp_header_len) (frame_length header)
    then reconnect
    else with_data packet_size header rest

-- The pipe as the writer sees it, the buffers by their index, with `CurBuf`, and the buffers handed over to
-- the reader, the last first, with what they held.
pub record MbState : Type 0 where
  pub buffers : ℕ → List ℕ
  pub write_buf_idx : ℕ
  pub cur_buf : ℕ
  pub handed : List (ℕ × List ℕ)

-- SdPipeGetWriteBuffer, once the reader has made room: the next buffer is emptied.
unfoldable pub hand_over : ℕ → MbState → MbState
hand_over buf_count s =
    let next = (s.write_buf_idx + 1) % buf_count in
    record s {
      buffers = put s.buffers next [];
      write_buf_idx = next;
      handed = (s.write_buf_idx, s.buffers s.write_buf_idx) ∷ s.handed;
    }

-- The top of the inner loop: a full buffer is exchanged for the next one.
unfoldable pub exchange : ℕ → ℕ → MbState → MbState
unfolding hand_over
exchange buf_count buffer_max_fill s =
    if length (s.buffers s.cur_buf) == buffer_max_fill
    then (let s' = hand_over buf_count s in record s' { cur_buf = s'.write_buf_idx })
    else s

unfoldable pub mb_flush : ℕ → MbState → MbState
unfolding hand_over
mb_flush buf_count s =
    if ltb 0 (length (s.buffers s.write_buf_idx)) then hand_over buf_count s else s

finish_round : ℕ → MbState → Round → MbState
unfolding mb_flush
finish_round buf_count s again = s
finish_round buf_count s reconnect = mb_flush buf_count s
finish_round buf_count s (packet bytes) = record s {
  buffers = put s.buffers s.cur_buf (s.buffers s.cur_buf ++ bytes);
}

-- One round of the loop; the time that ArenaAlloc records of a packet is left out, and after a reconnect `CurBuf` is what it was.
unfoldable pub mb_step : ℕ → ℕ → Round → MbState → MbState
unfolding exchange finish_round
mb_step buf_count buffer_max_fill round s =
    finish_round buf_count (exchange buf_count buffer_max_fill s) round

unfoldable pub mb_run : ℕ → ℕ → List Round → MbState → MbState
unfolding mb_step
mb_run buf_count buffer_max_fill [] s = s
mb_run buf_count buffer_max_fill (r ∷ rs) s =
    mb_run buf_count buffer_max_fill rs (mb_step buf_count buffer_max_fill r s)
