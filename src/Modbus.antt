-- ===== src/Modbus.antt =====
-- src/sdhs/CommProtocols/Modbus.c: receiving and parsing of Modbus TCP frames, and the sender of
-- src/sdhs/DevUtils/ModbusTestServer.c. A byte is a number below 256.
pub mod Receive
pub mod Roundtrip
mod Examples
use lmalloc.Common.{
  ℕ, ◌+◌, ◌-◌, ◌*◌, ◌/◌, ◌%◌, List, [], ◌∷◌, ◌++◌, Option, none, some, ltb, leb, ◌==◌,
  if◌then◌else◌, length, take, drop, get_elem?, not,
}

-- `GenerateModbusTcpFrame`
unfoldable pub generate_frame : ℕ → ℕ → ℕ → ℕ → ℕ → List ℕ → ℕ → List ℕ
generate_frame transaction_id protocol_id len unit_id function_code bytes data_length =
    transaction_id / 256 % 256
    ∷ transaction_id % 256
    ∷ protocol_id / 256 % 256
    ∷ protocol_id % 256
    ∷ len / 256 % 256
    ∷ len % 256
    ∷ unit_id
    ∷ function_code % 256
    ∷ data_length % 256
    ∷ take data_length bytes

-- What a socket still delivers: the pieces in which the bytes arrive, none of them empty, and then the end
-- of the connection.
abbrev pub Chunks : Type 0
Chunks = List (List ℕ)

-- The bytes of one `recv` in front of those of the loop behind it.
abbrev pub in_front : List ℕ → Option (List ℕ × Chunks) → Option (List ℕ × Chunks)
in_front got none = none
in_front got (some (bs, rest)) = some (got ++ bs, rest)

-- The loop that calls `recv` until `want` bytes are read, each call for what is missing: the bytes and
-- what the socket delivers then. `none` is a `recv` that returns 0.
unfoldable pub recv_all : ℕ → Chunks → Option (List ℕ × Chunks)
recv_all want [] = if want == 0 then some ([], []) else none
recv_all want (c ∷ cs) =
    let rest = recv_all (want - length c) cs in
    if want == 0
    then some ([], c ∷ cs)
    else (if length c == 0
        then none
        else (if leb (length c) want
            then in_front c rest
            else some (take want c, drop want c ∷ cs)))

-- A byte of a frame in its buffer, which was zeros.
abbrev pub byte_or_zero : Option ℕ → ℕ
byte_or_zero none = 0
byte_or_zero (some b) = b

abbrev pub frame_byte : List ℕ → ℕ → ℕ
frame_byte frame i = byte_or_zero (get_elem? frame i)

-- `(u16)(Frame[4] << 8) | Frame[5]`
abbrev pub frame_length : List ℕ → ℕ
frame_length frame = frame_byte frame 4 * 256 + frame_byte frame 5

abbrev pub modbus_tcp_header_len : ℕ
modbus_tcp_header_len = 7

-- `closed`: a `recv` that returned 0. `too_large`: -1. `received`: the frame and what the socket delivers
-- behind it.
pub data Received : Type 0 where
  closed too_large : Received
  received : List ℕ → Chunks → Received

-- The end of `MbReceiveTcpFrame`.
unfoldable pub receive_rest : List ℕ → Option (List ℕ × Chunks) → Received
receive_rest header none = closed
receive_rest header (some (bs, rest)) = received (header ++ bs) rest

-- `MbReceiveTcpFrame` from the length on.
unfoldable pub receive_payload : ℕ → Option (List ℕ × Chunks) → Received
unfolding receive_rest recv_all
receive_payload buffer_size none = closed
receive_payload buffer_size (some (header, rest)) =
    if ltb buffer_size (modbus_tcp_header_len + frame_length header)
    then too_large
    else receive_rest header (recv_all (frame_length header) rest)

unfoldable pub mb_receive_tcp_frame : Chunks → ℕ → Received
unfolding receive_payload recv_all
mb_receive_tcp_frame socket buffer_size =
    receive_payload buffer_size (recv_all modbus_tcp_header_len socket)

-- `MbParseTcpFrame`: the unit, the data's length, and the bytes from the data on.
unfoldable pub mb_parse_tcp_frame : List ℕ → Option (ℕ × ℕ × List ℕ)
mb_parse_tcp_frame frame =
    if frame_length frame == frame_byte frame 8 + 3
    then some (frame_byte frame 6, frame_byte frame 8, drop 9 frame)
    else none
