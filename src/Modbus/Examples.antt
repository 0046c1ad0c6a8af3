-- ===== src/Modbus/Examples.antt =====
-- src/sdhs/CommProtocols/Modbus.c: a frame with two bytes of data, in three pieces.
use lmalloc.Common.{ℕ, ◌≡◌, refl, arith, List, [], ◌∷◌, ◌++◌, some}
use lmalloc.Modbus.{
  Chunks, generate_frame, received, recv_all, receive_payload, receive_rest, mb_receive_tcp_frame,
  mb_parse_tcp_frame,
}
use lmalloc.Modbus.Receive.{stream}
use lmalloc.Modbus.Roundtrip.{data_frame, parse-generate, parse-receive}

abbrev socket : Chunks
socket = (0 ∷ 1 ∷ 0 ∷ 0 ∷ 0 ∷ []) ∷ (5 ∷ 9 ∷ 3 ∷ 2 ∷ 7 ∷ []) ∷ (8 ∷ 99 ∷ 0 ∷ []) ∷ []

received_frame :
    mb_receive_tcp_frame socket 260
    ≡ received (0 ∷ 1 ∷ 0 ∷ 0 ∷ 0 ∷ 5 ∷ 9 ∷ 3 ∷ 2 ∷ 7 ∷ 8 ∷ 99 ∷ []) ((0 ∷ []) ∷ [])
unfolding mb_receive_tcp_frame receive_payload receive_rest recv_all
received_frame = refl

frame_of_socket : stream socket ≡ data_frame 1 0 9 3 (7 ∷ 8 ∷ []) ++ (99 ∷ 0 ∷ [])
unfolding generate_frame
frame_of_socket = refl

parse-generate_example :
    mb_parse_tcp_frame (data_frame 1 0 9 3 (7 ∷ 8 ∷ []) ++ (99 ∷ []))
    ≡ some (9, 2, (7 ∷ 8 ∷ []) ++ (99 ∷ []))
parse-generate_example = parse-generate 1 0 9 3 (7 ∷ 8 ∷ []) (99 ∷ []) (omega arith)

parse-receive_example :
    (frame : List ℕ) × (rest : Chunks) × (mb_receive_tcp_frame socket 260 ≡ received frame rest)
    × (mb_parse_tcp_frame frame ≡ some (9, 2, (7 ∷ 8 ∷ []) ++ (99 ∷ [])))
    × (stream rest ≡ 0 ∷ [])
parse-receive_example =
    parse-receive 1 0 9 3 99 (7 ∷ 8 ∷ []) (0 ∷ []) socket 260 (omega arith) (omega arith)
      (omega arith) frame_of_socket
