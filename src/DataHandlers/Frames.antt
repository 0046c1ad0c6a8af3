-- ===== src/DataHandlers/Frames.antt =====
-- sdhs/DataHandlers/ModbusWithPostgres/Modbus.c, MbRun: the packets that come out of the frames.
use lmalloc.Common.{
  ℕ, zero, suc, ◌+◌, ◌*◌, ◌<◌, ◌≡◌, refl, ap, List, [], ◌∷◌, ◌++◌, arith, length, length-append,
  take, drop, get_elem?, length-drop, length-take_le,
}
use lmalloc.Modbus.{frame_byte, frame_length, byte_or_zero, mb_parse_tcp_frame}
use lmalloc.DataHandlers.Receiver.{
  SocketRecv, recv_timed_out, recv_failed, got, Round, again, reconnect, packet, MbState, mb_round,
  mb_run,
}
use lmalloc.DataHandlers.Packets.{Smooth, AllSmooth, InStep, run_smooth}

get_elem?-append :
    (xs ys : List ℕ) (i : ℕ) → i < length xs → get_elem? (xs ++ ys) i ≡ get_elem? xs i
get_elem?-append [] ys i lt = absurd (omega arith)
get_elem?-append (x ∷ xs) ys zero lt = refl
get_elem?-append (x ∷ xs) ys (suc i) lt = get_elem?-append xs ys i (omega arith)

-- The length stands in the header.
frame_length-append :
    (header bytes : List ℕ)
    → length header ≡ 7
    → frame_length (header ++ bytes) ≡ frame_length header
frame_length-append header bytes seven =
    let four = ap byte_or_zero (get_elem?-append header bytes 4 (omega arith)) in
    let five = ap byte_or_zero (get_elem?-append header bytes 5 (omega arith)) in
    omega (arith, four, five)

parsed_size :
    (frame : List ℕ) (size : ℕ)
    → length frame ≡ 7 + frame_length frame
    → frame_length frame ≡ frame_byte frame 8 + 3
    → length (take (frame_byte frame 8) (drop 9 frame)) ≡ frame_byte frame 8
parsed_size frame size long said =
    length-take_le (frame_byte frame 8) (drop 9 frame)
      (let d = length-drop 9 frame in omega (arith, d, long, said))

mb_round-packet :
    (size : ℕ) (header rest : SocketRecv) (bytes : List ℕ)
    → mb_round size header rest ≡ packet bytes
    → length bytes ≡ size
unfolding mb_round mb_parse_tcp_frame
mb_round-packet size recv_timed_out rest bytes e = ground arith
mb_round-packet size recv_failed rest bytes e = ground arith
mb_round-packet size (got header) recv_timed_out bytes e = ground arith
mb_round-packet size (got header) recv_failed bytes e = ground arith
mb_round-packet size (got header) (got more) bytes e =
    let l = length-append header more in
    let a = frame_length-append header more in
    let p = parsed_size (header ++ more) size in ground arith

-- The rounds, from what the header's and the data's call of each answer.
abbrev pub rounds : ℕ → List (SocketRecv × SocketRecv) → List Round
rounds size [] = []
rounds size ((header, rest) ∷ answers) = mb_round size header rest ∷ rounds size answers

abbrev pub Stays : Round → Type 0
Stays again = Unit {0}
Stays reconnect = ⊥
Stays (packet bytes) = Unit {0}

abbrev pub AllStay : List Round → Type 0
AllStay [] = Unit {0}
AllStay (r ∷ rs) = Stays r × AllStay rs

Stays-Smooth :
    (size : ℕ) (r : Round)
    → ((bytes : List ℕ) → r ≡ packet bytes → length bytes ≡ size)
    → Stays r
    → Smooth size r
Stays-Smooth size again h stays = tt
Stays-Smooth size reconnect h stays = stays
Stays-Smooth size (packet bytes) h stays = h bytes refl

rounds-AllSmooth :
    (size : ℕ) (answers : List (SocketRecv × SocketRecv))
    → AllStay (rounds size answers)
    → AllSmooth size (rounds size answers)
rounds-AllSmooth size [] h = tt
rounds-AllSmooth size ((header, rest) ∷ answers) (h, hs) =
    (Stays-Smooth size _ (mb_round-packet size header rest) h, rounds-AllSmooth size answers hs)

-- Whatever the calls on the socket answer, as long as no round reconnects: the buffers that the writer hands over are full, each
-- with the greatest number of whole packets, and the buffer that it fills is the pipe's write buffer and holds whole packets, at most as many.
pub mb_run-InStep :
    (count size item_max : ℕ) (answers : List (SocketRecv × SocketRecv)) (s : MbState)
    → 0 < size
    → 0 < item_max
    → AllStay (rounds size answers)
    → InStep size item_max s
    → InStep size item_max (mb_run count (item_max * size) (rounds size answers) s)
mb_run-InStep count size item_max answers s pos some_items stay v =
    run_smooth count size item_max (rounds size answers) s pos some_items
      (rounds-AllSmooth size answers stay) v
