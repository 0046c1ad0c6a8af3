-- ===== src/Modbus/Roundtrip.antt =====
-- src/sdhs/CommProtocols/Modbus.c: frames that are sent, received and parsed.
use lmalloc.Common.{
  ℕ, ◌+◌, ◌-◌, ◌≤◌, ◌<◌, ◌≡◌, refl, sym, ap, ◌∙◌, arith, List, [], ◌∷◌, ◌++◌, some, length, take,
  drop, ltb, Bool-cases, inl, inr, ◌⊎◌, length-append, take-append_le, drop-append_le, take-add,
  drop-add, length-drop,
}
use lmalloc.Modbus.{
  Chunks, generate_frame, frame_length, modbus_tcp_header_len, too_large, received, receive_rest,
  receive_payload, mb_receive_tcp_frame, mb_parse_tcp_frame,
}
use lmalloc.Modbus.Receive.{stream, NoneEmpty, recv_all_lem}

-- The size of the frame that the header in front of `bytes` announces.
abbrev pub frame_size : List ℕ → ℕ
frame_size bytes = modbus_tcp_header_len + frame_length (take modbus_tcp_header_len bytes)

-- What is read behind a header.
payload_lem :
    (header : List ℕ) (rest : Chunks) (buffer_size : ℕ)
    → NoneEmpty rest
    → frame_length header ≤ length (stream rest)
    → ((7 + frame_length header ≤ buffer_size)
        × ((rest' : Chunks) × (receive_payload buffer_size (some (header, rest))
              ≡ received (header ++ take (frame_length header) (stream rest)) rest')
            × (stream rest' ≡ drop (frame_length header) (stream rest))
            × NoneEmpty rest'))
      ⊎ ((buffer_size < 7 + frame_length header)
          × (receive_payload buffer_size (some (header, rest)) ≡ too_large))
unfolding receive_payload receive_rest
payload_lem header rest buffer_size v h =
    elim (Bool-cases (ltb buffer_size (7 + frame_length header))) [
      | inl large ↦ inr (ground arith, rw large refl)
      | inr fits ↦
          let (rest', e, s, ne) = recv_all_lem (frame_length header) rest v h in
          inl (ground arith, (rest', rw (fits, e) refl, s, ne))
    ]

-- A socket that delivers a header and the bytes that it announces, in non-empty pieces of any
-- sizes: they are received as the frame and the socket goes on behind them, when the frame fits
-- the buffer; else it is refused.
pub mb_receive_tcp_frame_lem :
    (socket : Chunks) (buffer_size : ℕ)
    → NoneEmpty socket
    → frame_size (stream socket) ≤ length (stream socket)
    → ((frame_size (stream socket) ≤ buffer_size)
        × ((rest : Chunks) × (mb_receive_tcp_frame socket buffer_size
              ≡ received (take (frame_size (stream socket)) (stream socket)) rest)
            × (stream rest ≡ drop (frame_size (stream socket)) (stream socket))
            × NoneEmpty rest))
      ⊎ ((buffer_size < frame_size (stream socket))
          × (mb_receive_tcp_frame socket buffer_size ≡ too_large))
unfolding mb_receive_tcp_frame
mb_receive_tcp_frame_lem socket buffer_size v h =
    let (rest, e, s, ne) = recv_all_lem 7 socket v (omega arith) in
    let header = take 7 (stream socket) in
    elim (payload_lem header rest buffer_size ne
      (omega (arith, ap length s, length-drop 7 (stream socket)))) [
        | inr (large, q) ↦ inr (large, ap (receive_payload buffer_size) e ∙ q)
        | inl (fits, (rest', q, s', ne')) ↦ inl (
          fits,
          (
            rest',
            ap (receive_payload buffer_size) e
                ∙ q
                ∙ ap (λ bs. received (header ++ take (frame_length header) bs) rest') s
                ∙ ap (λ bs. received bs rest')
                    (sym (take-add 7 (frame_length header) (stream socket))),
            s'
                ∙ ap (drop (frame_length header)) s
                ∙ sym (drop-add 7 (frame_length header) (stream socket)),
            ne',
          ),
        )
      ]

-- The frame that the test server makes of `n` bytes of data, the length field as it sets it.
abbrev pub data_frame : ℕ → ℕ → ℕ → ℕ → List ℕ → List ℕ
data_frame transaction_id protocol_id unit_id function_code bytes =
    generate_frame transaction_id protocol_id (length bytes + 3) unit_id function_code bytes
      (length bytes)

take-all : (bytes : List ℕ) → take (length bytes) bytes ≡ bytes
take-all [] = refl
take-all (b ∷ bs) = ap (λ r. b ∷ r) (take-all bs)

-- Parsing a frame of fewer than 253 data bytes, with any bytes behind it, gives back the unit, the number of
-- data bytes, and the data with those bytes.
pub parse-generate :
    (transaction_id protocol_id unit_id function_code : ℕ) (bytes behind : List ℕ)
    → length bytes < 253
    → mb_parse_tcp_frame
        (data_frame transaction_id protocol_id unit_id function_code bytes ++ behind)
      ≡ some (unit_id, length bytes, bytes ++ behind)
unfolding mb_parse_tcp_frame generate_frame
parse-generate t p u f bytes behind small = ground (arith, take-all bytes)

module _ (t p u f : ℕ) (bytes : List ℕ) where
  length-data_frame : length (data_frame t p u f bytes) ≡ length bytes + 9
  unfolding generate_frame
  length-data_frame = omega (arith, ap length (take-all bytes))

  frame_size-data_frame :
      (behind : List ℕ)
      → length bytes < 253
      → frame_size (data_frame t p u f bytes ++ behind) ≡ length bytes + 10
  unfolding generate_frame
  frame_size-data_frame behind small = omega arith

  -- The first ten bytes more than the data are the frame and one byte behind it.
  take-data_frame :
      (more : ℕ) (after : List ℕ)
      → take (length bytes + 10) (data_frame t p u f bytes ++ (more ∷ after))
        ≡ data_frame t p u f bytes ++ (more ∷ [])
  take-data_frame more after =
      let l = length-data_frame in
      let one : length bytes + 10 - length (data_frame t p u f bytes) ≡ 1 = omega arith in
      take-append_le (length bytes + 10) (data_frame t p u f bytes) (more ∷ after) (omega arith)
      ∙ ap (λ k. data_frame t p u f bytes ++ take k (more ∷ after)) one

  drop-data_frame :
      (more : ℕ) (after : List ℕ)
      → drop (length bytes + 10) (data_frame t p u f bytes ++ (more ∷ after)) ≡ after
  drop-data_frame more after =
      let l = length-data_frame in
      let one : length bytes + 10 - length (data_frame t p u f bytes) ≡ 1 = omega arith in
      drop-append_le (length bytes + 10) (data_frame t p u f bytes) (more ∷ after) (omega arith)
      ∙ ap (λ k. drop k (more ∷ after)) one

-- A socket that delivers, in non-empty pieces of any sizes, a frame of the test server with fewer
-- than 253 bytes of data, one more byte and then others: the frame with that byte is received,
-- when the buffer has room for ten bytes more than the data; the parser gives back the unit, the
-- number of data bytes, and the data with that byte; and the socket goes on behind it.
pub parse-receive :
    (transaction_id protocol_id unit_id function_code more : ℕ) (bytes after : List ℕ)
    (socket : Chunks) (buffer_size : ℕ)
    → length bytes < 253
    → length bytes + 10 ≤ buffer_size
    → NoneEmpty socket
    → stream socket
      ≡ data_frame transaction_id protocol_id unit_id function_code bytes ++ (more ∷ after)
    → (frame : List ℕ) × (rest : Chunks) × (mb_receive_tcp_frame socket buffer_size
        ≡ received frame rest)
      × (mb_parse_tcp_frame frame ≡ some (unit_id, length bytes, bytes ++ (more ∷ [])))
      × (stream rest ≡ after)
parse-receive t p u f more bytes after socket buffer_size small room v e =
    let size : frame_size (stream socket) ≡ length bytes + 10 =
      ap frame_size e ∙ frame_size-data_frame t p u f bytes (more ∷ after) small in
    let long : length (stream socket) ≡ length bytes + 10 + length after = omega (
      arith,
      ap length e,
      length-append (data_frame t p u f bytes) (more ∷ after),
      length-data_frame t p u f bytes,
    ) in
    elim (mb_receive_tcp_frame_lem socket buffer_size v (omega arith)) [
      | inr (large, q) ↦ absurd (omega arith)
      | inl (fits, (rest, q, s, ne)) ↦ (
        data_frame t p u f bytes ++ (more ∷ []),
        rest,
        q
            ∙ ap (λ k. received (take k (stream socket)) rest) size
            ∙ ap (λ bs. received (take (length bytes + 10) bs) rest) e
            ∙ ap (λ bs. received bs rest) (take-data_frame t p u f bytes more after),
        parse-generate t p u f bytes (more ∷ []) small,
        s
            ∙ ap (λ k. drop k (stream socket)) size
            ∙ ap (drop (length bytes + 10)) e
            ∙ drop-data_frame t p u f bytes more after,
      )
    ]
