-- ===== src/Modbus/Receive.antt =====
-- src/sdhs/CommProtocols/Modbus.c, MbReceiveTcpFrame: the pieces in which the bytes arrive do not matter.
use lmalloc.Common.{
  ℕ, zero, suc, ◌-◌, ◌≤◌, ◌<◌, ◌≡◌, refl, sym, ap, ◌∙◌, arith, List, [], ◌∷◌, ◌++◌, some, length,
  take, drop, leb, true, false, Bool-cases, inl, inr, length-append, length-drop, take-append_le,
  drop-append_le, take-append_ge, drop-append_ge,
}
use lmalloc.Modbus.{Chunks, recv_all, in_front}

-- The bytes that the socket still delivers.
abbrev pub stream : Chunks → List ℕ
stream [] = []
stream (c ∷ cs) = c ++ stream cs

abbrev pub NoneEmpty : Chunks → Type 0
NoneEmpty [] = Unit {0}
NoneEmpty (c ∷ cs) = (0 < length c) × NoneEmpty cs

-- One `recv` takes a piece that is not more than what is missing, and the first part of a longer one.
recv_all-whole :
    (w : ℕ) (c : List ℕ) (cs : Chunks)
    → leb (length c) (suc w) ≡ true
    → 0 < length c
    → recv_all (suc w) (c ∷ cs) ≡ in_front c (recv_all (suc w - length c) cs)
unfolding recv_all
recv_all-whole w c cs whole pos = ground arith

recv_all-cut :
    (w : ℕ) (c : List ℕ) (cs : Chunks)
    → leb (length c) (suc w) ≡ false
    → 0 < length c
    → recv_all (suc w) (c ∷ cs) ≡ some (take (suc w) c, drop (suc w) c ∷ cs)
unfolding recv_all
recv_all-cut w c cs cut pos = ground arith

-- Reading `want` bytes, when there are so many, takes the first ones and leaves the others, however they are
-- cut into pieces.
pub recv_all_lem :
    (want : ℕ) (socket : Chunks)
    → NoneEmpty socket
    → want ≤ length (stream socket)
    → (rest : Chunks) × (recv_all want socket ≡ some (take want (stream socket), rest))
      × (stream rest ≡ drop want (stream socket))
      × NoneEmpty rest
unfolding recv_all
recv_all_lem zero [] v h = ([], refl, refl, tt)
recv_all_lem (suc want) [] v h = absurd (omega arith)
recv_all_lem zero (c ∷ cs) v h = (c ∷ cs, refl, refl, v)
recv_all_lem (suc w) (c ∷ cs) v h = elim (Bool-cases (leb (length c) (suc w))) [
  | inl whole ↦
      let fits : length c ≤ suc w = ground arith in
      let (rest, e, s, ne) =
        recv_all_lem (suc w - length c) cs v.1 (omega (arith, length-append c (stream cs))) in
      (
        rest,
        recv_all-whole w c cs whole v.0
            ∙ ap (in_front c) e
            ∙ ap (λ bs. some (bs, rest)) (sym (take-append_le (suc w) c (stream cs) fits)),
        s ∙ sym (drop-append_le (suc w) c (stream cs) fits),
        ne,
      )
  | inr cut ↦
      let fits : suc w ≤ length c = ground arith in
      (
        drop (suc w) c ∷ cs,
        recv_all-cut w c cs cut v.0
            ∙ ap (λ bs. some (bs, drop (suc w) c ∷ cs))
                (sym (take-append_ge (suc w) c (stream cs) fits)),
        sym (drop-append_ge (suc w) c (stream cs) fits),
        (ground (arith, length-drop (suc w) c), v.1),
      )
]
