-- ===== src/Wire/Messages/Frames.antt =====
-- What the functions of Wire.Send put on the wire, `message_handler` on the other side reads back.
use mathlib.Core.List.{append_assoc}
use simpletorrent_nju.Base.{
  ℕ, suc, ◌+◌, ◌^◌, ◌<◌, ◌≡◌, refl, ap, ◌∙◌, List, [], ◌∷◌, ◌++◌, Bytes, ℤ, pos, IsInt, i32, ◌+ℤ◌,
  length, arith, ltb_ℤ, true, false,
}
use simpletorrent_nju.Words.{reverse_byte_orderi, int_at, int_bytes}
use simpletorrent_nju.Words.Order.{reverse-reverse}
use simpletorrent_nju.Socket.{RecvEvent, recv_all}
use simpletorrent_nju.Socket.Stream.{stream, IsReliable}
use simpletorrent_nju.Client.{Client, Extern, M, pure, ◌>>=◌, is_nonpos}
use simpletorrent_nju.Wire.Send.{net_int}
use simpletorrent_nju.Wire.Handlers.{
  handle_have, handle_bitfield, handle_request, handle_piece, handle_cancel,
}
use simpletorrent_nju.Wire.Messages.{
  Next, go_on, Ended, ended, error_disconnect, with_int, with_buffer, with_block, case_piece,
  receive_id, and_go_on, unless_neg, switch_id, handle_message, message_loop, filled,
}
use simpletorrent_nju.Wire.Messages.Reads.{
  recv_all-ReadsAll, recv_int, Behind, with_int_lem, with_buffer_lem,
}
use simpletorrent_nju.Wire.Messages.Message.{
  Message, unchoked, is_interested, is_not_interested, has, bits, requests, cancels, block,
  sent_bytes, AreInts, reaction, len_of, id_of, body_of, sent_bytes_parts, assoc₃, x_len_lem,
  message_len_lem, block_len_lem, reverse_eq,
}

module _ (x : Extern) (connfd p : ℕ) where
  with_block_lem :
      (inbox : List RecvEvent) (i j l : ℤ) (rest : Bytes) (k : ℤ → ℤ → ℤ → List RecvEvent → M Next)
      → IsInt i × IsInt j × IsInt l
      → IsReliable inbox
      → stream inbox ≡ net_int i ++ (net_int j ++ (net_int l ++ rest))
      → (b : Behind x rest) × (with_block x connfd p inbox k ≡ k i j l b.inbox)
  unfolding with_block
  with_block_lem inbox i j l rest k a h e =
      let last = λ (b c : ℤ) (later : List RecvEvent).
        with_int x later
          λ d. k (reverse_byte_orderi b) (reverse_byte_orderi c) (reverse_byte_orderi d) in
      let (b1, r1) =
        with_int_lem x inbox i (net_int j ++ (net_int l ++ rest))
          (λ b later. with_int x later (last b)) h e in
      let (b2, r2) =
        with_int_lem x b1.inbox j (net_int l ++ rest) (last (reverse_byte_orderi i)) b1.still
          b1.same in
      let (b3, r3) =
        with_int_lem x b2.inbox l rest
          (λ d.
            k (reverse_byte_orderi (reverse_byte_orderi i))
              (reverse_byte_orderi (reverse_byte_orderi j)) (reverse_byte_orderi d))
          b2.still b2.same in
      (
        b3,
        r1
            ∙ r2
            ∙ r3
            ∙ rw (reverse-reverse i a.0, reverse-reverse j a.1, reverse-reverse l a.2) refl,
      )

  case_piece_lem :
      (inbox : List RecvEvent) (i j : ℤ) (b : ℕ) (bs rest : Bytes)
      → IsInt i × IsInt j × (length (b ∷ bs) + 9 < 2 ^ 31)
      → IsReliable inbox
      → stream inbox ≡ net_int i ++ (net_int j ++ ((b ∷ bs) ++ rest))
      → (q : Behind x rest) × (case_piece x connfd p (i32 (pos 9 +ℤ pos (length (b ∷ bs)))) inbox
          ≡ unless_neg (handle_piece x connfd p i j (pos (length (b ∷ bs))) (b ∷ bs)) q.inbox)
  unfolding case_piece
  case_piece_lem inbox i j b bs rest a h e =
      let n = length (b ∷ bs) in
      let last = λ (c d : ℤ) (later : List RecvEvent). with_buffer x later (pos n) λ bytes rest.
        unless_neg
          (handle_piece x connfd p (reverse_byte_orderi c) (reverse_byte_orderi d) (pos n) bytes)
          rest in
      let (b1, r1) =
        with_int_lem x inbox i (net_int j ++ ((b ∷ bs) ++ rest))
          (λ c later. with_int x later (last c)) h e in
      let (b2, r2) =
        with_int_lem x b1.inbox j ((b ∷ bs) ++ rest) (last (reverse_byte_orderi i)) b1.still
          b1.same in
      let (b3, r3) =
        with_buffer_lem x b2.inbox b bs rest
          (λ bytes rest.
            unless_neg
              (handle_piece x connfd p (reverse_byte_orderi (reverse_byte_orderi i))
                (reverse_byte_orderi (reverse_byte_orderi j)) (pos n) bytes)
              rest)
          b2.still b2.same in
      (
        b3,
        rw (block_len_lem n a.2)
            (r1 ∙ r2 ∙ r3 ∙ rw (reverse-reverse i a.0, reverse-reverse j a.1) refl),
      )

  -- The switch on the part behind the id.
  switch_body :
      (m : Message) (inbox : List RecvEvent) (rest : Bytes)
      → AreInts m
      → IsReliable inbox
      → stream inbox ≡ body_of m ++ rest
      → (b : Behind x rest) × (switch_id x connfd p (id_of m) (len_of m) inbox
          ≡ reaction x connfd p m b.inbox)
  unfolding switch_id
  switch_body unchoked inbox rest a h e = (record { inbox = inbox; same = e; still = h }, refl)
  switch_body is_interested inbox rest a h e = (record { inbox = inbox; same = e; still = h }, refl)
  switch_body is_not_interested inbox rest a h e =
      (record { inbox = inbox; same = e; still = h }, refl)
  switch_body (has index) inbox rest a h e =
      let (b, r) =
        with_int_lem x inbox index rest
          (λ i later. and_go_on (handle_have connfd p (reverse_byte_orderi i)) later) h e in
      (b, r ∙ rw (reverse-reverse index a) refl)
  switch_body (bits b bs) inbox rest a h e =
      let n = length (b ∷ bs) in
      let (q, r) =
        with_buffer_lem x inbox b bs rest
          (λ bits later. and_go_on (handle_bitfield connfd p bits (pos n)) later) h e in
      (q, rw (x_len_lem n a) r)
  switch_body (requests index begin len) inbox rest a h e =
      with_block_lem inbox index begin len rest
        (λ i b l later. unless_neg (handle_request connfd p i b l) later) a h
        (e ∙ assoc₃ (net_int index) (net_int begin) (net_int len) rest)
  switch_body (cancels index begin len) inbox rest a h e =
      with_block_lem inbox index begin len rest
        (λ i b l later. and_go_on (handle_cancel connfd i b l) later) a h
        (e ∙ assoc₃ (net_int index) (net_int begin) (net_int len) rest)
  switch_body (block index begin b bs) inbox rest a h e =
      case_piece_lem inbox index begin b bs rest a h
        (e ∙ assoc₃ (net_int index) (net_int begin) (b ∷ bs) rest)

  len_of-IsInt : (m : Message) → AreInts m → IsInt (len_of m) × (ltb_ℤ (pos 0) (len_of m) ≡ true)
  len_of-IsInt unchoked a = (omega arith, refl)
  len_of-IsInt is_interested a = (omega arith, refl)
  len_of-IsInt is_not_interested a = (omega arith, refl)
  len_of-IsInt (has index) a = (omega arith, refl)
  len_of-IsInt (bits b bs) a = (omega arith, ground arith)
  len_of-IsInt (requests index begin len) a = (omega arith, refl)
  len_of-IsInt (cancels index begin len) a = (omega arith, refl)
  len_of-IsInt (block index begin b bs) a =
      rw (message_len_lem (length (b ∷ bs)) a.2) (omega arith, ground arith)

  -- What follows the body of the loop.
  abbrev pub then_loop : ℕ → ℤ → Next → M Ended
  then_loop fuel len (go_on inbox) = message_loop x connfd p fuel (int_bytes len) inbox
  then_loop fuel len error_disconnect = pure ended

  pub message_loop_step :
      (fuel : ℕ) (old : Bytes) (inbox : List RecvEvent) (c : Client)
      → is_nonpos (recv_all inbox (pos 4)).result ≡ false
      → message_loop x connfd p (suc fuel) old inbox c
        ≡ (handle_message x connfd p
                (reverse_byte_orderi (int_at (filled (recv_all inbox (pos 4)) old)))
                (recv_all inbox (pos 4)).rest
              >>= then_loop fuel
                  (reverse_byte_orderi (int_at (filled (recv_all inbox (pos 4)) old))))
            c
  unfolding message_loop
  message_loop_step fuel old inbox c e = rw e (ground arith)

  handle_message_lem :
      (m : Message) (inbox : List RecvEvent) (rest : Bytes)
      → AreInts m
      → IsReliable inbox
      → stream inbox ≡ id_of m ∷ (body_of m ++ rest)
      → (b : Behind x rest) × (handle_message x connfd p (len_of m) inbox
          ≡ reaction x connfd p m b.inbox)
  unfolding handle_message
  handle_message_lem m inbox rest a h e =
      let i = recv_all-ReadsAll inbox (id_of m ∷ []) (body_of m ++ rest) h e in
      let (b, s) = switch_body m (recv_all inbox (pos 1)).rest rest a i.still i.left in
      (b, rw ((len_of-IsInt m a).1, i.result, receive_id, i.got) s)

  -- One round of the loop on a connection where no recv fails and whose next bytes are those
  -- that this client sends for a message, with numbers of type `int` and a length that is one:
  -- it does what the message asks for, with the numbers and the bytes that were sent, and goes
  -- on with what follows them.
  pub message_loop-sent_bytes :
      (m : Message) (fuel : ℕ) (old rest : Bytes) (inbox : List RecvEvent) (c : Client)
      → AreInts m
      → IsReliable inbox
      → stream inbox ≡ sent_bytes m ++ rest
      → (later : List RecvEvent) × (stream later ≡ rest)
        × IsReliable later
        × (message_loop x connfd p (suc fuel) old inbox c
            ≡ (reaction x connfd p m later >>= then_loop fuel (len_of m)) c)
  unfolding int_bytes
  message_loop-sent_bytes m fuel old rest inbox c a h e =
      let e' =
        e
        ∙ ap (λ t. t ++ rest) (sent_bytes_parts m)
        ∙ append_assoc (net_int (len_of m)) (id_of m ∷ body_of m) rest in
      let (r, at) = recv_int inbox (len_of m) ((id_of m ∷ body_of m) ++ rest) old h e' in
      let len =
        reverse_eq (len_of m) (int_at (filled (recv_all inbox (pos 4)) old)) (len_of-IsInt m a).0
          at in
      let (b, s) = handle_message_lem m (recv_all inbox (pos 4)).rest rest a r.still r.left in
      (
        b.inbox,
        b.same,
        b.still,
        message_loop_step fuel old inbox c (rw r.result refl)
            ∙ ap
                (λ (l : ℤ).
                  (handle_message x connfd p l (recv_all inbox (pos 4)).rest >>= then_loop fuel l)
                    c)
                len
            ∙ ap (λ (n : M Next). (n >>= then_loop fuel (len_of m)) c) s,
      )
