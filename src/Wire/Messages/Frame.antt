-- ===== src/Wire/Messages/Frame.antt =====
-- `message_handler` leaves the frame of the client alone up to the end of the connection, whatever
-- the peer sends.
use simpletorrent_nju.Base.{refl, ℕ, ◌==◌, List, Bytes, ℤ, pos, negsuc, ltb_ℤ, [], ◌∷◌}
use simpletorrent_nju.Socket.{RecvEvent, recv_all}
use simpletorrent_nju.Client.{Extern, M, is_nonpos}
use simpletorrent_nju.Client.Frame.{Keeps, Keeps-bind, Keeps-pure, Keeps-if}
use simpletorrent_nju.Wire.Send.{
  choke, unchoke, interested, not_interested, have, bitfield_id, request, piece, cancel,
}
use simpletorrent_nju.Wire.Send.Frame.{modify_peer-Keeps}
use simpletorrent_nju.Wire.Handlers.{
  handle_choke, handle_unchoke, handle_notinterested, handle_cancel,
}
use simpletorrent_nju.Wire.Handlers.Frame.{
  handle_interested-Keeps, handle_have-Keeps, handle_bitfield-Keeps, handle_request-Keeps,
  handle_piece-Keeps,
}
use simpletorrent_nju.Wire.Messages.{
  Next, go_on, error_disconnect, with_int, with_buffer, and_go_on, unless_neg, case_have,
  case_bitfield, with_block, case_request, case_piece, case_cancel, switch_id, receive_id,
  handle_message,
}

abbrev Kept : {A : Type 0} → M A → Type 0
Kept m = Keeps (Unit {0}) m

with_int-Keeps :
    (x : Extern) (inbox : List RecvEvent) (k : ℤ → List RecvEvent → M Next)
    → ((v : ℤ) (rest : List RecvEvent) → Kept (k v rest))
    → Kept (with_int x inbox k)
unfolding with_int
with_int-Keeps x inbox k h = Keeps-if _ (Keeps-pure error_disconnect) (h _ _)

with_buffer-Keeps :
    (x : Extern) (inbox : List RecvEvent) (len : ℤ) (k : Bytes → List RecvEvent → M Next)
    → ((v : Bytes) (rest : List RecvEvent) → Kept (k v rest))
    → Kept (with_buffer x inbox len k)
unfolding with_buffer
with_buffer-Keeps x inbox (negsuc n) k h = Keeps-pure error_disconnect
with_buffer-Keeps x inbox (pos n) k h = Keeps-if _ (Keeps-pure error_disconnect) (h _ _)

go_on-Keeps : (m : M (Unit {0})) (inbox : List RecvEvent) → Kept m → Kept (and_go_on m inbox)
go_on-Keeps m inbox h = Keeps-bind h λ _. Keeps-pure (go_on inbox)

unless_neg-Keeps : (m : M ℤ) (inbox : List RecvEvent) → Kept m → Kept (unless_neg m inbox)
unless_neg-Keeps m inbox h = Keeps-bind h λ r. Keeps-pure _

module _ (x : Extern) (connfd p : ℕ) where
  with_block-Keeps :
      (inbox : List RecvEvent) (k : ℤ → ℤ → ℤ → List RecvEvent → M Next)
      → ((index begin len : ℤ) (rest : List RecvEvent) → Kept (k index begin len rest))
      → Kept (with_block x connfd p inbox k)
  unfolding with_block
  with_block-Keeps inbox k h = with_int-Keeps x inbox _ λ index rest.
      with_int-Keeps x rest _ λ begin rest'. with_int-Keeps x rest' _ λ len rest''. h _ _ _ rest''

  case_have-Keeps : (inbox : List RecvEvent) → Kept (case_have x connfd p inbox)
  unfolding case_have
  case_have-Keeps inbox =
      with_int-Keeps x inbox _ λ index rest. go_on-Keeps _ rest (handle_have-Keeps connfd p _)

  case_bitfield-Keeps :
      (len : ℤ) (inbox : List RecvEvent) → Kept (case_bitfield x connfd p len inbox)
  unfolding case_bitfield
  case_bitfield-Keeps len inbox =
      with_buffer-Keeps x inbox _ _
        λ bits rest. go_on-Keeps _ rest (handle_bitfield-Keeps connfd p bits _)

  case_request-Keeps : (inbox : List RecvEvent) → Kept (case_request x connfd p inbox)
  unfolding case_request
  case_request-Keeps inbox = with_block-Keeps inbox _ λ index begin len rest.
      unless_neg-Keeps _ rest (handle_request-Keeps connfd p index begin len)

  case_cancel-Keeps : (inbox : List RecvEvent) → Kept (case_cancel x connfd p inbox)
  unfolding case_cancel handle_cancel
  case_cancel-Keeps inbox =
      with_block-Keeps inbox _ λ index begin len rest. go_on-Keeps _ rest (Keeps-pure tt)

  case_piece-Keeps : (len : ℤ) (inbox : List RecvEvent) → Kept (case_piece x connfd p len inbox)
  unfolding case_piece
  case_piece-Keeps len inbox = with_int-Keeps x inbox _ λ index rest.
      with_int-Keeps x rest _ λ begin rest'.
        with_buffer-Keeps x rest' _ _
          λ block rest''. unless_neg-Keeps _ rest'' (handle_piece-Keeps x connfd p _ _ _ block)

  switch_id-Keeps :
      (id : ℕ) (len : ℤ) (inbox : List RecvEvent) → Kept (switch_id x connfd p id len inbox)
  unfolding switch_id handle_choke handle_unchoke handle_notinterested
  switch_id-Keeps id len inbox =
      Keeps-if (id == choke)
        (go_on-Keeps _ inbox (modify_peer-Keeps p (λ r. record r { am_choking = 1 }) λ r. refl))
        (Keeps-if (id == unchoke)
          (go_on-Keeps _ inbox (modify_peer-Keeps p (λ r. record r { am_choking = 0 }) λ r. refl))
          (Keeps-if (id == interested) (go_on-Keeps _ inbox (handle_interested-Keeps p)) (
            Keeps-if (id == not_interested)
              (go_on-Keeps _ inbox
                (modify_peer-Keeps p (λ r. record r { am_interested = 0 }) λ r. refl))
              (Keeps-if (id == have) (case_have-Keeps inbox) (
                Keeps-if (id == bitfield_id) (case_bitfield-Keeps len inbox) (
                  Keeps-if (id == request) (case_request-Keeps inbox) (
                    Keeps-if (id == piece) (case_piece-Keeps len inbox) (
                      Keeps-if (id == cancel) (case_cancel-Keeps inbox)
                        (Keeps-pure (go_on inbox))))))))))

  receive_id-Keeps :
      (len : ℤ) (bytes : Bytes) (rest : List RecvEvent) (result : ℤ)
      → Kept (receive_id x connfd p len (record { result = result; bytes = bytes; rest = rest }))
  unfolding receive_id
  receive_id-Keeps len [] rest result = Keeps-pure error_disconnect
  receive_id-Keeps len (id ∷ bytes) rest result = switch_id-Keeps id len rest

  -- One round of the loop, from the length prefix on, with any bytes: where it comes back, the torrent,
  -- the pool, the lengths of the arrays, and the address and the socket of each peer are as before.
  pub handle_message-Keeps :
      (len : ℤ) (inbox : List RecvEvent) → Kept (handle_message x connfd p len inbox)
  unfolding handle_message
  handle_message-Keeps len inbox =
      let r = recv_all inbox (pos 1) in
      Keeps-if (ltb_ℤ (pos 0) len)
        (Keeps-if (is_nonpos r.result) (Keeps-pure error_disconnect)
          (receive_id-Keeps len r.bytes r.rest r.result))
        (Keeps-pure (go_on inbox))
