-- ===== src/Wire/Messages.antt =====
-- peer_wire.c, `message_handler`: the thread that reads the messages of one connection. What is still
-- to come on the connection is the list `inbox`.
pub mod Reads
pub mod Release
pub mod Disconnect
pub mod Message
pub mod Frames
pub mod Left
pub mod Fuel
pub mod Shape
pub mod Frame
use simpletorrent_nju.Base.{
  ℕ, zero, suc, ◌+◌, ◌==◌, if◌then◌else◌, Bool, true, false, ◌&&◌, List, [], ◌∷◌, ◌++◌, Option,
  none, some, Bytes, ℤ, pos, negsuc, ◌-ℤ◌, i32, eqb_ℤ, ltb_ℤ, length, drop, tabulate_from,
  get_elem?, set,
}
use simpletorrent_nju.Words.{reverse_byte_orderi, int_at, int_bytes}
use simpletorrent_nju.Socket.{RecvEvent, Received, recv_all}
use simpletorrent_nju.Client.{
  Client, TrackerPeer, Extern, M, get, modify, access, pure, ◌>>=◌, ◌>>◌, when, is_neg, is_nonpos,
  unlock_piece, piece_requesting, piece_havnt, peer_havnt, peer_be_requested, disconnect,
}
use simpletorrent_nju.Pool.{get_peer_piece_state, peerpool_remove_node, mark_entry}
use simpletorrent_nju.Wire.Send.{
  send_bitfield, choke, unchoke, interested, not_interested, have, bitfield_id, request, piece,
  cancel,
}
use simpletorrent_nju.Wire.Handlers.{
  handle_choke, handle_unchoke, handle_interested, handle_notinterested, handle_have,
  handle_bitfield, handle_request, handle_piece, handle_cancel,
}

-- The while loop of the thread has come to its end, or the model's fuel has before.
pub data Ended : Type 0 where
  ended : Ended
  no_fuel : Ended

-- One round of the loop ends with what still waits at the socket, or at the label error_disconnect.
pub data Next : Type 0 where
  go_on : List RecvEvent → Next
  error_disconnect : Next

-- What a buffer with these bytes holds behind a `Recv`.
abbrev pub filled : Received → Bytes → Bytes
filled r old = r.bytes ++ drop (length r.bytes) old

-- An `int` of a new local variable is read, and used where the result is positive.
unfoldable pub with_int : Extern → List RecvEvent → (ℤ → List RecvEvent → M Next) → M Next
with_int x inbox k =
    let r = recv_all inbox (pos 4) in
    if is_nonpos r.result
    then pure error_disconnect
    else k (int_at (filled r (tabulate_from 0 4 x.junk))) r.rest

-- A buffer of `len` bytes is read; malloc of a negative number gives NULL, and `Recv` reads nothing.
unfoldable pub with_buffer :
    Extern → List RecvEvent → ℤ → (Bytes → List RecvEvent → M Next) → M Next
with_buffer x inbox (negsuc n) k = pure error_disconnect
with_buffer x inbox (pos n) k =
    let r = recv_all inbox (pos n) in
    if is_nonpos r.result
    then pure error_disconnect
    else k (filled r (tabulate_from 0 n x.junk)) r.rest

abbrev pub and_go_on : M (Unit {0}) → List RecvEvent → M Next
and_go_on m inbox = do m; pure (go_on inbox)

-- `if (handler(...) < 0) goto error_disconnect`.
abbrev pub unless_neg : M ℤ → List RecvEvent → M Next
unless_neg m inbox = do r ← m; pure (if is_neg r then error_disconnect else go_on inbox)

module _ (x : Extern) (connfd p : ℕ) where
  case_have : List RecvEvent → M Next
  case_have inbox =
      with_int x inbox
        λ index rest. and_go_on (handle_have connfd p (reverse_byte_orderi index)) rest

  case_bitfield : ℤ → List RecvEvent → M Next
  case_bitfield len inbox =
      let x_len = i32 (len -ℤ pos 1) in
      with_buffer x inbox x_len λ bits rest. and_go_on (handle_bitfield connfd p bits x_len) rest

  -- The three integers of a request or a cancel.
  with_block : List RecvEvent → (ℤ → ℤ → ℤ → List RecvEvent → M Next) → M Next
  with_block inbox k = with_int x inbox λ index rest. with_int x rest λ begin rest.
      with_int x rest λ len rest.
        k (reverse_byte_orderi index) (reverse_byte_orderi begin) (reverse_byte_orderi len) rest

  case_request : List RecvEvent → M Next
  unfolding with_block
  case_request inbox =
      with_block inbox
        λ index begin len rest. unless_neg (handle_request connfd p index begin len) rest

  case_cancel : List RecvEvent → M Next
  unfolding with_block
  case_cancel inbox =
      with_block inbox λ index begin len rest. and_go_on (handle_cancel connfd index begin len) rest

  case_piece : ℤ → List RecvEvent → M Next
  case_piece len inbox =
      let block_len = i32 (len -ℤ pos 9) in
      with_int x inbox λ index rest. with_int x rest λ begin rest.
        with_buffer x rest block_len λ block rest.
          unless_neg
            (handle_piece x connfd p (reverse_byte_orderi index) (reverse_byte_orderi begin)
              block_len block)
            rest

  -- The switch. An unknown id is only printed.
  unfoldable pub switch_id : ℕ → ℤ → List RecvEvent → M Next
  unfolding case_have case_bitfield case_request case_cancel case_piece
  switch_id id len inbox =
      if id == choke
      then and_go_on (handle_choke p) inbox
      else if id == unchoke
      then and_go_on (handle_unchoke p) inbox
      else if id == interested
      then and_go_on (handle_interested p) inbox
      else if id == not_interested
      then and_go_on (handle_notinterested p) inbox
      else if id == have
      then case_have inbox
      else if id == bitfield_id
      then case_bitfield len inbox
      else if id == request
      then case_request inbox
      else if id == piece
      then case_piece len inbox
      else if id == cancel
      then case_cancel inbox
      else pure (go_on inbox)

  receive_id : ℤ → Received → M Next
  receive_id len r = elim r.bytes [
    | [] ↦ pure error_disconnect
    | id ∷ bytes ↦ switch_id id len r.rest
  ]

  -- The body of the while loop, with the length prefix in the order of the machine. A prefix that
  -- is not positive is a keep-alive.
  unfoldable pub handle_message : ℤ → List RecvEvent → M Next
  unfolding receive_id
  handle_message len inbox =
      if ltb_ℤ (pos 0) len
      then (let r = recv_all inbox (pos 1) in
          if is_nonpos r.result then pure error_disconnect else receive_id len r)
      else pure (go_on inbox)

  -- The while loop. `old` is what the variable `len` holds before its next bytes come in.
  unfoldable pub message_loop : ℕ → Bytes → List RecvEvent → M Ended
  message_loop zero old inbox = pure no_fuel
  message_loop (suc fuel) old inbox =
      let r = recv_all inbox (pos 4) in
      let len = reverse_byte_orderi (int_at (filled r old)) in
      let body : M Ended = do
        next ← handle_message len r.rest
        elim next [
          | go_on rest ↦ message_loop fuel (int_bytes len) rest
          | error_disconnect ↦ pure ended
        ]
      in if is_nonpos r.result then pure ended else body

-- `pieces_num_in_peers[i] --`.
one_less : ℕ → M (Unit {0})
one_less i = do
  c ← get
  n ← access (get_elem? c.pieces_num_in_peers i)
  modify λ c. record c { pieces_num_in_peers = set c.pieces_num_in_peers i (i32 (n -ℤ pos 1)) }

-- Piece `i` may be requested from another peer.
give_back : ℕ → M (Unit {0})
give_back i = do
  modify λ c. record c { pieces_state_arr = set c.pieces_state_arr i piece_havnt }
  unlock_piece

give_back_requested : ℕ → M (Unit {0})
unfolding give_back
give_back_requested i = do
  c ← get
  ours ← access (get_elem? c.pieces_state_arr i)
  when (ours == piece_requesting) (give_back i)

-- The body of the for loop at error_disconnect, for piece `i` in this state at the peer.
release_by : ℕ → ℤ → M (Unit {0})
unfolding one_less give_back_requested
release_by i state = do
  when (ltb_ℤ peer_havnt state) (one_less i)
  when (eqb_ℤ state peer_be_requested) (give_back_requested i)

unfoldable pub release_piece : ℕ → ℕ → M (Unit {0})
unfolding release_by
release_piece p i = do state ← get_peer_piece_state p i; release_by i state

-- `n` rounds from piece `i` on.
unfoldable pub release_pieces : ℕ → ℕ → ℕ → M (Unit {0})
release_pieces zero p i = pure tt
release_pieces (suc n) p i = do release_piece p i; release_pieces n p (i + 1)

-- What stands behind the label error_disconnect. `peer_data` is the peer's entry in the tracker's
-- list, where it has one.
unfoldable pub disconnect_peer : ℕ → Option TrackerPeer → M (Unit {0})
disconnect_peer p peer_data = do
  c ← get
  release_pieces c.torrent.num_pieces p 0
  peerpool_remove_node p
  mark_entry peer_data disconnect

at_end : ℕ → Option TrackerPeer → Ended → M Ended
at_end p peer_data ended = do disconnect_peer p peer_data; pure ended
at_end p peer_data no_fuel = pure no_fuel

-- The thread.
unfoldable pub message_handler : Extern → ℕ → ℕ → ℕ → Option TrackerPeer → List RecvEvent → M Ended
unfolding at_end
message_handler x fuel connfd p peer_data inbox = do
  send_bitfield x connfd
  e ← message_loop x connfd p fuel (tabulate_from 0 4 x.junk) inbox
  at_end p peer_data e
