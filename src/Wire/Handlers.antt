-- ===== src/Wire/Handlers.antt =====
-- peer_wire.c, the handlers of the messages. A handler holds the mutex of the file while it runs, so
-- each one is a single step.
pub mod Complete
pub mod Piece
pub mod Bitfield
pub mod Quiet
pub mod Walk
pub mod Frame
use simpletorrent_nju.Base.{
  ℕ, zero, suc, ◌+◌, ◌/◌, ◌==◌, if◌then◌else◌, Bool, true, false, List, [], ◌∷◌, Option, none, some,
  Bytes, ℤ, pos, negsuc, ◌+ℤ◌, i32, eqb_ℤ, get_elem?, get_at, put_at,
}
use simpletorrent_nju.Bitfield.{get_bit_at_index}
use simpletorrent_nju.Client.{
  Client, Extern, M, get, modify, access, pure, ◌>>=◌, ◌>>◌, when, modify_peer, is_neg,
  unlock_piece, piece_requesting, piece_completed, piece_havnt, piece_end_game_geted, peer_have,
}
use simpletorrent_nju.FileIo.{set_block}
use simpletorrent_nju.Pool.{peer_have_piece}
use simpletorrent_nju.Wire.Send.{
  send_unchoke, send_interested, send_have, send_piece, send_cancel, refresh_bitfield,
}

unfoldable pub handle_choke : ℕ → M (Unit {0})
handle_choke p = modify_peer p λ r. record r { am_choking = 1 }

unfoldable pub handle_unchoke : ℕ → M (Unit {0})
handle_unchoke p = modify_peer p λ r. record r { am_choking = 0 }

unfoldable pub handle_interested : ℕ → M (Unit {0})
handle_interested p = do
  modify_peer p λ r. record r { am_interested = 1 }
  c ← get
  when ((c.heap p).peer_choking == 1) (do send_unchoke (c.heap p).connfd p; pure tt)

unfoldable pub handle_notinterested : ℕ → M (Unit {0})
handle_notinterested p = modify_peer p λ r. record r { am_interested = 0 }

-- An unchoke to a peer that we choke, an interested to one that has had none.
unfoldable pub open_up : ℕ → ℕ → M (Unit {0})
open_up connfd p = do
  c ← get
  when ((c.heap p).peer_choking == 1) (do send_unchoke connfd p; pure tt)
  c ← get
  when ((c.heap p).peer_interested == 0) (do send_interested connfd p; pure tt)

unfoldable pub handle_have : ℕ → ℕ → ℤ → M (Unit {0})
handle_have connfd p index = do
  c ← get
  state ← access (get_at c.pieces_state_arr index)
  when (state == piece_havnt) (do open_up connfd p; send_interested connfd p; pure tt)

unfoldable pub bitfield_round : ℕ → ℕ → Bytes → ℤ → ℕ → M (Unit {0})
bitfield_round connfd p bits bitfield_len i = do
  c ← get
  piece_state ← access (get_elem? c.pieces_state_arr i)
  peer_bit ← access (get_bit_at_index bits (pos i) bitfield_len)
  when (eqb_ℤ peer_bit (pos 1))
      (do peer_have_piece p i; when (piece_state == piece_havnt) (open_up connfd p))

-- The for loop: `n` rounds from piece `i` on.
unfoldable pub bitfield_loop : ℕ → ℕ → ℕ → Bytes → ℤ → ℕ → M (Unit {0})
bitfield_loop zero connfd p bits bitfield_len i = pure tt
bitfield_loop (suc n) connfd p bits bitfield_len i = do
  bitfield_round connfd p bits bitfield_len i
  bitfield_loop n connfd p bits bitfield_len (i + 1)

unfoldable pub handle_bitfield : ℕ → ℕ → Bytes → ℤ → M (Unit {0})
handle_bitfield connfd p bits bitfield_len = do
  c ← get
  bitfield_loop c.torrent.num_pieces connfd p bits bitfield_len 0

unfoldable pub handle_request : ℕ → ℕ → ℤ → ℤ → ℤ → M ℤ
handle_request connfd p index begin len = do
  c ← get
  if (c.heap p).peer_choking == 0
      then (do r ← send_piece connfd index begin len; pure (if is_neg r then negsuc 0 else pos 1))
      else pure (pos 1)

-- Whether every bit is set, from piece `i` on; `none` out of bounds.
unfoldable pub all_set : ℕ → Bytes → ℤ → ℕ → Option Bool
all_set zero bits bitfield_len i = some true
all_set (suc n) bits bitfield_len i =
    let more = all_set n bits bitfield_len (i + 1) in
    elim (get_bit_at_index bits (pos i) bitfield_len) [
      | none ↦ none
      | some bit ↦ if eqb_ℤ bit (pos 1) then more else some false
    ]

-- What follows `send_have` where the whole piece is there.
piece_done : ℕ → ℤ → ℤ → M ℤ
piece_done p index bitfield_len = do
  modify λ c. record c { have_pieces_num = i32 (c.have_pieces_num +ℤ pos 1) }
  c ← get
  peer_states ← access (put_at (c.heap p).peer_pieces_state index peer_have)
  modify_peer p λ r. record r { peer_pieces_state = peer_states }
  unlock_piece
  c ← get
  whole ← access (all_set c.torrent.num_pieces c.bitfield bitfield_len 0)
  when whole (modify λ c. record c { isseed = true })
  pure (pos 1)

-- What follows where the whole piece is there.
unfoldable pub complete_piece : ℕ → ℤ → ℤ → M ℤ
unfolding piece_done
complete_piece p index bitfield_len = do
  c ← get
  states ← access (put_at c.pieces_state_arr index piece_completed)
  modify λ c. record c { pieces_state_arr = states }
  send_have index
  piece_done p index bitfield_len

-- What the bit of the piece decides.
by_bit : ℕ → ℤ → ℤ → ℤ → M ℤ
by_bit p index bitfield_len bit =
    if eqb_ℤ bit (pos 1) then complete_piece p index bitfield_len else pure (pos 1)

look_up : ℕ → ℤ → M ℤ
unfolding by_bit
look_up p index = do
  c ← get
  let bitfield_len = pos (c.torrent.num_pieces / 8 + 1)
  bit ← access (get_bit_at_index c.bitfield index bitfield_len)
  by_bit p index bitfield_len bit

unfoldable pub check_piece : Extern → ℕ → ℤ → M ℤ
unfolding look_up
check_piece x p index = do refresh_bitfield x; look_up p index

-- A block in the end game, by the state of its piece.
end_game_block : Extern → ℕ → ℕ → ℤ → ℤ → ℤ → Bytes → ℕ → M ℤ
end_game_block x connfd p index begin block_len block state =
    if state == piece_requesting
    then (do
      set_block index begin block_len block
      c ← get
      states ← access (put_at c.pieces_state_arr index (piece_end_game_geted + connfd))
      modify λ c. record c { pieces_state_arr = states }
      check_piece x p index)
    else if state == piece_end_game_geted + connfd
    then (do set_block index begin block_len block; check_piece x p index)
    else (do
      r ← send_cancel connfd index begin block_len
      pure (if is_neg r then negsuc 0 else pos 1))

unfoldable pub handle_piece : Extern → ℕ → ℕ → ℤ → ℤ → ℤ → Bytes → M ℤ
unfolding end_game_block
handle_piece x connfd p index begin block_len block = do
  c ← get
  if c.is_end_game
      then (do
        state ← access (get_at c.pieces_state_arr index)
        end_game_block x connfd p index begin block_len block state)
      else (do set_block index begin block_len block; check_piece x p index)

-- The body is empty.
unfoldable pub handle_cancel : ℕ → ℤ → ℤ → ℤ → M (Unit {0})
handle_cancel connfd index begin len = pure tt
