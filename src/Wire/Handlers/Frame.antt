-- ===== src/Wire/Handlers/Frame.antt =====
-- The handlers of the messages leave the frame of the client alone, whatever the peer has sent.
use simpletorrent_nju.Base.{
  refl, ap, ℕ, zero, suc, ◌+◌, ◌/◌, ◌==◌, true, Bytes, ℤ, pos, i32, ◌+ℤ◌, eqb_ℤ, get_at, get_elem?,
  put_at, length-set,
}
use simpletorrent_nju.Client.{
  Client, Extern, M, get, modify, access, ◌>>=◌, ◌>>◌, modify_peer, update, unlock_piece,
  piece_requesting, piece_completed, piece_havnt, piece_end_game_geted, peer_have,
}
use simpletorrent_nju.Client.Frame.{
  IsAlike-peer, IsAlike-states, IsAlike-nums, length-put_at, comes_back, Keeps, After-access,
  After-alike, Keeps-bind, Keeps-pure, Keeps-when, Keeps-if, Keeps-get, Keeps-step, access-Keeps,
}
use simpletorrent_nju.Bitfield.{get_bit_at_index}
use simpletorrent_nju.FileIo.{set_block}
use simpletorrent_nju.Pool.{peer_have_piece}
use simpletorrent_nju.Wire.Send.Frame.{
  modify_peer-Keeps, send_unchoke-Keeps, send_interested-Keeps, send_cancel-Keeps, send_have-Keeps,
  send_piece-Keeps, refresh_bitfield-Keeps,
}
use simpletorrent_nju.Wire.Handlers.{
  handle_interested, open_up, handle_have, bitfield_round, bitfield_loop, handle_bitfield,
  handle_request, piece_done, complete_piece, by_bit, look_up, check_piece, end_game_block,
  handle_piece, all_set,
}

-- Assignments to the array of states and to that of a peer, before `m`; the array is read before.
module _ {A : Type 0} (index : ℤ) where
  pub Keeps-put_state :
      {m : M A} (v : ℕ)
      → Keeps (Unit {0}) m
      → Keeps (Unit {0}) (do
        c ← get
        states ← access (put_at c.pieces_state_arr index v)
        modify λ c. record c { pieces_state_arr = states }
        m)
  Keeps-put_state {m} v h = record {
    run = λ c.
        After-access (put_at c.pieces_state_arr index v)
          (λ states. do modify λ c. record c { pieces_state_arr = states }; m) (λ _. tt)
          λ states e.
            After-alike (IsAlike-states states (length-put_at c.pieces_state_arr index v states e))
              (h.run (record c { pieces_state_arr = states }));
  }

  pub Keeps-put_peer :
      {m : Client → M A} (p : ℕ) (v : ℤ)
      → ((c : Client) → Keeps (Unit {0}) (m c))
      → Keeps (Unit {0}) (do
        c ← get
        states ← access (put_at (c.heap p).peer_pieces_state index v)
        modify_peer p λ r. record r { peer_pieces_state = states }
        m c)
  Keeps-put_peer {m} p v h = record {
    run = λ c.
        After-access (put_at (c.heap p).peer_pieces_state index v)
          (λ states. do modify_peer p λ r. record r { peer_pieces_state = states }; m c) (λ _. tt)
          λ states e.
            After-alike
              (IsAlike-peer p (record (c.heap p) { peer_pieces_state = states })
                (ap (λ n. ((c.heap p).peer_ip, (c.heap p).connfd, n))
                  (length-put_at (c.heap p).peer_pieces_state index v states e)))
              ((h c).run (record c {
                heap = update c.heap p (record (c.heap p) { peer_pieces_state = states });
              }));
  }

set_block-Keeps :
    (index begin len : ℤ) (block : Bytes) → Keeps (Unit {0}) (set_block index begin len block)
unfolding set_block
set_block-Keeps index begin len block = Keeps-get λ c. Keeps-bind (access-Keeps _) λ r.
    Keeps-bind (Keeps-step _ λ c'. record { same_frame = refl; same_peers = λ q. refl })
      λ _. Keeps-pure (r.0)

pub peer_have_piece-Keeps : (p index : ℕ) → Keeps (Unit {0}) (peer_have_piece p index)
unfolding peer_have_piece
peer_have_piece-Keeps p index = Keeps-put_peer (pos index) p (pos 1) λ c.
    Keeps-bind (access-Keeps (get_elem? c.pieces_num_in_peers index)) λ n.
      Keeps-step _ λ c'. IsAlike-nums _ (length-set c'.pieces_num_in_peers index (i32 (n +ℤ pos 1)))

pub handle_interested-Keeps : (p : ℕ) → Keeps (Unit {0}) (handle_interested p)
unfolding handle_interested
handle_interested-Keeps p =
    Keeps-bind (modify_peer-Keeps p (λ r. record r { am_interested = 1 }) λ r. refl) λ _.
      Keeps-get λ c.
        Keeps-when ((c.heap p).peer_choking == 1)
          (Keeps-bind (send_unchoke-Keeps (c.heap p).connfd p) λ _. Keeps-pure tt)

open_up-Keeps : (connfd p : ℕ) → Keeps (Unit {0}) (open_up connfd p)
unfolding open_up
open_up-Keeps connfd p = Keeps-get λ c.
    Keeps-bind
      (Keeps-when ((c.heap p).peer_choking == 1)
        (Keeps-bind (send_unchoke-Keeps connfd p) λ _. Keeps-pure tt))
      λ _. Keeps-get λ c'.
        Keeps-when ((c'.heap p).peer_interested == 0)
          (Keeps-bind (send_interested-Keeps connfd p) λ _. Keeps-pure tt)

pub handle_have-Keeps : (connfd p : ℕ) (index : ℤ) → Keeps (Unit {0}) (handle_have connfd p index)
unfolding handle_have
handle_have-Keeps connfd p index = Keeps-get λ c.
    Keeps-bind (access-Keeps (get_at c.pieces_state_arr index)) λ state.
      Keeps-when (state == piece_havnt) (
        Keeps-bind (open_up-Keeps connfd p)
          λ _. Keeps-bind (send_interested-Keeps connfd p) λ _. Keeps-pure tt)

bitfield_round-Keeps :
    (connfd p : ℕ) (bits : Bytes) (len : ℤ) (i : ℕ)
    → Keeps (Unit {0}) (bitfield_round connfd p bits len i)
unfolding bitfield_round
bitfield_round-Keeps connfd p bits len i = Keeps-get λ c.
    Keeps-bind (access-Keeps (get_elem? c.pieces_state_arr i)) λ state.
      Keeps-bind (access-Keeps (get_bit_at_index bits (pos i) len)) λ bit.
        Keeps-when (eqb_ℤ bit (pos 1)) (
          Keeps-bind (peer_have_piece-Keeps p i)
            λ _. Keeps-when (state == piece_havnt) (open_up-Keeps connfd p))

bitfield_loop-Keeps :
    (n connfd p : ℕ) (bits : Bytes) (len : ℤ) (i : ℕ)
    → Keeps (Unit {0}) (bitfield_loop n connfd p bits len i)
unfolding bitfield_loop
bitfield_loop-Keeps zero connfd p bits len i = Keeps-pure tt
bitfield_loop-Keeps (suc n) connfd p bits len i =
    Keeps-bind (bitfield_round-Keeps connfd p bits len i)
      λ _. bitfield_loop-Keeps n connfd p bits len (i + 1)

pub handle_bitfield-Keeps :
    (connfd p : ℕ) (bits : Bytes) (len : ℤ) → Keeps (Unit {0}) (handle_bitfield connfd p bits len)
unfolding handle_bitfield
handle_bitfield-Keeps connfd p bits len =
    Keeps-get λ c. bitfield_loop-Keeps c.torrent.num_pieces connfd p bits len 0

pub handle_request-Keeps :
    (connfd p : ℕ) (index begin len : ℤ)
    → Keeps (Unit {0}) (handle_request connfd p index begin len)
unfolding handle_request
handle_request-Keeps connfd p index begin len = Keeps-get λ c.
    Keeps-if ((c.heap p).peer_choking == 0)
      (Keeps-bind (send_piece-Keeps connfd index begin len) λ r. Keeps-pure _) (Keeps-pure (pos 1))

pub unlock_piece-Keeps : Keeps (Unit {0}) unlock_piece
unfolding unlock_piece
unlock_piece-Keeps = record {
  run = λ c. comes_back (record { same_frame = refl; same_peers = λ q. refl }) tt;
}

piece_done-Keeps : (p : ℕ) (index len : ℤ) → Keeps (Unit {0}) (piece_done p index len)
unfolding piece_done
piece_done-Keeps p index len =
    Keeps-bind (Keeps-step _ λ c. record { same_frame = refl; same_peers = λ q. refl }) λ _.
      Keeps-put_peer index p peer_have λ c. Keeps-bind unlock_piece-Keeps λ _. Keeps-get λ c'.
        Keeps-bind (access-Keeps (all_set c'.torrent.num_pieces c'.bitfield len 0)) λ whole.
          Keeps-bind
            (Keeps-when whole (
              Keeps-step (λ c. record c { isseed = true })
                λ c. record { same_frame = refl; same_peers = λ q. refl }))
            λ _. Keeps-pure (pos 1)

complete_piece-Keeps : (p : ℕ) (index len : ℤ) → Keeps (Unit {0}) (complete_piece p index len)
unfolding complete_piece
complete_piece-Keeps p index len =
    Keeps-put_state index piece_completed
      (Keeps-bind (send_have-Keeps index) λ _. piece_done-Keeps p index len)

check_piece-Keeps : (x : Extern) (p : ℕ) (index : ℤ) → Keeps (Unit {0}) (check_piece x p index)
unfolding check_piece look_up by_bit
check_piece-Keeps x p index = Keeps-bind (refresh_bitfield-Keeps x) λ _. Keeps-get λ c.
    let len = pos (c.torrent.num_pieces / 8 + 1) in
    Keeps-bind (access-Keeps (get_bit_at_index c.bitfield index len))
      λ bit. Keeps-if (eqb_ℤ bit (pos 1)) (complete_piece-Keeps p index len) (Keeps-pure (pos 1))

module _ (x : Extern) (connfd p : ℕ) (index begin len : ℤ) (block : Bytes) where
  end_game_block-Keeps :
      (state : ℕ) → Keeps (Unit {0}) (end_game_block x connfd p index begin len block state)
  unfolding end_game_block
  end_game_block-Keeps state =
      Keeps-if (state == piece_requesting)
        (Keeps-bind (set_block-Keeps index begin len block)
          λ _. Keeps-put_state index (piece_end_game_geted + connfd) (check_piece-Keeps x p index))
        (Keeps-if (state == piece_end_game_geted + connfd)
          (Keeps-bind (set_block-Keeps index begin len block) λ _. check_piece-Keeps x p index)
          (Keeps-bind (send_cancel-Keeps connfd index begin len) λ r. Keeps-pure _))

  pub handle_piece-Keeps : Keeps (Unit {0}) (handle_piece x connfd p index begin len block)
  unfolding handle_piece
  handle_piece-Keeps = Keeps-get λ c.
      Keeps-if c.is_end_game
        (Keeps-bind (access-Keeps (get_at c.pieces_state_arr index)) end_game_block-Keeps)
        (Keeps-bind (set_block-Keeps index begin len block) λ _. check_piece-Keeps x p index)
