-- ===== src/Wire/Send/Frame.antt =====
-- Sending leaves the frame of the client alone.
use simpletorrent_nju.Base.{
  ◌≡◌, refl, ℕ, ◌-◌, ltb, not, List, [], ◌∷◌, Bytes, replicate, ℤ, pos, negsuc, i32, ◌+ℤ◌, eqb_ℤ,
  get_at,
}
use simpletorrent_nju.Client.{Peer, Extern, M, send, is_neg, peer_have, modify_peer}
use simpletorrent_nju.Client.Frame.{
  IsAlike-peer, peer_frame, comes_back, faults, Keeps, Keeps-bind, Keeps-pure, Keeps-when, Keeps-if,
  Keeps-get, Keeps-step, access-Keeps,
}
use simpletorrent_nju.FileIo.{gen_bitfield, get_block}
use simpletorrent_nju.Wire.Send.{
  sent_ok, send_flag, send_interested, send_unchoke, have_message, have_loop, send_have,
  refresh_bitfield, send_bits, send_bitfield, send_request, send_cancel, send_block, piece_buffer,
  send_piece, piece_message,
}

module _ {F : Type 0} where
  pub send-Keeps : (fd : ℕ) (bytes : Bytes) → Keeps F (send fd bytes)
  unfolding send
  send-Keeps fd bytes = record {
    run = λ c. comes_back (record { same_frame = refl; same_peers = λ q. refl }) tt;
  }

  pub modify_peer-Keeps :
      (p : ℕ) (f : Peer → Peer)
      → ((r : Peer) → peer_frame (f r) ≡ peer_frame r)
      → Keeps F (modify_peer p f)
  modify_peer-Keeps p f h = record {
    run = λ c. comes_back (IsAlike-peer p (f (c.heap p)) (h (c.heap p))) tt;
  }

  send_flag-Keeps :
      (connfd : ℕ) (buffer : Bytes) (assign : M (Unit {0}))
      → Keeps F assign
      → Keeps F (send_flag connfd buffer assign)
  unfolding send_flag
  send_flag-Keeps connfd buffer assign h =
      Keeps-bind (send-Keeps connfd buffer)
        λ r. Keeps-bind (Keeps-when (not (is_neg r)) h) λ _. Keeps-pure (sent_ok r)

  pub send_unchoke-Keeps : (connfd p : ℕ) → Keeps F (send_unchoke connfd p)
  unfolding send_unchoke
  send_unchoke-Keeps connfd p =
      send_flag-Keeps connfd _ _
        (modify_peer-Keeps p (λ r. record r { peer_choking = 0 }) λ r. refl)

  pub send_interested-Keeps : (connfd p : ℕ) → Keeps F (send_interested connfd p)
  unfolding send_interested
  send_interested-Keeps connfd p =
      send_flag-Keeps connfd _ _
        (modify_peer-Keeps p (λ r. record r { peer_interested = 1 }) λ r. refl)

  pub send_request-Keeps :
      (connfd : ℕ) (index begin len : ℤ) → Keeps F (send_request connfd index begin len)
  unfolding send_request
  send_request-Keeps connfd index begin len =
      Keeps-bind (send-Keeps connfd _) λ r. Keeps-pure (sent_ok r)

  pub send_cancel-Keeps :
      (connfd : ℕ) (index begin len : ℤ) → Keeps F (send_cancel connfd index begin len)
  unfolding send_cancel
  send_cancel-Keeps connfd index begin len =
      Keeps-bind (send-Keeps connfd _) λ r. Keeps-pure (sent_ok r)

have_loop-Keeps : (index : ℤ) (nodes : List ℕ) → Keeps (Unit {0}) (have_loop index nodes)
unfolding have_loop
have_loop-Keeps index [] = Keeps-pure tt
have_loop-Keeps index (p ∷ nodes) = Keeps-get λ c.
    Keeps-bind (access-Keeps (get_at (c.heap p).peer_pieces_state index)) λ state.
      Keeps-bind
        (Keeps-when (not (eqb_ℤ state peer_have))
          (Keeps-bind (send-Keeps (c.heap p).connfd (have_message index)) λ _. Keeps-pure tt))
        λ _. have_loop-Keeps index nodes

pub send_have-Keeps : (index : ℤ) → Keeps (Unit {0}) (send_have index)
unfolding send_have
send_have-Keeps index =
    Keeps-get λ c. Keeps-bind (have_loop-Keeps index c.pool) λ _. Keeps-pure (pos 1)

pub gen_bitfield-Keeps :
    (x : Extern) (hashes : Bytes) (len num : ℕ) → Keeps (Unit {0}) (gen_bitfield x hashes len num)
unfolding gen_bitfield
gen_bitfield-Keeps x hashes len num = Keeps-get λ c. Keeps-bind (access-Keeps _) λ g.
    Keeps-bind (Keeps-step _ λ c'. record { same_frame = refl; same_peers = λ q. refl })
      λ _. Keeps-pure g.bits

pub refresh_bitfield-Keeps : (x : Extern) → Keeps (Unit {0}) (refresh_bitfield x)
unfolding refresh_bitfield
refresh_bitfield-Keeps x = Keeps-get λ c.
    Keeps-bind (gen_bitfield-Keeps x _ _ _)
      λ bits. Keeps-step _ λ c'. record { same_frame = refl; same_peers = λ q. refl }

pub send_bitfield-Keeps : (x : Extern) (connfd : ℕ) → Keeps (Unit {0}) (send_bitfield x connfd)
unfolding send_bitfield send_bits
send_bitfield-Keeps x connfd = Keeps-get λ c. Keeps-bind (send-Keeps connfd _) λ r.
    Keeps-if (is_neg r) (Keeps-pure (negsuc 0)) (
      Keeps-bind (refresh_bitfield-Keeps x)
        λ _. Keeps-get λ c'. Keeps-bind (send-Keeps connfd c'.bitfield) λ s. Keeps-pure (sent_ok s))

get_block-Keeps :
    (index begin len : ℤ) (block : Bytes) → Keeps (Unit {0}) (get_block index begin len block)
unfolding get_block
get_block-Keeps index begin len block = Keeps-get λ c. access-Keeps _

piece_buffer-Keeps :
    (connfd : ℕ) (index begin len room : ℤ)
    → Keeps (Unit {0}) (piece_buffer connfd index begin len room)
unfolding piece_buffer send_block
piece_buffer-Keeps connfd index begin len (negsuc k) = record { run = λ c. faults tt }
piece_buffer-Keeps connfd index begin len (pos n) =
    Keeps-if (ltb n 13) (record { run = λ c. faults tt })
      (Keeps-bind (get_block-Keeps index begin len (replicate (n - 13) 0)) λ r.
        Keeps-if (is_neg r.0) (Keeps-pure (negsuc 0)) (
          Keeps-bind (send-Keeps connfd (piece_message index begin len r.1))
            λ s. Keeps-pure (sent_ok s)))

pub send_piece-Keeps :
    (connfd : ℕ) (index begin len : ℤ) → Keeps (Unit {0}) (send_piece connfd index begin len)
unfolding send_piece
send_piece-Keeps connfd index begin len =
    piece_buffer-Keeps connfd index begin len (i32 (len +ℤ pos 13))
