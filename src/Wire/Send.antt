-- ===== src/Wire/Send.antt =====
-- peer_wire.c, the functions that send the messages behind the handshake. An `int` is stored in the
-- order of the machine, so each one is reversed first.
pub mod Bits
pub mod Block
pub mod Frame
use simpletorrent_nju.Base.{
  ℕ, ◌+◌, ◌-◌, ◌/◌, ltb, if◌then◌else◌, not, List, [], ◌∷◌, ◌++◌, Bytes, replicate, ℤ, pos, negsuc,
  ◌+ℤ◌, i32, eqb_ℤ, get_at,
}
use simpletorrent_nju.Words.{reverse_byte_orderi, int_bytes}
use simpletorrent_nju.Client.{
  Extern, fault, M, get, modify, access, pure, ◌>>=◌, ◌>>◌, when, modify_peer, send, is_neg,
  peer_have,
}
use simpletorrent_nju.FileIo.{gen_bitfield, get_block}

-- `enum message_id`.
abbrev pub choke : ℕ
choke = 0

abbrev pub unchoke : ℕ
unchoke = 1

abbrev pub interested : ℕ
interested = 2

abbrev pub not_interested : ℕ
not_interested = 3

abbrev pub have : ℕ
have = 4

abbrev pub bitfield_id : ℕ
bitfield_id = 5

abbrev pub request : ℕ
request = 6

abbrev pub piece : ℕ
piece = 7

abbrev pub cancel : ℕ
cancel = 8

-- The bytes of `reverse_byte_orderi(i)`.
abbrev pub net_int : ℤ → Bytes
net_int i = int_bytes (reverse_byte_orderi i)

-- What the functions return: -1 where `Send` failed.
abbrev pub sent_ok : ℤ → ℤ
sent_ok r = if is_neg r then negsuc 0 else pos 1

unfoldable pub send_keepalive : ℕ → M ℤ
send_keepalive connfd = do r ← send connfd (int_bytes (pos 0)); pure (sent_ok r)

-- A message of five bytes, and the assignment that follows where it was sent.
unfoldable pub send_flag : ℕ → Bytes → M (Unit {0}) → M ℤ
send_flag connfd buffer assign = do
  r ← send connfd buffer
  when (not (is_neg r)) assign
  pure (sent_ok r)

unfoldable pub send_choke : ℕ → ℕ → M ℤ
unfolding send_flag
send_choke connfd p =
    send_flag connfd (int_bytes (pos 0x1000) ++ choke ∷ [])
      (modify_peer p λ r. record r { peer_choking = 1 })

unfoldable pub send_unchoke : ℕ → ℕ → M ℤ
unfolding send_flag
send_unchoke connfd p =
    send_flag connfd (net_int (pos 1) ++ unchoke ∷ [])
      (modify_peer p λ r. record r { peer_choking = 0 })

unfoldable pub send_interested : ℕ → ℕ → M ℤ
unfolding send_flag
send_interested connfd p =
    send_flag connfd (net_int (pos 1) ++ interested ∷ [])
      (modify_peer p λ r. record r { peer_interested = 1 })

unfoldable pub send_notinterested : ℕ → ℕ → M ℤ
unfolding send_flag
send_notinterested connfd p =
    send_flag connfd (net_int (pos 1) ++ not_interested ∷ [])
      (modify_peer p λ r. record r { peer_interested = 0 })

unfoldable pub have_message : ℤ → Bytes
have_message piece_index = net_int (pos 5) ++ (have ∷ net_int piece_index)

-- The walk along the pool; an error of `Send` is only printed.
unfoldable pub have_loop : ℤ → List ℕ → M (Unit {0})
have_loop piece_index [] = pure tt
have_loop piece_index (p ∷ nodes) = do
  c ← get
  state ← access (get_at (c.heap p).peer_pieces_state piece_index)
  when (not (eqb_ℤ state peer_have)) (do send (c.heap p).connfd (have_message piece_index); pure tt)
  have_loop piece_index nodes

unfoldable pub send_have : ℤ → M ℤ
send_have piece_index = do c ← get; have_loop piece_index c.pool; pure (pos 1)

unfoldable pub bitfield_header : ℕ → Bytes
bitfield_header x_len = net_int (pos (x_len + 1)) ++ bitfield_id ∷ []

-- `globalInfo.bitfield = gen_bitfield(...)`.
unfoldable pub refresh_bitfield : Extern → M (Unit {0})
refresh_bitfield x = do
  c ← get
  bits ← gen_bitfield x c.torrent.pieces c.torrent.piece_len c.torrent.num_pieces
  modify λ c. record c { bitfield = bits }

send_bits : Extern → ℕ → M ℤ
send_bits x connfd = do refresh_bitfield x; c ← get; r ← send connfd c.bitfield; pure (sent_ok r)

-- The bitfield has the `num_pieces / 8 + 1` bytes that `gen_bitfield` allocates.
unfoldable pub send_bitfield : Extern → ℕ → M ℤ
unfolding send_bits
send_bitfield x connfd = do
  c ← get
  r ← send connfd (bitfield_header (c.torrent.num_pieces / 8 + 1))
  if is_neg r then pure (negsuc 0) else send_bits x connfd

-- A request and a cancel differ in the id.
unfoldable pub block_message : ℕ → ℤ → ℤ → ℤ → Bytes
block_message id index begin len =
    net_int (pos 13) ++ (id ∷ (net_int index ++ (net_int begin ++ net_int len)))

unfoldable pub send_request : ℕ → ℤ → ℤ → ℤ → M ℤ
unfolding block_message
send_request connfd index begin len = do
  r ← send connfd (block_message request index begin len)
  pure (sent_ok r)

unfoldable pub send_cancel : ℕ → ℤ → ℤ → ℤ → M ℤ
unfolding block_message
send_cancel connfd index begin len = do
  r ← send connfd (block_message cancel index begin len)
  pure (sent_ok r)

unfoldable pub piece_message : ℤ → ℤ → ℤ → Bytes → Bytes
piece_message index begin block_len block =
    net_int (i32 (pos 9 +ℤ block_len)) ++ (piece ∷ (net_int index ++ (net_int begin ++ block)))

send_block : ℕ → ℤ → ℤ → ℤ → ℤ × Bytes → M ℤ
send_block connfd index begin block_len r =
    if is_neg r.0
    then pure (negsuc 0)
    else (do s ← send connfd (piece_message index begin block_len r.1); pure (sent_ok s))

-- The buffer has `block_len + 13` bytes. Where that is negative malloc gives NULL, and below 13 the
-- header does not fit: memset or the stores behind it are a fault.
piece_buffer : ℕ → ℤ → ℤ → ℤ → ℤ → M ℤ
unfolding send_block
piece_buffer connfd index begin block_len (negsuc k) = λ c. fault
piece_buffer connfd index begin block_len (pos n) = if ltb n 13 then (λ c. fault) else (do
  r ← get_block index begin block_len (replicate (n - 13) 0)
  send_block connfd index begin block_len r)

unfoldable pub send_piece : ℕ → ℤ → ℤ → ℤ → M ℤ
unfolding piece_buffer
send_piece connfd index begin block_len =
    piece_buffer connfd index begin block_len (i32 (block_len +ℤ pos 13))
