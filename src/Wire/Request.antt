-- ===== src/Wire/Request.antt =====
-- peer_wire.c, `request_a_piece` and the thread `request_file`.
pub mod Cover
pub mod Safe
pub mod Frame
use simpletorrent_nju.Base.{
  ℕ, zero, suc, ◌+◌, ◌-◌, ◌*◌, ◌/◌, ◌==◌, if◌then◌else◌, Bool, true, false, not, ◌&&◌, List, [],
  ◌∷◌, Option, none, some, ℤ, pos, negsuc, ◌+ℤ◌, ◌-ℤ◌, i32, ltb_ℤ, leb_ℤ, eqb_ℤ, put_at,
}
use simpletorrent_nju.Client.{
  Client, M, get, modify, access, pure, ◌>>=◌, ◌>>◌, when, modify_peer, lock_piece,
  piece_requesting, peer_have, peer_be_requested,
}
use simpletorrent_nju.Pool.{get_peer_piece_state}
use simpletorrent_nju.Wire.Send.{send_interested, send_request}
use simpletorrent_nju.Wire.Choose.{which_piece_to_request, find_peer_have_piece}

-- The block would pass the end of the file.
unfoldable pub passes_end : ℕ → ℕ → ℕ → ℕ → ℕ → Bool
passes_end size index len sub_begin sub_piece_len =
    ltb_ℤ (pos size) (i32 (pos (index * len + sub_begin + sub_piece_len)))

-- What is left of the file behind `sub_begin` of the piece.
unfoldable pub rest_of_file : ℕ → ℕ → ℕ → ℕ → ℤ
rest_of_file size index len sub_begin = i32 (pos size -ℤ pos (index * len) -ℤ pos sub_begin)

-- The blocks (begin and length) that the for loop asks for, with `n` rounds left. The loop ends early
-- where nothing is left of the file.
unfoldable pub sub_requests : ℕ → ℕ → ℕ → ℕ → ℕ → ℕ → List (ℕ × ℕ)
sub_requests zero size index len sub_begin sub_piece_len = []
sub_requests (suc n) size index len sub_begin sub_piece_len =
    if passes_end size index len sub_begin sub_piece_len
    then elim (rest_of_file size index len sub_begin) [
      | pos (suc k) ↦ (sub_begin, suc k) ∷ sub_requests n size index len (sub_begin + suc k) (suc k)
      | _ ↦ []
    ]
    else (sub_begin, sub_piece_len)
      ∷ sub_requests n size index len (sub_begin + sub_piece_len) sub_piece_len

unfoldable pub request_blocks : ℕ → ℕ → List (ℕ × ℕ) → M (Unit {0})
request_blocks connfd index [] = pure tt
request_blocks connfd index ((begin, len) ∷ blocks) = do
  send_request connfd (pos index) (pos begin) (pos len)
  request_blocks connfd index blocks

unfoldable pub request_a_piece : ℕ → ℕ → ℕ → ℕ → M (Unit {0})
request_a_piece connfd p index len = do
  c ← get
  states ← access (put_at c.pieces_state_arr (pos index) piece_requesting)
  modify λ c. record c { pieces_state_arr = states }
  send_interested connfd p
  request_blocks connfd index (sub_requests 4 c.torrent.size index len 0 (len / 4))

-- Where the thread stands: in its first loop, before the mutex there with the peer and the piece that
-- it has chosen, in the empty loop behind it, in the end game, before the mutex there, in the walk along
-- the pool with what is left of it, or returned.
pub data Stage : Type 0 where
  downloading : Stage
  waits_with : ℕ → ℕ → Stage
  draining : Stage
  end_game : Stage
  end_game_waits_with : ℕ → Stage
  walks : ℕ → List ℕ → Stage
  returned : Stage

abbrev pub min_rest_num : ℤ
min_rest_num = pos 5

-- What follows LOCK_PIECE in the first loop.
unfoldable pub request_from : ℕ → ℕ → M Stage
request_from p index = do
  c ← get
  request_a_piece (c.heap p).connfd p index c.torrent.piece_len
  c ← get
  states ← access (put_at (c.heap p).peer_pieces_state (pos index) peer_be_requested)
  modify_peer p λ r. record r {
    peer_pieces_state = states;
    pieces_num_downloaded_from_it = i32 (r.pieces_num_downloaded_from_it +ℤ pos 1);
  }
  modify λ c. record c { rest_pieces_num = i32 (c.rest_pieces_num -ℤ pos 1) }
  pure downloading

locked : M Stage → Stage → Bool → M Stage
locked go wait true = go
locked go wait false = pure wait

request_chosen : ℕ → Option ℕ → M Stage
unfolding locked
request_chosen index none = pure downloading
request_chosen index (some p) = do
  b ← lock_piece
  locked (request_from p index) (waits_with p index) b

-- One round of the first loop.
request_round : ℤ → M Stage
unfolding request_chosen
request_round (negsuc k) = pure downloading
request_round (pos index) = do p ← find_peer_have_piece index; request_chosen index p

-- What is asked of one node in the end game.
unfoldable pub request_from_one : ℕ → ℕ → M (Unit {0})
request_from_one index p = do
  state ← get_peer_piece_state p index
  when (eqb_ℤ state peer_have) (do
    c ← get
    request_a_piece (c.heap p).connfd p index c.torrent.piece_len
    c ← get
    states ← access (put_at (c.heap p).peer_pieces_state (pos index) peer_be_requested)
    modify_peer p λ r. record r { peer_pieces_state = states })

-- The nodes behind `p` in the pool of now. Where `p` has been removed meanwhile, its node is freed, and
-- `p->next` is taken to be what it was.
unfoldable pub nodes_behind : ℕ → List ℕ → List ℕ → List ℕ
nodes_behind p [] nodes = nodes
nodes_behind p (q ∷ pool) nodes = if p == q then pool else nodes_behind p pool nodes

-- The walk holds no mutex of the pool, so each of its rounds is a step of its own: `nodes` are those
-- from the one where it stands.
walk_step : ℕ → List ℕ → M Stage
walk_step index [] = pure end_game
walk_step index (p ∷ nodes) = do
  request_from_one index p
  c ← get
  pure (walks index (nodes_behind p c.pool nodes))

-- The walk begins at the head of the pool.
request_everywhere : ℕ → M Stage
request_everywhere index = do c ← get; pure (walks index c.pool)

end_game_round : ℤ → M Stage
unfolding request_everywhere locked
end_game_round (negsuc k) = pure end_game
end_game_round (pos index) = do
  b ← lock_piece
  locked (request_everywhere index) (end_game_waits_with index) b

-- Another thread has released the mutex, or not yet.
take_lock : M Stage → Stage → M Stage
take_lock go wait c =
    if c.pieces_locked then pure wait c else go (record c { pieces_locked = true })

-- The first statements of the thread.
unfoldable pub start_request_file : M Stage
start_request_file = do
  modify λ c. record c { have_pieces_num = i32 (pos c.torrent.num_pieces -ℤ c.rest_pieces_num) }
  pure downloading

-- One round of the loop in which the thread is, or one more attempt to get the mutex.
unfoldable pub request_file_step : Stage → M Stage
unfolding request_round end_game_round take_lock request_everywhere walk_step
request_file_step downloading = do
  c ← get
  if not c.isseed && ltb_ℤ min_rest_num c.rest_pieces_num
      then (do index ← which_piece_to_request; request_round index)
      else pure (if leb_ℤ c.rest_pieces_num (pos 0) then returned else draining)
request_file_step (waits_with p index) = take_lock (request_from p index) (waits_with p index)
request_file_step draining = do
  c ← get
  if ltb_ℤ min_rest_num (i32 (pos c.torrent.num_pieces -ℤ c.have_pieces_num))
      then pure draining
      else (do modify λ c. record c { is_end_game = true }; pure end_game)
request_file_step end_game = do
  c ← get
  if c.isseed then pure returned else (do index ← which_piece_to_request; end_game_round index)
request_file_step (end_game_waits_with index) =
    take_lock (request_everywhere index) (end_game_waits_with index)
request_file_step (walks index nodes) = walk_step index nodes
request_file_step returned = pure returned
