-- ===== src/Wire/Choose.antt =====
-- peer_wire.c, which piece to request and from whom.
pub mod Loops
pub mod Rarest
pub mod Source
use simpletorrent_nju.Base.{
  ℕ, zero, suc, ◌+◌, ◌-◌, ◌==◌, if◌then◌else◌, Bool, ◌&&◌, List, [], ◌∷◌, Option, none, some, ℤ,
  pos, negsuc, ltb_ℤ, get_elem?, drop,
}
use simpletorrent_nju.Client.{Client, Peer, M, get, access, pure, ◌>>=◌, piece_havnt, peer_havnt}

-- A piece that we lack and some peer has.
abbrev pub wanted : ℕ → ℤ → Bool
wanted state num = state == piece_havnt && ltb_ℤ (pos 0) num

-- The first loop from `min` on, with `n` rounds left; the arrays are what stands from `min` on.
-- `none` is a read behind the end of an array.
unfoldable pub first_wanted : ℕ → ℕ → List ℕ → List ℤ → Option ℕ
first_wanted zero min states nums = some min
first_wanted (suc n) min (state ∷ states) (num ∷ nums) =
    if wanted state num then some min else first_wanted n (min + 1) states nums
first_wanted (suc n) min [] nums = none
first_wanted (suc n) min (state ∷ states) [] = none

-- The second loop from `i` on.
unfoldable pub least_wanted : ℕ → ℕ → List ℕ → List ℤ → ℕ → ℤ → Option ℕ
least_wanted zero i states nums min min_val = some min
least_wanted (suc n) i (state ∷ states) (num ∷ nums) min min_val =
    let better = wanted state num && ltb_ℤ num min_val in
    least_wanted n (i + 1) states nums (if better then i else min) (if better then num else min_val)
least_wanted (suc n) i [] nums min min_val = none
least_wanted (suc n) i (state ∷ states) [] min min_val = none

choose_from : Client → ℕ → M ℤ
choose_from c min = do
  min_val ← access (get_elem? c.pieces_num_in_peers min)
  chosen ← access (
      least_wanted (c.torrent.num_pieces - min) min (drop min c.pieces_state_arr)
        (drop min c.pieces_num_in_peers) min min_val)
  pure (pos chosen)

unfoldable pub which_piece_to_request : M ℤ
unfolding choose_from
which_piece_to_request = do
  c ← get
  min ← access (first_wanted c.torrent.num_pieces 0 c.pieces_state_arr c.pieces_num_in_peers)
  if min == c.torrent.num_pieces then pure (negsuc 0) else choose_from c min

-- `get_peer_piece_state(p->peer, index) > PEER_HAVNT`; `none` out of bounds.
unfoldable pub has_piece : (ℕ → Peer) → ℕ → ℕ → Option Bool
has_piece heap index p = elim (get_elem? (heap p).peer_pieces_state index) [
  | none ↦ none
  | some state ↦ some (ltb_ℤ peer_havnt state)
]

-- The first loop: the nodes from the first peer on that has the piece.
unfoldable pub first_having : (ℕ → Peer) → ℕ → List ℕ → Option (List ℕ)
first_having heap index [] = some []
first_having heap index (p ∷ nodes) = elim (has_piece heap index p) [
  | none ↦ none
  | some b ↦ if b then some (p ∷ nodes) else first_having heap index nodes
]

-- The second loop.
unfoldable pub least_loaded : (ℕ → Peer) → ℕ → List ℕ → ℕ → Option ℕ
least_loaded heap index [] chosen = some chosen
least_loaded heap index (p ∷ nodes) chosen = elim (has_piece heap index p) [
  | none ↦ none
  | some b ↦ least_loaded heap index nodes (
      if b
        && ltb_ℤ (heap p).pieces_num_downloaded_from_it (heap chosen).pieces_num_downloaded_from_it
      then p
      else chosen)
]

choose_peer : (ℕ → Peer) → ℕ → List ℕ → M (Option ℕ)
choose_peer heap index [] = pure none
choose_peer heap index (p ∷ nodes) = do
  chosen ← access (least_loaded heap index (p ∷ nodes) p)
  pure (some chosen)

unfoldable pub find_peer_have_piece : ℕ → M (Option ℕ)
unfolding choose_peer
find_peer_have_piece index = do
  c ← get
  nodes ← access (first_having c.heap index c.pool)
  choose_peer c.heap index nodes
