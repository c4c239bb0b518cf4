-- ===== src/Wire/Messages/Disconnect.antt =====
-- What the end of a connection gives back: the part of `message_handler` at error_disconnect.
use simpletorrent_nju.Base.{
  Bool-cases, inl, inr, ℕ, ◌<◌, ◌==◌, if◌then◌else◌, ◌&&◌, ◌≡◌, ◌≢◌, ◌↔◌, refl, ◌∙◌, List, Option,
  none, some, ℤ, pos, ◌-ℤ◌, i32, ltb_ℤ, eqb_ℤ, get_elem?, length, IsIn, arith,
}
use simpletorrent_nju.Client.{
  Client, PeerData, TrackerPeer, ok, bind_ok, ◌>>◌, piece_requesting, piece_havnt, peer_havnt,
  peer_be_requested, disconnect,
}
use simpletorrent_nju.Pool.{peerpool_remove_node, mark_entry, set_state}
use simpletorrent_nju.Pool.Nodes.{IsPool, peerpool_remove_node-IsPool}
use simpletorrent_nju.Wire.Messages.{release_pieces, disconnect_peer}
use simpletorrent_nju.Wire.Messages.Release.{with_left, release_pieces_lem}

mark_lem :
    (d : Option TrackerPeer) (state : ℕ) (c : Client)
    → (t : List PeerData) × (mark_entry d state c ≡ ok tt (record c { tracker_peers = t }))
unfolding mark_entry
mark_lem none state c = (c.tracker_peers, refl)
mark_lem (some d) state c = elim (Bool-cases (d.answer == c.tracker_answers)) [
  | inl b ↦ (set_state d.index state c.tracker_peers, rw b refl)
  | inr b ↦ (c.tracker_peers, rw b refl)
]

-- The end of a connection of the pool, where malloc gave out the peers of the pool, no two of
-- them have one address, and the arrays of the peer and the two of the client have an entry
-- for each piece: there is no fault, the pool stays such a pool, and exactly this connection
-- is gone from it. For each piece, the number of peers that have it is one less, as an `int`,
-- where this peer had it; its state becomes PIECE_HAVNT where it was requested from this peer
-- and is being requested, and is kept else.
pub disconnect_peer-IsPool :
    (c : Client) (p : ℕ) (peer_data : Option TrackerPeer)
    → IsPool c
    → IsIn p c.pool
    → length (c.heap p).peer_pieces_state ≡ c.torrent.num_pieces
    → length c.pieces_num_in_peers ≡ c.torrent.num_pieces
    → length c.pieces_state_arr ≡ c.torrent.num_pieces
    → (c' : Client) × (disconnect_peer p peer_data c ≡ ok tt c')
      × IsPool c'
      × ((q : ℕ) → IsIn q c'.pool ↔ (IsIn q c.pool × (q ≢ p)))
      × ((j : ℕ) (s v : ℤ) (t : ℕ)
          → get_elem? (c.heap p).peer_pieces_state j ≡ some s
          → get_elem? c.pieces_num_in_peers j ≡ some v
          → get_elem? c.pieces_state_arr j ≡ some t
          → j < c.torrent.num_pieces
          → (get_elem? c'.pieces_num_in_peers j
              ≡ some (if ltb_ℤ peer_havnt s then i32 (v -ℤ pos 1) else v))
            × (get_elem? c'.pieces_state_arr j
                ≡ some (
                    if eqb_ℤ s peer_be_requested && t == piece_requesting then piece_havnt else t)))
unfolding disconnect_peer
disconnect_peer-IsPool c p d h i a b e =
    let n = c.torrent.num_pieces in
    let (nums, states, r, l, f, left) =
      release_pieces_lem p n 0 c (omega arith) (omega arith) (omega arith) in
    let c₁ = with_left nums states r l c in
    let (nodes, g, pool, gone) =
      peerpool_remove_node-IsPool c₁ p (record { given_out = h.given_out; distinct = h.distinct })
        i in
    let c₂ = record c₁ { pool = nodes } in
    let (t, m) = mark_lem d disconnect c₂ in
    (
      record c₂ { tracker_peers = t },
      bind_ok (release_pieces n p 0) (λ u. do peerpool_remove_node p; mark_entry d disconnect) c f
          ∙ bind_ok (peerpool_remove_node p) (λ u. mark_entry d disconnect) c₁ g
          ∙ m,
      record { given_out = pool.given_out; distinct = pool.distinct },
      gone,
      λ j s v t es ev et k. (
        left.num_at j s v (omega arith) (omega arith) es ev,
        left.state_at j s t (omega arith) (omega arith) es et,
      ),
    )
