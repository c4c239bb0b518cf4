-- ===== src/Wire/Messages/Shape.antt =====
-- The end of a connection keeps the shape of the client.
use simpletorrent_nju.Base.{
  ◌≡◌, ℕ, zero, suc, ◌<◌, ◌+◌, ◌==◌, Option, ℤ, pos, i32, ◌-ℤ◌, ltb_ℤ, eqb_ℤ, get_elem?, length-set,
  IsIn, All-IsIn,
}
use simpletorrent_nju.Client.{
  Client, TrackerPeer, ok, piece_requesting, piece_havnt, peer_havnt, peer_be_requested, disconnect,
}
use simpletorrent_nju.Client.Frame.{
  IsAlike, Keeps, Keeps-bind, Keeps-pure, Keeps-get, Keeps-step, Keeps-when, IsAlike-nums,
  IsAlike-states, access-Keeps,
}
use simpletorrent_nju.Client.Preserves.{
  leaves, left_with, Preserves, Preserves-Keeps, Preserves-bind, Preserves-get,
}
use simpletorrent_nju.Pool.{get_peer_piece_state, peerpool_remove_node}
use simpletorrent_nju.Pool.Shape.{
  IsFitting, IsFitting-IsAlike, IsLater, IsLater-IsAlike, IsShapedSince,
}
use simpletorrent_nju.Wire.Handlers.Frame.{unlock_piece-Keeps}
use simpletorrent_nju.Wire.Handshake.Shape.{mark_entry-Keeps}
use simpletorrent_nju.Wire.Messages.{
  one_less, give_back, give_back_requested, release_by, release_piece, release_pieces,
  disconnect_peer,
}
use simpletorrent_nju.Wire.Messages.Disconnect.{disconnect_peer-IsPool}

release_by-Keeps : (i : ℕ) (state : ℤ) → Keeps (Unit {0}) (release_by i state)
unfolding release_by one_less give_back_requested give_back
release_by-Keeps i state =
    Keeps-bind
      (Keeps-when (ltb_ℤ peer_havnt state) (
        Keeps-get λ c. Keeps-bind (access-Keeps (get_elem? c.pieces_num_in_peers i)) λ n.
          Keeps-step _
            λ c'. IsAlike-nums _ (length-set c'.pieces_num_in_peers i (i32 (n -ℤ pos 1)))))
      λ _. Keeps-when (eqb_ℤ state peer_be_requested) (
        Keeps-get λ c. Keeps-bind (access-Keeps (get_elem? c.pieces_state_arr i)) λ ours.
          Keeps-when (ours == piece_requesting) (
            Keeps-bind
              (Keeps-step _ λ c'. IsAlike-states _ (length-set c'.pieces_state_arr i piece_havnt))
              λ _. unlock_piece-Keeps))

release_pieces-Keeps : (n p i : ℕ) → Keeps (Unit {0}) (release_pieces n p i)
unfolding release_pieces release_piece get_peer_piece_state
release_pieces-Keeps zero p i = Keeps-pure tt
release_pieces-Keeps (suc n) p i =
    Keeps-bind
      (Keeps-bind (Keeps-get λ c. access-Keeps (get_elem? (c.heap p).peer_pieces_state i))
        λ state. release_by-Keeps i state)
      λ _. release_pieces-Keeps n p (i + 1)

peerpool_remove_node-IsFitting : (p : ℕ) → Preserves IsFitting (peerpool_remove_node p)
unfolding peerpool_remove_node
peerpool_remove_node-IsFitting p = record {
  run = λ c h. leaves (record { states = h.states; nums = h.nums; peers = h.peers });
}

peerpool_remove_node-IsLater : (n k p : ℕ) → Preserves (IsLater n k) (peerpool_remove_node p)
unfolding peerpool_remove_node
peerpool_remove_node-IsLater n k p = record {
  run = λ c h. leaves (record { pieces = h.pieces; given = h.given });
}

disconnect_peer-Preserves :
    {P : Client → Type 0}
    → ((c c' : Client) → IsAlike c c' → P c → P c')
    → ((p : ℕ) → Preserves P (peerpool_remove_node p))
    → (p : ℕ) (d : Option TrackerPeer) → Preserves P (disconnect_peer p d)
unfolding disconnect_peer
disconnect_peer-Preserves alike removed p d = Preserves-get λ c.
    Preserves-bind (Preserves-Keeps alike (release_pieces-Keeps c.torrent.num_pieces p 0))
      λ _. Preserves-bind (removed p) λ _. Preserves-Keeps alike (mark_entry-Keeps d disconnect)

-- a connection of the pool ends without a fault
pub disconnect_peer-IsShapedSince :
    {n k : ℕ} (c : Client) (p : ℕ) (d : Option TrackerPeer)
    → IsShapedSince n k c
    → IsIn p c.pool
    → (c' : Client) × (disconnect_peer p d c ≡ ok tt c') × IsShapedSince n k c'
disconnect_peer-IsShapedSince {n} {k} c p d h i =
    let s = h.shaped in
    let given = All-IsIn (λ q. q < c.next_peer) p c.pool s.proper.given_out i in
    let (c', e, proper, _, _) =
      disconnect_peer-IsPool c p d s.proper i (s.fits.peers p given) s.fits.nums s.fits.states in
    let fits =
      disconnect_peer-Preserves (λ c c' a. IsFitting-IsAlike a) peerpool_remove_node-IsFitting p
        d in
    let later =
      disconnect_peer-Preserves (λ c c' a. IsLater-IsAlike a n k) (peerpool_remove_node-IsLater n k)
        p d in
    (
      c',
      e,
      record {
        shaped = record { fits = left_with IsFitting (fits.run c s.fits) e; proper = proper };
        later = left_with (IsLater n k) (later.run c h.later) e;
      },
    )
