-- ===== src/Pool/Shape.antt =====
-- The arrays of the client and of its peers fit the torrent.
use simpletorrent_nju.Base.{
  ◌≡◌, ◌≢◌, ◌<◌, ◌≤◌, ap, sym, ◌∙◌, ℕ, List, [], ◌∷◌, Bytes, All, All-IsIn, All-intro, length,
}
use simpletorrent_nju.Client.{Client, Peer}
use simpletorrent_nju.Client.Frame.{IsAlike}
use simpletorrent_nju.Pool.Nodes.{IsPool, address, AreDistinct}

-- The two arrays of the client, and that of each peer that malloc has given out, have an entry for
-- each piece.
pub record IsFitting (c : Client) : Type 0 where
  pub states : length c.pieces_state_arr ≡ c.torrent.num_pieces
  pub nums : length c.pieces_num_in_peers ≡ c.torrent.num_pieces
  pub peers : (p : ℕ) → p < c.next_peer → length (c.heap p).peer_pieces_state ≡ c.torrent.num_pieces

-- And the pool is one of such peers, no two of one address.
pub record IsShaped (c : Client) : Type 0 where
  pub fits : IsFitting c
  pub proper : IsPool c

-- The torrent has `n` pieces, and malloc has given out the first `k` peers and maybe more.
pub record IsLater (n k : ℕ) (c : Client) : Type 0 where
  pub pieces : c.torrent.num_pieces ≡ n
  pub given : k ≤ c.next_peer

-- The shape, behind a state with these numbers.
pub record IsShapedSince (n k : ℕ) (c : Client) : Type 0 where
  pub shaped : IsShaped c
  pub later : IsLater n k c

module _ (heap heap' : ℕ → Peer) (same : (q : ℕ) → (heap' q).peer_ip ≡ (heap q).peer_ip) where
  All-same :
      (a : Bytes) (nodes : List ℕ)
      → All (λ q. a ≢ address heap q) nodes
      → All (λ q. a ≢ address heap' q) nodes
  All-same a [] h = tt
  All-same a (q ∷ nodes) h = (rw (same q) (h.0), All-same a nodes (h.1))

  AreDistinct-same : (nodes : List ℕ) → AreDistinct heap nodes → AreDistinct heap' nodes
  AreDistinct-same [] h = tt
  AreDistinct-same (q ∷ nodes) h =
      (rw (same q) (All-same (address heap q) nodes (h.0)), AreDistinct-same nodes (h.1))

module _ {c c' : Client} (a : IsAlike c c') where
  pub same_pool : c'.pool ≡ c.pool
  same_pool = ap (λ f. f.1) a.same_frame

  pub same_next : c'.next_peer ≡ c.next_peer
  same_next = ap (λ f. f.2) a.same_frame

  pub same_num : c'.torrent.num_pieces ≡ c.torrent.num_pieces
  same_num = ap (λ f. (f.0).num_pieces) a.same_frame

  pub IsPool-IsAlike : IsPool c → IsPool c'
  IsPool-IsAlike h = record {
    given_out = rw same_pool (rw same_next h.given_out);
    distinct =
        rw same_pool
          (AreDistinct-same c.heap c'.heap (λ q. ap (λ r. r.0) (a.same_peers q)) c.pool h.distinct);
  }

  pub IsFitting-IsAlike : IsFitting c → IsFitting c'
  IsFitting-IsAlike h = record {
    states = ap (λ f. f.3) a.same_frame ∙ h.states ∙ sym same_num;
    nums = ap (λ f. f.4) a.same_frame ∙ h.nums ∙ sym same_num;
    peers = λ p l. ap (λ r. r.2) (a.same_peers p) ∙ h.peers p (rw (sym same_next) l) ∙ sym same_num;
  }

  pub IsShaped-IsAlike : IsShaped c → IsShaped c'
  IsShaped-IsAlike h = record { fits = IsFitting-IsAlike h.fits; proper = IsPool-IsAlike h.proper }

  pub IsLater-IsAlike : (n k : ℕ) → IsLater n k c → IsLater n k c'
  IsLater-IsAlike n k h = record { pieces = same_num ∙ h.pieces; given = rw same_next h.given }

-- each connection of the pool has an entry for each piece
pub IsShaped-pool :
    (c : Client) (index : ℕ)
    → IsShaped c
    → index < c.torrent.num_pieces
    → All (λ p. index < length (c.heap p).peer_pieces_state) c.pool
IsShaped-pool c index h l =
    All-intro _ c.pool
      λ p i. rw (h.fits.peers p (All-IsIn (λ q. q < c.next_peer) p c.pool h.proper.given_out i)) l
