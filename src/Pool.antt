-- ===== src/Pool.antt =====
-- peers_pool.c: the pool of connections, and the peers that the tracker named.
mod Names
pub mod Nodes
pub mod Scan
pub mod Shape
use simpletorrent_nju.Base.{
  ℕ, zero, suc, ◌+◌, ◌==◌, ltb, if◌then◌else◌, Bool, true, false, ◌&&◌, ◌||◌, List, [], ◌∷◌, Option,
  none, some, Bytes, ℤ, pos, ◌+ℤ◌, i32, get_elem?, put_at, set, tabulate_from,
}
use simpletorrent_nju.Client.{
  ok, fault, when, Client, Peer, PeerData, TrackerPeer, Extern, Torrent, M, get, modify, access,
  pure, ◌>>=◌, ◌>>◌, modify_peer, update, disconnect,
}

-- `strncmp(a, b, n) == 0`; the end of a list is read as the terminating zero.
unfoldable pub strncmp_eq : ℕ → Bytes → Bytes → Bool
strncmp_eq zero xs ys = true
strncmp_eq (suc n) [] [] = true
strncmp_eq (suc n) [] (y ∷ ys) = y == 0
strncmp_eq (suc n) (x ∷ xs) [] = x == 0
strncmp_eq (suc n) (x ∷ xs) (y ∷ ys) = x == y && (x == 0 || strncmp_eq n xs ys)

-- The `n` bytes that strncpy writes.
unfoldable pub strncpy : ℕ → Bytes → Bytes
strncpy zero s = []
strncpy (suc n) [] = 0 ∷ strncpy n []
strncpy (suc n) (b ∷ bs) = b ∷ strncpy n (if b == 0 then [] else bs)

unfoldable pub find_peernode : (ℕ → Peer) → List ℕ → Bytes → Option ℕ
find_peernode heap [] peer_ip = none
find_peernode heap (p ∷ nodes) peer_ip =
    if strncmp_eq 16 (heap p).peer_ip peer_ip then some p else find_peernode heap nodes peer_ip

-- The peer of a new connection, as `pool_add_peer` fills it in. The array of piece states comes from
-- malloc and is not written.
unfoldable pub new_peer : Extern → Torrent → ℕ → Bytes → Peer
unfolding strncpy
new_peer x t connfd peer_ip = record {
  connfd = connfd;
  am_choking = 1;
  am_interested = 0;
  peer_choking = 1;
  peer_interested = 0;
  peer_ip = strncpy 16 peer_ip;
  peer_pieces_state = tabulate_from 0 t.num_pieces x.junk_int;
  pieces_num_downloaded_from_it = pos 0;
}

-- malloc gives fresh memory, and does not fail.
unfoldable pub pool_add_peer : Extern → ℕ → Bytes → M ℕ
unfolding new_peer
pool_add_peer x connfd peer_ip c =
    let p = c.next_peer in
    ok p (record c {
      heap = update c.heap p (new_peer x c.torrent connfd peer_ip);
      pool = p ∷ c.pool;
      next_peer = suc p;
    })

-- The nodes without the first one that has this address.
unfoldable pub remove_node : (ℕ → Peer) → List ℕ → Bytes → List ℕ
remove_node heap [] peer_ip = []
remove_node heap (p ∷ nodes) peer_ip =
    if strncmp_eq 16 peer_ip (heap p).peer_ip then nodes else p ∷ remove_node heap nodes peer_ip

unfoldable pub peerpool_remove_node : ℕ → M (Unit {0})
unfolding remove_node
peerpool_remove_node peer =
    modify λ c. record c { pool = remove_node c.heap c.pool (c.heap peer).peer_ip }

-- The index of the first entry with this address, from index `i` on.
unfoldable pub find_from : ℕ → List PeerData → Bytes → Option ℕ
find_from i [] peer_ip = none
find_from i (d ∷ peers) peer_ip =
    if strncmp_eq 16 peer_ip d.ip then some i else find_from (i + 1) peers peer_ip

-- `g_tracker_response->peers`; the pointer is NULL before the first answer of the tracker, and followed.
unfoldable pub tracker_list : M (List PeerData)
tracker_list c = if c.tracker_answers == 0 then fault else ok c.tracker_peers c

unfoldable pub find_peer_from_tracker : Bytes → M (Option ℕ)
unfolding find_from
find_peer_from_tracker peer_ip = do peers ← tracker_list; pure (find_from 0 peers peer_ip)

unfoldable pub get_peer_piece_state : ℕ → ℕ → M ℤ
get_peer_piece_state p index = do c ← get; access (get_elem? (c.heap p).peer_pieces_state index)

unfoldable pub peer_have_piece : ℕ → ℕ → M (Unit {0})
peer_have_piece p index = do
  c ← get
  states ← access (put_at (c.heap p).peer_pieces_state (pos index) (pos 1))
  modify_peer p λ r. record r { peer_pieces_state = states }
  n ← access (get_elem? c.pieces_num_in_peers index)
  modify λ c. record c { pieces_num_in_peers = set c.pieces_num_in_peers index (i32 (n +ℤ pos 1)) }

-- `tracker_peers[i].state = state`.
unfoldable pub set_state : ℕ → ℕ → List PeerData → List PeerData
set_state i state [] = []
set_state zero state (d ∷ peers) = record d { state = state } ∷ peers
set_state (suc i) state (d ∷ peers) = d ∷ set_state i state peers

abbrev pub modify_tracker_peer : ℕ → ℕ → M (Unit {0})
modify_tracker_peer i state =
    modify λ c. record c { tracker_peers = set_state i state c.tracker_peers }

-- `p->state = state`, where `p` is not NULL.
abbrev pub mark : Option ℕ → ℕ → M (Unit {0})
mark none state = pure tt
mark (some i) state = modify_tracker_peer i state

-- The same by a pointer of an earlier time; a list that a later answer has replaced is neither freed nor
-- read again.
unfoldable pub mark_entry : Option TrackerPeer → ℕ → M (Unit {0})
mark_entry none state = pure tt
mark_entry (some d) state = do
  c ← get
  when (d.answer == c.tracker_answers) (modify_tracker_peer d.index state)

unfoldable pub set_peer_disconnect : Extern → ℕ → M (Option ℕ)
unfolding set_state
set_peer_disconnect x connfd = elim (x.get_ip_by_socket connfd) [
  | none ↦ pure none
  | some peer_ip ↦ (do p ← find_peer_from_tracker peer_ip; mark p disconnect; pure p)
]
