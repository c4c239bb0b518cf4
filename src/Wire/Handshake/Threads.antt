-- ===== src/Wire/Handshake/Threads.antt =====
-- The threads that shake hands, and the functions that accept and dial, keep the shape of the client.
use simpletorrent_nju.Base.{
  ℕ, ◌+◌, ◌==◌, ◌||◌, List, [], ◌∷◌, Option, none, some, Bytes, pos, negsuc,
}
use simpletorrent_nju.Socket.{RecvEvent, recv_once, recv_all}
use simpletorrent_nju.Client.{
  PeerData, Extern, wait_first_handshake, wait_second_handshake, pure, ◌>>=◌, ◌>>◌, is_neg,
  is_nonpos, connect, disconnect,
}
use simpletorrent_nju.Client.Frame.{Keeps, Keeps-bind, Keeps-pure, Keeps-if, Keeps-get, Keeps-when}
use simpletorrent_nju.Client.Preserves.{Preserves, Preserves-pure, Preserves-if, Preserves-bind}
use simpletorrent_nju.Pool.{find_peer_from_tracker, mark, set_peer_disconnect, strncmp_eq}
use simpletorrent_nju.Pool.Shape.{IsShapedSince}
use simpletorrent_nju.Wire.Handshake.{
  is_handshake, wait_first, wait_second, segment_of, is_disconnected, accept_entry, accept_found,
  peer_accept, dialled, connect_round, connect_loop, peer_connect,
}
use simpletorrent_nju.Wire.Handshake.Shape.{
  kept_since, handshake_handler-IsShapedSince, create_thread-Keeps, send_handshake-Keeps,
  close-Keeps, mark-Keeps, tracker_list-Keeps, find_peer_from_tracker-Keeps,
}

module _ (x : Extern) (connfd : ℕ) where
  pub wait_first-IsShapedSince :
      {n k : ℕ} (inbox : List RecvEvent) → Preserves (IsShapedSince n k) (wait_first x connfd inbox)
  unfolding wait_first
  wait_first-IsShapedSince inbox =
      let r = recv_once inbox 68 in
      Preserves-if (is_nonpos r.result) (Preserves-pure tt) (
        Preserves-if (is_handshake (segment_of x r))
          (Preserves-bind (handshake_handler-IsShapedSince x (segment_of x r) 1 connfd)
            λ s. kept_since (Keeps-when (is_nonpos s) (close-Keeps connfd)))
          (kept_since (close-Keeps connfd)))

  set_peer_disconnect-Keeps : Keeps (Unit {0}) (set_peer_disconnect x connfd)
  unfolding set_peer_disconnect
  set_peer_disconnect-Keeps = by_address (x.get_ip_by_socket connfd)
    where
      by_address :
          (o : Option Bytes)
          → Keeps {A = Option ℕ} (Unit {0}) (elim o [
            | none ↦ pure none
            | some peer_ip ↦ (do p ← find_peer_from_tracker peer_ip; mark p disconnect; pure p)
          ])
      by_address none = Keeps-pure none
      by_address (some peer_ip) =
          Keeps-bind (find_peer_from_tracker-Keeps peer_ip)
            λ p. Keeps-bind (mark-Keeps p disconnect) λ _. Keeps-pure p

  pub wait_second-IsShapedSince :
      {n k : ℕ} (inbox : List RecvEvent)
      → Preserves (IsShapedSince n k) (wait_second x connfd inbox)
  unfolding wait_second
  wait_second-IsShapedSince inbox =
      let r = recv_all inbox (pos 68) in
      Preserves-if (is_nonpos r.result) (Preserves-pure tt) (
        Preserves-if (is_handshake (segment_of x r))
          (Preserves-bind (handshake_handler-IsShapedSince x (segment_of x r) 2 connfd) λ s.
            kept_since (
              Keeps-when (is_nonpos s)
                (Keeps-bind set_peer_disconnect-Keeps λ _. close-Keeps connfd)))
          (kept_since (close-Keeps connfd)))

  accept_entry-Keeps : (entry : Option ℕ) → Keeps (Unit {0}) (accept_entry x connfd entry)
  unfolding accept_entry
  accept_entry-Keeps entry =
      Keeps-bind (mark-Keeps entry connect) λ _.
        Keeps-bind (create_thread-Keeps x connfd (wait_first_handshake connfd)) λ b. Keeps-pure _

  accept_found-Keeps : (o : Option ℕ) → Keeps (Unit {0}) (accept_found x connfd o)
  unfolding accept_found
  accept_found-Keeps none = accept_entry-Keeps none
  accept_found-Keeps (some i) = Keeps-get λ c.
      Keeps-if (is_disconnected i c.tracker_peers) (accept_entry-Keeps (some i))
        (Keeps-pure (negsuc 0))

  pub peer_accept-Keeps : Keeps (Unit {0}) (peer_accept x connfd)
  unfolding peer_accept
  peer_accept-Keeps = by_address (x.get_ip_by_socket connfd)
    where
      by_address :
          (o : Option Bytes)
          → Keeps (Unit {0}) (elim o [
            | none ↦ pure (negsuc 0)
            | some peer_ip ↦ (do
              entry ← find_peer_from_tracker peer_ip
              accept_found x connfd entry)
          ])
      by_address none = Keeps-pure (negsuc 0)
      by_address (some peer_ip) =
          Keeps-bind (find_peer_from_tracker-Keeps peer_ip) λ entry. accept_found-Keeps entry

dialled-Keeps : (x : Extern) (i sockfd : ℕ) → Keeps (Unit {0}) (dialled x i sockfd)
unfolding dialled
dialled-Keeps x i sockfd = Keeps-bind (send_handshake-Keeps sockfd) λ r.
    Keeps-if (is_neg r) (close-Keeps sockfd) (
      Keeps-bind (mark-Keeps (some i) connect) λ _.
        Keeps-bind (create_thread-Keeps x sockfd (wait_second_handshake sockfd)) λ _. Keeps-pure tt)

connect_round-Keeps : (x : Extern) (i : ℕ) (d : PeerData) → Keeps (Unit {0}) (connect_round x i d)
unfolding connect_round
connect_round-Keeps x i d = Keeps-get λ c.
    Keeps-if (strncmp_eq 16 d.ip c.my_ip || d.state == connect) (Keeps-pure tt)
      (by_socket (x.dial d.ip d.port))
  where
    by_socket :
        (o : Option ℕ)
        → Keeps (Unit {0}) (elim o [ none ↦ pure tt | some sockfd ↦ dialled x i sockfd ])
    by_socket none = Keeps-pure tt
    by_socket (some sockfd) = dialled-Keeps x i sockfd

connect_loop-Keeps :
    (x : Extern) (i : ℕ) (peers : List PeerData) → Keeps (Unit {0}) (connect_loop x i peers)
unfolding connect_loop
connect_loop-Keeps x i [] = Keeps-pure tt
connect_loop-Keeps x i (d ∷ peers) =
    Keeps-bind (connect_round-Keeps x i d) λ _. connect_loop-Keeps x (i + 1) peers

pub peer_connect-Keeps : (x : Extern) → Keeps (Unit {0}) (peer_connect x)
unfolding peer_connect
peer_connect-Keeps x = Keeps-bind tracker_list-Keeps λ peers. connect_loop-Keeps x 0 peers
