-- ===== src/Wire/Handshake/Shape.antt =====
-- New connections keep the arrays and the pool in shape.
use simpletorrent_nju.Base.{
  ◌≡◌, refl, inl, inr, ℕ, suc, ◌<◌, ◌==◌, Bool, List, if◌then◌else◌, true, false, Bool-cases, [],
  ◌∷◌, ◌++◌, Option, none, some, Bytes, ℤ, pos, negsuc, length, length-tabulate_from, arith,
}
use simpletorrent_nju.Client.{
  Client, Peer, PeerData, TrackerPeer, Outcome, ok, fault, Extern, Thread, M, update, is_nonpos,
}
use simpletorrent_nju.Client.Frame.{
  IsAlike, IsAlike-refl, After, Anything, comes_back, faults, Keeps-when, Keeps, Keeps-bind,
  Keeps-pure, Keeps-if, Keeps-get, Keeps-step,
}
use simpletorrent_nju.Client.Preserves.{
  Leaves, leaves, no_return, Preserves, Preserves-pure, Preserves-if, Preserves-get, Preserves-bind,
  Preserves-Keeps,
}
use simpletorrent_nju.Pool.{
  new_peer, pool_add_peer, find_peernode, mark, mark_entry, tracker_list, find_peer_from_tracker,
}
use simpletorrent_nju.Pool.Shape.{
  IsFitting, IsFitting-IsAlike, IsShaped-IsAlike, IsLater, IsLater-IsAlike, IsShapedSince,
}
use simpletorrent_nju.Wire.Send.Frame.{send-Keeps}
use simpletorrent_nju.Wire.Handshake.{
  send_handshake, create_thread, close, build_connection, answer, join, shake, known_hash,
  handshake_handler,
}
use simpletorrent_nju.Wire.Handshake.Accept.{Handled, handled, null_list, handshake_handler-IsPool}

module _ {F : Type 0} where
  pub send_handshake-Keeps : (connfd : ℕ) → Keeps F (send_handshake connfd)
  unfolding send_handshake
  send_handshake-Keeps connfd = Keeps-get λ c. Keeps-bind (send-Keeps connfd _) λ r. Keeps-pure _

  pub create_thread-Keeps : (x : Extern) (fd : ℕ) (t : Thread) → Keeps F (create_thread x fd t)
  create_thread-Keeps x fd t =
      Keeps-if (x.can_spawn fd)
        (Keeps-bind
          (Keeps-step (λ c. record c { threads = c.threads ++ t ∷ [] })
            λ c. record { same_frame = refl; same_peers = λ q. refl })
          λ _. Keeps-pure true)
        (Keeps-pure false)

  pub close-Keeps : (fd : ℕ) → Keeps F (close fd)
  close-Keeps fd = Keeps-step _ λ c. record { same_frame = refl; same_peers = λ q. refl }

  pub mark-Keeps : (d : Option ℕ) (state : ℕ) → Keeps F (mark d state)
  mark-Keeps none state = Keeps-pure tt
  mark-Keeps (some i) state = Keeps-step _ λ c. record { same_frame = refl; same_peers = λ q. refl }

  pub mark_entry-Keeps : (d : Option TrackerPeer) (state : ℕ) → Keeps F (mark_entry d state)
  unfolding mark_entry
  mark_entry-Keeps none state = Keeps-pure tt
  mark_entry-Keeps (some d) state =
      Keeps-get λ c. Keeps-when (d.answer == c.tracker_answers) (mark-Keeps (some d.index) state)

pub tracker_list-Keeps : Keeps (Unit {0}) tracker_list
unfolding tracker_list
tracker_list-Keeps = record { run = λ c. read c (c.tracker_answers == 0) }
  where
    read :
        (c : Client) (b : Bool)
        → After {A = List PeerData}
            (Unit {0})
            Anything
            c
            (if b then fault else ok c.tracker_peers c)
    read c true = faults tt
    read c false = comes_back IsAlike-refl tt

pub find_peer_from_tracker-Keeps :
    (peer_ip : Bytes) → Keeps (Unit {0}) (find_peer_from_tracker peer_ip)
unfolding find_peer_from_tracker
find_peer_from_tracker-Keeps peer_ip = Keeps-bind tracker_list-Keeps λ peers. Keeps-pure _

length-update :
    (heap : ℕ → Peer) (p q n : ℕ) (r : Peer)
    → length r.peer_pieces_state ≡ n
    → (q < p → length (heap q).peer_pieces_state ≡ n)
    → q < suc p
    → length (update heap p r q).peer_pieces_state ≡ n
length-update heap p q n r e f l = elim (Bool-cases (p == q)) [
  | inl b ↦ rw b e
  | inr b ↦ rw b (f (ground arith))
]

pool_add_peer-IsFitting :
    (x : Extern) (connfd : ℕ) (peer_ip : Bytes)
    → Preserves IsFitting (pool_add_peer x connfd peer_ip)
unfolding pool_add_peer new_peer
pool_add_peer-IsFitting x connfd peer_ip = record {
  run = λ c h. leaves (record {
    states = h.states;
    nums = h.nums;
    peers = λ q.
        length-update c.heap c.next_peer q c.torrent.num_pieces _
          (length-tabulate_from 0 c.torrent.num_pieces x.junk_int) (h.peers q);
  });
}

-- What holds of states alike, and of a state with one more peer, is preserved by the handshake.
module _ {P : Client → Type 0} (alike : (c c' : Client) → IsAlike c c' → P c → P c')
    (added : (x : Extern) (connfd : ℕ) (peer_ip : Bytes)
      → Preserves P (pool_add_peer x connfd peer_ip)) where
  kept : {A : Type 0} {m : M A} → Keeps (Unit {0}) m → Preserves P m
  kept h = Preserves-Keeps alike h

  build_connection-Preserves :
      (x : Extern) (connfd : ℕ) (peer_ip : Bytes) → Preserves P (build_connection x connfd peer_ip)
  unfolding build_connection
  build_connection-Preserves x connfd peer_ip = Preserves-bind (added x connfd peer_ip) λ peer.
      Preserves-bind (kept (find_peer_from_tracker-Keeps peer_ip)) λ entry.
        Preserves-get
          λ c. Preserves-bind (kept (create_thread-Keeps x connfd _)) λ b. Preserves-pure _

  join-Preserves :
      (x : Extern) (flag connfd : ℕ) (peer_ip : Bytes) (o : Option ℕ)
      → Preserves P (join x flag connfd peer_ip o)
  unfolding join answer
  join-Preserves x flag connfd peer_ip (some node) = Preserves-pure (pos 0)
  join-Preserves x flag connfd peer_ip none =
      Preserves-bind
        (kept (Keeps-if (flag == 1) (send_handshake-Keeps connfd) (Keeps-pure (pos 1))))
        λ r.
          Preserves-if (is_nonpos r) (Preserves-pure (negsuc 0))
            (build_connection-Preserves x connfd peer_ip)

  known_hash-Preserves :
      (x : Extern) (flag connfd : ℕ) (o : Option Bytes) → Preserves P (known_hash x flag connfd o)
  unfolding known_hash shake
  known_hash-Preserves x flag connfd none = Preserves-pure (negsuc 0)
  known_hash-Preserves x flag connfd (some peer_ip) =
      Preserves-get λ c. join-Preserves x flag connfd peer_ip (find_peernode c.heap c.pool peer_ip)

  handshake_handler-Preserves :
      (x : Extern) (seg : Bytes) (flag connfd : ℕ)
      → Preserves P (handshake_handler x seg flag connfd)
  unfolding handshake_handler
  handshake_handler-Preserves x seg flag connfd = Preserves-get λ c.
      Preserves-if _ (known_hash-Preserves x flag connfd (x.get_ip_by_socket connfd))
        (Preserves-pure (negsuc 0))

pool_add_peer-IsLater :
    (n k : ℕ) (x : Extern) (connfd : ℕ) (peer_ip : Bytes)
    → Preserves (IsLater n k) (pool_add_peer x connfd peer_ip)
unfolding pool_add_peer
pool_add_peer-IsLater n k x connfd peer_ip = record {
  run = λ c h. leaves (record { pieces = h.pieces; given = (let before = h.given in omega arith) });
}

-- a function that keeps the frame keeps the shape
pub kept_since :
    {n k : ℕ} {A : Type 0} {m : M A} → Keeps (Unit {0}) m → Preserves (IsShapedSince n k) m
kept_since {n} {k} h =
    Preserves-Keeps
      (λ c c' a s. record {
        shaped = IsShaped-IsAlike a s.shaped;
        later = IsLater-IsAlike a n k s.later;
      })
      h

shaped_after :
    {n k connfd : ℕ} {c : Client} {o : Outcome ℤ}
    → Handled connfd c o
    → Leaves IsFitting o
    → Leaves (IsLater n k) o
    → Leaves (IsShapedSince n k) o
shaped_after (handled proper _) (leaves fits) (leaves later) =
    leaves (record { shaped = record { fits = fits; proper = proper }; later = later })
shaped_after (null_list _) fits later = no_return

pub handshake_handler-IsShapedSince :
    {n k : ℕ} (x : Extern) (seg : Bytes) (flag connfd : ℕ)
    → Preserves (IsShapedSince n k) (handshake_handler x seg flag connfd)
handshake_handler-IsShapedSince {n} {k} x seg flag connfd = record {
  run = λ c h.
      let fits =
        handshake_handler-Preserves (λ c c' a. IsFitting-IsAlike a) pool_add_peer-IsFitting x seg
          flag connfd in
      let later =
        handshake_handler-Preserves (λ c c' a. IsLater-IsAlike a n k) (pool_add_peer-IsLater n k) x
          seg flag connfd in
      shaped_after (handshake_handler-IsPool x seg flag connfd c h.shaped.proper)
        (fits.run c h.shaped.fits) (later.run c h.later);
}
