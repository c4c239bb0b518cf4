-- ===== src/Wire/Handshake.antt =====
-- peer_wire.c, how connections are accepted, dialled and shaken hands on. The structure
-- `handshake_seg` is its 68 bytes: one of length, 20 of name, 7 reserved, 20 of hash, 20 of peer id.
pub mod Accept
pub mod Hash
pub mod Shape
pub mod Threads
use Prim.Native.Char.{code}
use Prim.Native.String.{String}
use simpletorrent_nju.Base.{
  ℕ, zero, suc, ◌+◌, ◌==◌, if◌then◌else◌, Bool, true, false, not, ◌&&◌, ◌||◌, List, [], ◌∷◌, ◌++◌,
  Option, none, some, Bytes, ℤ, pos, negsuc, eqb_ℤ, length, take, drop, replicate, tabulate_from,
}
use simpletorrent_nju.Words.{reverse_byte_orderi, int_at}
use simpletorrent_nju.Socket.{RecvEvent, Received, recv_all, recv_once}
use simpletorrent_nju.Client.{
  Client, PeerData, TrackerPeer, Extern, Thread, wait_first_handshake, wait_second_handshake,
  message_handler, M, get, modify, pure, ◌>>=◌, ◌>>◌, when, send, is_neg, is_nonpos, disconnect,
  connect,
}
use simpletorrent_nju.Pool.{
  strncmp_eq, strncpy, find_peernode, find_peer_from_tracker, tracker_list, pool_add_peer, mark,
  set_peer_disconnect, modify_tracker_peer,
}
use simpletorrent_nju.Wire.Send.{net_int}

abbrev pub codes : String → Bytes
codes String.[] = []
codes (String.◌∷◌ c s) = code c ∷ codes s

abbrev pub protocol : Bytes
protocol = codes "BitTorrent protocol"

-- The five words of a hash, each reversed.
unfoldable pub net_hash : List ℤ → Bytes
net_hash [] = []
net_hash (h ∷ hs) = net_int h ++ net_hash hs

unfoldable pub handshake_seg : Client → Bytes
unfolding net_hash strncpy
handshake_seg c =
    19
    ∷ (strncpy 20 protocol
        ++ (replicate 7 0 ++ (net_hash (take 5 c.torrent.info_hash) ++ take 20 c.my_id)))

unfoldable pub send_handshake : ℕ → M ℤ
send_handshake connfd = do
  c ← get
  r ← send connfd (handshake_seg c)
  pure (if is_nonpos r then negsuc 0 else pos 1)

-- `!(seg.c != 19 || strncmp(seg.str, "BitTorrent protocol", 20) != 0)`.
unfoldable pub is_handshake : Bytes → Bool
unfolding strncmp_eq
is_handshake [] = false
is_handshake (c ∷ seg) = c == 19 && strncmp_eq 20 (take 20 seg) protocol

-- The loop over the words of the hash.
unfoldable pub hash_matches : List ℤ → Bytes → Bool
hash_matches [] seghash = true
hash_matches (h ∷ hs) seghash =
    eqb_ℤ (int_at seghash) (reverse_byte_orderi h) && hash_matches hs (drop 4 seghash)

-- The `sha1_hash` of a segment.
abbrev pub sha1_hash : Bytes → Bytes
sha1_hash seg = take 20 (drop 28 seg)

-- The thread is created where the system can; true then.
abbrev pub create_thread : Extern → ℕ → Thread → M Bool
create_thread x fd t =
    if x.can_spawn fd
    then (do modify λ c. record c { threads = c.threads ++ t ∷ [] }; pure true)
    else pure false

abbrev pub close : ℕ → M (Unit {0})
close fd = modify λ c. record c { closed = c.closed ++ fd ∷ [] }

-- The pointer to an entry of the list of now.
abbrev pub pointer : Client → Option ℕ → Option TrackerPeer
pointer c none = none
pointer c (some i) = some (record { answer = c.tracker_answers; index = i })

-- A new connection goes into the pool and gets its thread.
unfoldable pub build_connection : Extern → ℕ → Bytes → M ℤ
build_connection x connfd peer_ip = do
  peer ← pool_add_peer x connfd peer_ip
  entry ← find_peer_from_tracker peer_ip
  c ← get
  b ← create_thread x connfd (message_handler connfd peer (pointer c entry))
  pure (if b then pos 1 else negsuc 0)

-- The answer to the first handshake: -1 where it could not be sent.
unfoldable pub answer : ℕ → ℕ → M ℤ
answer flag connfd = if flag == 1 then send_handshake connfd else pure (pos 1)

-- What follows the search for the address in the pool.
unfoldable pub join : Extern → ℕ → ℕ → Bytes → Option ℕ → M ℤ
unfolding build_connection answer
join x flag connfd peer_ip (some node) = pure (pos 0)
join x flag connfd peer_ip none = do
  r ← answer flag connfd
  if is_nonpos r then pure (negsuc 0) else build_connection x connfd peer_ip

unfoldable pub shake : Extern → ℕ → ℕ → Bytes → M ℤ
unfolding join
shake x flag connfd peer_ip = do
  c ← get
  join x flag connfd peer_ip (find_peernode c.heap c.pool peer_ip)

-- What follows the check of the hash.
unfoldable pub known_hash : Extern → ℕ → ℕ → Option Bytes → M ℤ
unfolding shake
known_hash x flag connfd none = pure (negsuc 0)
known_hash x flag connfd (some peer_ip) = shake x flag connfd peer_ip

unfoldable pub handshake_handler : Extern → Bytes → ℕ → ℕ → M ℤ
unfolding known_hash
handshake_handler x seg flag connfd = do
  c ← get
  if hash_matches (take 5 c.torrent.info_hash) (sha1_hash seg)
      then known_hash x flag connfd (x.get_ip_by_socket connfd)
      else pure (negsuc 0)

-- The 68 bytes of the local variable behind a recv.
abbrev pub segment_of : Extern → Received → Bytes
segment_of x r = r.bytes ++ drop (length r.bytes) (tabulate_from 0 68 x.junk)

unfoldable pub wait_first : Extern → ℕ → List RecvEvent → M (Unit {0})
wait_first x connfd inbox =
    let r = recv_once inbox 68 in
    let seg = segment_of x r in
    if is_nonpos r.result
    then pure tt
    else if is_handshake seg
    then (do s ← handshake_handler x seg 1 connfd; when (is_nonpos s) (close connfd))
    else close connfd

unfoldable pub wait_second : Extern → ℕ → List RecvEvent → M (Unit {0})
wait_second x connfd inbox =
    let r = recv_all inbox (pos 68) in
    let seg = segment_of x r in
    if is_nonpos r.result
    then pure tt
    else if is_handshake seg
    then (do
      s ← handshake_handler x seg 2 connfd
      when (is_nonpos s) (do set_peer_disconnect x connfd; close connfd))
    else close connfd

-- `tracker_peers[i].state == DISCONNECT`.
unfoldable pub is_disconnected : ℕ → List PeerData → Bool
is_disconnected i [] = false
is_disconnected zero (d ∷ peers) = d.state == disconnect
is_disconnected (suc i) (d ∷ peers) = is_disconnected i peers

abbrev disconnected_one : List PeerData → Option ℕ → Option ℕ
disconnected_one peers none = none
disconnected_one peers (some i) = if is_disconnected i peers then some i else none

-- The entry of the tracker's list that may be accepted: one that is not connected.
unfoldable pub can_accept : Extern → ℕ → M (Option ℕ)
can_accept x connfd = elim (x.get_ip_by_socket connfd) [
  | none ↦ pure none
  | some peer_ip ↦ (do
    entry ← find_peer_from_tracker peer_ip
    c ← get
    pure (disconnected_one c.tracker_peers entry))
]

accept_entry : Extern → ℕ → Option ℕ → M ℤ
accept_entry x connfd entry = do
  mark entry connect
  b ← create_thread x connfd (wait_first_handshake connfd)
  pure (if b then pos 1 else negsuc 0)

-- What follows the search in the tracker's list. A peer that the tracker did not name is accepted too.
accept_found : Extern → ℕ → Option ℕ → M ℤ
unfolding accept_entry
accept_found x connfd none = accept_entry x connfd none
accept_found x connfd (some i) = do
  c ← get
  if is_disconnected i c.tracker_peers then accept_entry x connfd (some i) else pure (negsuc 0)

unfoldable pub peer_accept : Extern → ℕ → M ℤ
unfolding accept_found
peer_accept x connfd = elim (x.get_ip_by_socket connfd) [
  | none ↦ pure (negsuc 0)
  | some peer_ip ↦ (do entry ← find_peer_from_tracker peer_ip; accept_found x connfd entry)
]

-- What follows a successful connect to entry `i`.
dialled : Extern → ℕ → ℕ → M (Unit {0})
dialled x i sockfd = do
  r ← send_handshake sockfd
  if is_neg r then close sockfd else (do
    modify_tracker_peer i connect
    create_thread x sockfd (wait_second_handshake sockfd)
    pure tt)

-- The round of `peer_connect` for entry `i`.
unfoldable pub connect_round : Extern → ℕ → PeerData → M (Unit {0})
unfolding dialled
connect_round x i d = do
  c ← get
  if strncmp_eq 16 d.ip c.my_ip || d.state == connect
      then pure tt
      else elim (x.dial d.ip d.port) [ none ↦ pure tt | some sockfd ↦ dialled x i sockfd ]

-- The rounds from entry `i` on.
unfoldable pub connect_loop : Extern → ℕ → List PeerData → M (Unit {0})
connect_loop x i [] = pure tt
connect_loop x i (d ∷ peers) = do connect_round x i d; connect_loop x (i + 1) peers

unfoldable pub peer_connect : Extern → M (Unit {0})
peer_connect x = do peers ← tracker_list; connect_loop x 0 peers
