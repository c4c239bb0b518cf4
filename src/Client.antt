-- ===== src/Client.antt =====
-- The data of btdata.h, mytorrent.h and peers_pool.h, the global variables, and the monad in which
-- the functions that use them are written.
pub mod Frame
pub mod Preserves
use simpletorrent_nju.Base.{
  ◌≡◌, ap, ℕ, zero, suc, ◌==◌, if◌then◌else◌, Bool, true, false, List, [], ◌∷◌, ◌++◌, Option, none,
  some, Bytes, ℤ, pos, negsuc, leb_ℤ, ltb_ℤ, ◌-ℤ◌, ◌+ℤ◌, i32,
}
use simpletorrent_nju.Socket.{SendEvent, send_all}

-- The states of a piece on our side, and of a piece on a peer's side (mytorrent.h).
abbrev pub piece_requesting : ℕ
piece_requesting = 0

abbrev pub piece_completed : ℕ
piece_completed = 1

abbrev pub piece_havnt : ℕ
piece_havnt = 2

abbrev pub piece_end_game_geted : ℕ
piece_end_game_geted = 3

abbrev pub peer_havnt : ℤ
peer_havnt = pos 0

abbrev pub peer_have : ℤ
peer_have = pos 1

abbrev pub peer_be_requested : ℤ
peer_be_requested = pos 2

-- The states of an entry of the tracker's list (btdata.h).
abbrev pub disconnect : ℕ
disconnect = 0

abbrev pub connect : ℕ
connect = 1

-- `torrentmetadata_t` with its `fileinfo_t`; the sizes of a torrent are not negative. `announce`
-- and the names are used before the exchange with the peers begins.
pub record Torrent : Type 0 where
  pub info_hash : List ℤ
  pub piece_len : ℕ
  pub num_pieces : ℕ
  pub pieces : Bytes
  pub begin_index : ℕ
  pub size : ℕ

-- `peerdata`: one peer in the tracker's response.
pub record PeerData : Type 0 where
  pub id : Bytes
  pub port : ℕ
  pub ip : Bytes
  pub state : ℕ

-- `peer_t`: one connection. The flags are 0 or 1.
pub record Peer : Type 0 where
  pub connfd : ℕ
  pub am_choking : ℕ
  pub am_interested : ℕ
  pub peer_choking : ℕ
  pub peer_interested : ℕ
  pub peer_ip : Bytes
  pub peer_pieces_state : List ℤ
  pub pieces_num_downloaded_from_it : ℤ

-- A `peerdata *` that outlives the list it points into: the number of the tracker's answer that gave
-- this list, and the index in it.
pub record TrackerPeer : Type 0 where
  pub answer : ℕ
  pub index : ℕ

-- The threads that are created: with `pthread_create` and its argument.
pub data Thread : Type 0 where
  wait_first_handshake : ℕ → Thread
  wait_second_handshake : ℕ → Thread
  message_handler : ℕ → ℕ → Option TrackerPeer → Thread

-- The global variables of mytorrent.c, peers_pool.c and peer_wire.c, and what they point to.
-- A `peer_t *` is a number, the peer that it points to is `heap` of it, and `next_peer` is the next
-- address that malloc gives; the pool is the list of such pointers from `g_peerpool_head` on.
-- `tracker_peers` is the list of `g_tracker_response`, and `tracker_answers` counts these lists; it is 0
-- where the pointer is NULL.
-- `outbox` holds what send will answer, `sent` each buffer that went out with its socket, oldest first.
pub record Client : Type 0 where
  pub torrent : Torrent
  pub my_ip : Bytes
  pub my_id : Bytes
  pub file : Bytes
  pub downloaded : ℤ
  pub bitfield : Bytes
  pub pieces_state_arr : List ℕ
  pub pieces_num_in_peers : List ℤ
  pub rest_pieces_num : ℤ
  pub isseed : Bool
  pub tracker_answers : ℕ
  pub tracker_peers : List PeerData
  pub pool : List ℕ
  pub heap : ℕ → Peer
  pub next_peer : ℕ
  pub is_end_game : Bool
  pub have_pieces_num : ℤ
  pub pieces_requesting : ℤ
  pub pieces_locked : Bool
  pub outbox : List SendEvent
  pub sent : List (ℕ × Bytes)
  pub closed : List ℕ
  pub threads : List Thread

-- What the program takes from elsewhere: the SHA-1 of sha1.c as its five words, the bytes and
-- `int`s that stand in fresh memory, the text of a socket's remote address (getpeername and
-- inet_ntop; `none` on an error), whether a thread can be created for a socket, and the socket of a
-- new connection to an address (socket and connect; `none` on an error).
pub record Extern : Type 0 where
  pub sha1 : Bytes → List ℕ
  pub junk : ℕ → ℕ
  pub junk_int : ℕ → ℤ
  pub get_ip_by_socket : ℕ → Option Bytes
  pub can_spawn : ℕ → Bool
  pub dial : Bytes → ℕ → Option ℕ

-- `fault` is an access outside an object.
pub data Outcome (A : Type 0) : Type 0 where
  ok : A → Client → Outcome A
  fault : Outcome A

abbrev pub M : Type 0 → Type 0
M A = Client → Outcome A

abbrev pub pure : {A : Type 0} → A → M A
pure a c = ok a c

infixl 5 ◌>>=◌ ◌>>◌
abbrev pub ◌>>=◌ : {A B : Type 0} → M A → (A → M B) → M B
◌>>=◌ m f c = elim (m c) [ ok a c' ↦ f a c' | fault ↦ fault ]

abbrev pub ◌>>◌ : {A B : Type 0} → M A → M B → M B
m >> k = m >>= λ _. k

abbrev pub get : M Client
get c = ok c c

abbrev pub modify : (Client → Client) → M (Unit {0})
modify f c = ok tt (f c)

-- The value, or a fault.
abbrev pub access : {A : Type 0} → Option A → M A
access none c = fault
access (some a) c = ok a c

abbrev pub when : Bool → M (Unit {0}) → M (Unit {0})
when b m = if b then m else pure tt

-- A step that succeeds, before another one.
pub bind_ok :
    {A B : Type 0} (m : M A) (f : A → M B) (c : Client) {a : A} {c' : Client}
    → m c ≡ ok a c'
    → (m >>= f) c ≡ f a c'
bind_ok m f c e = ap (λ o. elim o [ ok a c' ↦ f a c' | fault ↦ fault ]) e

pub access_ok : {A : Type 0} (o : Option A) {a : A} (c : Client) → o ≡ some a → access o c ≡ ok a c
access_ok o c e = ap (λ o. access o c) e

-- The state where something was sent.
abbrev pub after_send : List SendEvent → List (ℕ × Bytes) → Client → Client
after_send o s c = record c { outbox = o; sent = s }

abbrev pub update : (ℕ → Peer) → ℕ → Peer → ℕ → Peer
update heap p v q = if p == q then v else heap q

-- Assignments to a field of `*p`.
abbrev pub modify_peer : ℕ → (Peer → Peer) → M (Unit {0})
modify_peer p f c = ok tt (record c { heap = update c.heap p (f (c.heap p)) })

-- `Send(fd, bytes, sizeof bytes)`.
unfoldable pub send : ℕ → Bytes → M ℤ
send fd bytes c =
    let r = send_all c.outbox bytes in
    ok r.result (record c { outbox = r.rest; sent = c.sent ++ (fd, r.bytes) ∷ [] })

-- `r < 0` and `r <= 0`.
abbrev pub is_neg : ℤ → Bool
is_neg (pos n) = false
is_neg (negsuc n) = true

abbrev pub is_nonpos : ℤ → Bool
is_nonpos (pos zero) = true
is_nonpos (pos (suc n)) = false
is_nonpos (negsuc n) = true

-- `UNLOCK_PIECE`: `if (pieces_requesting-- >= 5)` the mutex is released.
unfoldable pub unlock_piece : M (Unit {0})
unfolding ◌-ℤ◌ i32
unlock_piece = do
  c ← get
  modify λ c. record c {
    pieces_requesting = i32 (c.pieces_requesting -ℤ pos 1);
    pieces_locked = if leb_ℤ (pos 5) c.pieces_requesting then false else c.pieces_locked;
  }

-- `LOCK_PIECE`: at a count of 5 or more the mutex is taken; false where the thread has to wait.
take_mutex : M Bool
take_mutex c = if c.pieces_locked then ok false c else ok true (record c { pieces_locked = true })

unfoldable pub lock_piece : M Bool
unfolding take_mutex
lock_piece = do
  modify λ c. record c { pieces_requesting = i32 (c.pieces_requesting +ℤ pos 1) }
  c ← get
  if ltb_ℤ c.pieces_requesting (pos 5) then pure true else take_mutex
