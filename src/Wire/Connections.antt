-- ===== src/Wire/Connections.antt =====
-- The threads of the program as a step relation: the threads that shake hands, one thread for each
-- connection, the thread that requests pieces, the thread that listens, and the main thread
-- (peer_wire.c, peers_pool.c, mytorrent.c). A step runs from one release of a mutex to the next.
use simpletorrent_nju.Base.{◌≡◌, ℕ, true, List, Option, ℤ, IsIn}
use simpletorrent_nju.Socket.{RecvEvent}
use simpletorrent_nju.Client.{Client, TrackerPeer, Extern, Outcome, ok, fault}
use simpletorrent_nju.Client.Preserves.{Preserves}
use simpletorrent_nju.Main.Prepare.{prepare}
use simpletorrent_nju.Pool.Shape.{IsShaped}
use simpletorrent_nju.Tracker.Response.{Entry}
use simpletorrent_nju.Wire.Handshake.{wait_first, wait_second, peer_accept, peer_connect}
use simpletorrent_nju.Wire.Messages.{handle_message, disconnect_peer}
use simpletorrent_nju.Wire.Request.{Stage, start_request_file, request_file_step}
use simpletorrent_nju.Wire.Request.Safe.{IsChosen}
use simpletorrent_nju.Wire.Send.{send_bitfield}

-- The client, and where the thread that requests pieces stands; `returned` before there is one.
pub record System : Type 0 where
  pub client : Client
  pub stage : Stage

-- The program runs, or an access outside an object has ended it.
pub data World : Type 0 where
  running : System → World
  crashed : World

-- The world behind a call of another thread than the one that requests, and behind a call of that one.
abbrev pub after : {A : Type 0} → System → Outcome A → World
after s (ok a c) = running (record s { client = c })
after s fault = crashed

abbrev pub staged : Outcome Stage → World
staged (ok stage c) = running (record { client = c; stage = stage })
staged fault = crashed

infix 40 ◌⟶◌ ◌⟶*◌
-- The steps, each with the world that its call leads to. The messages and the handshakes may be any
-- bytes, and a message may come from any peer; only a connection of the pool ends.
pub data ◌⟶◌ : System → World → Type 0 where
  accepts :
      {s : System} {w : World} (x : Extern) (connfd : ℕ)
      → after s (peer_accept x connfd s.client) ≡ w
      → s ⟶ w
  first_handshake :
      {s : System} {w : World} (x : Extern) (connfd : ℕ) (inbox : List RecvEvent)
      → after s (wait_first x connfd inbox s.client) ≡ w
      → s ⟶ w
  second_handshake :
      {s : System} {w : World} (x : Extern) (connfd : ℕ) (inbox : List RecvEvent)
      → after s (wait_second x connfd inbox s.client) ≡ w
      → s ⟶ w
  greets :
      {s : System} {w : World} (x : Extern) (connfd : ℕ)
      → after s (send_bitfield x connfd s.client) ≡ w
      → s ⟶ w
  message :
      {s : System} {w : World} (x : Extern) (connfd p : ℕ) (len : ℤ) (inbox : List RecvEvent)
      → after s (handle_message x connfd p len inbox s.client) ≡ w
      → s ⟶ w
  ends :
      {s : System} {w : World} (p : ℕ) (peer_data : Option TrackerPeer)
      → IsIn p s.client.pool
      → after s (disconnect_peer p peer_data s.client) ≡ w
      → s ⟶ w
  begins_requests : {s : System} {w : World} → staged (start_request_file s.client) ≡ w → s ⟶ w
  requests : {s : System} {w : World} → staged (request_file_step s.stage s.client) ≡ w → s ⟶ w
  tracker_told :
      {s : System} {w : World} (x : Extern) (peers : List Entry)
      → after s (prepare x true peers s.client) ≡ w
      → s ⟶ w
  dials : {s : System} {w : World} (x : Extern) → after s (peer_connect x s.client) ≡ w → s ⟶ w

pub data ◌⟶*◌ : System → World → Type 0 where
  here : {s : System} → s ⟶* running s
  next : {s t : System} {w : World} → s ⟶ running t → t ⟶* w → s ⟶* w
  crash : {s : System} → s ⟶ crashed → s ⟶* crashed

-- What the threads keep.
pub record IsSound (s : System) : Type 0 where
  pub shaped : IsShaped s.client
  pub chosen : IsChosen s.client.next_peer s.client.torrent.num_pieces s.stage

-- A world that runs is sound.
abbrev Sound : World → Type 0
Sound (running s) = IsSound s
Sound crashed = Unit {0}
