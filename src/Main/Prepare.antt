-- ===== src/Main/Prepare.antt =====
-- mytorrent.c: what a round of the main loop stores of the tracker's answer.
use simpletorrent_nju.Base.{◌+◌, if◌then◌else◌, Bool, List, Option, none, some, ℤ, map, bits32}
use simpletorrent_nju.Client.{PeerData, Extern, M, get, modify, ◌>>=◌, ◌>>◌}
use simpletorrent_nju.Start.{init_pieces_state_arr, init_pieces_num_in_peers}
use simpletorrent_nju.Tracker.Response.{Entry}

-- A peer of the answer as the exchange reads it; the `int`s are their bit patterns.
unfoldable pub peer_data : Entry → PeerData
peer_data e = record { id = e.id; port = bits32 e.port; ip = e.ip; state = bits32 e.state }

-- `globalInfo.g_tracker_response`, and the arrays where they are not there yet.
unfoldable pub prepare : Extern → Bool → List Entry → M (Option (List ℤ))
prepare x arrays peers = do
  modify
      λ c. record c { tracker_answers = c.tracker_answers + 1; tracker_peers = map peer_data peers }
  c ← get
  init_pieces_state_arr x (if arrays then some c.pieces_state_arr else none)
  init_pieces_num_in_peers (if arrays then some c.pieces_num_in_peers else none)
