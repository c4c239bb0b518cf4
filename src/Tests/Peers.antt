-- ===== src/Tests/Peers.antt =====
-- The theorems on the pool, the handshake and the pieces at small inputs.
use simpletorrent_nju.Client.{update, message_handler}
use simpletorrent_nju.Socket.{RecvEvent, segment}
use simpletorrent_nju.Wire.Handshake.{answer}
use simpletorrent_nju.Base.{
  zero, suc, Bytes, IsIn, List, [], ap, arith, eqb_ℤ, get_elem?, i32, if◌then◌else◌, inl, inr,
  length, ltb_ℤ, none, pos, refl, some, tabulate_from, take, true, ◌<◌, ℕ, ℤ, ◌&&◌, ◌-ℤ◌, ◌==◌, ◌↔◌,
  ◌∷◌, ◌≡◌, ◌≢◌,
}
use simpletorrent_nju.Client.{
  Client, Extern, ok, piece_havnt, piece_completed, piece_requesting, peer_havnt, peer_be_requested,
}
use simpletorrent_nju.Pool.{strncpy}
use simpletorrent_nju.Pool.Nodes.{IsPool}
use simpletorrent_nju.FileIo.{set_block}
use simpletorrent_nju.Wire.Handlers.{handle_piece, handle_bitfield}
use simpletorrent_nju.Wire.Handlers.Bitfield.{IsNoted, handle_bitfield-IsNoted}
use simpletorrent_nju.Wire.Handlers.Piece.{Checked, handle_piece-verified}
use simpletorrent_nju.Wire.Handshake.{
  handshake_seg, is_handshake, hash_matches, sha1_hash, handshake_handler,
}
use simpletorrent_nju.Wire.Handshake.Accept.{Handled, handshake_handler-IsPool}
use simpletorrent_nju.Wire.Handshake.Hash.{IsHash, handshake_seg-accepted}
use simpletorrent_nju.FileIo.Pieces.{verified}
use simpletorrent_nju.Start.{init_pieces_state_arr}
use simpletorrent_nju.Start.States.{lacking, init_pieces_state_arr-verified}
use simpletorrent_nju.Wire.Messages.{disconnect_peer}
use simpletorrent_nju.Wire.Connections.{System}
use simpletorrent_nju.Pool.Shape.{IsShaped}
use simpletorrent_nju.Wire.Request.{Stage, downloading, waits_with, returned, request_file_step}
use simpletorrent_nju.Wire.Request.Safe.{IsChosen, request_file_step-IsShaped}
use simpletorrent_nju.Wire.Messages.Disconnect.{disconnect_peer-IsPool}
use simpletorrent_nju.Tests.{client, outside, two_pieces-IsWhole, block-IsInside, two_pieces}

abbrev third : Bytes → ℕ
third (a ∷ b ∷ c ∷ bytes) = c
third bytes = 0

apart : ◌≢◌ {A = ℕ} 49 50
apart e = omega arith

client-IsPool : IsPool client
unfolding strncpy
client-IsPool = record {
  given_out = (omega arith, (omega arith, tt));
  distinct = (((λ e. apart (ap third e)), tt), (tt, tt));
}

client_peers : (p : ℕ) → p < 2 → length (client.heap p).peer_pieces_state ≡ 2
client_peers zero l = refl
client_peers (suc zero) l = refl
client_peers (suc (suc p)) l = absurd (omega arith)

client-IsShaped : IsShaped client
client-IsShaped = record {
  fits = record { states = refl; nums = refl; peers = client_peers };
  proper = client-IsPool;
}

-- A connection from an address that is not in the pool.
abbrev newcomer : Extern
newcomer = record outside { get_ip_by_socket = λ fd. some (49 ∷ 46 ∷ 51 ∷ []) }

handshake_handler-IsPool_example :
    Handled 9 client (handshake_handler newcomer (handshake_seg client) 1 9 client)
handshake_handler-IsPool_example =
    handshake_handler-IsPool newcomer (handshake_seg client) 1 9 client client-IsPool

disconnect_peer-IsPool_example :
    (c' : Client) × (disconnect_peer 1 (some (record { answer = 1; index = 0 })) client ≡ ok tt c')
    × IsPool c'
    × ((q : ℕ) → IsIn q c'.pool ↔ (IsIn q (0 ∷ 1 ∷ []) × (q ≢ 1)))
    × ((j : ℕ) (s v : ℤ) (t : ℕ)
        → get_elem? (pos 1 ∷ pos 1 ∷ []) j ≡ some s
        → get_elem? (pos 2 ∷ pos 1 ∷ []) j ≡ some v
        → get_elem? (piece_havnt ∷ piece_havnt ∷ []) j ≡ some t
        → j < 2
        → (get_elem? c'.pieces_num_in_peers j
            ≡ some (if ltb_ℤ peer_havnt s then i32 (v -ℤ pos 1) else v))
          × (get_elem? c'.pieces_state_arr j
              ≡ some
                  (if eqb_ℤ s peer_be_requested && t == piece_requesting then piece_havnt else t)))
disconnect_peer-IsPool_example =
    disconnect_peer-IsPool client 1 (some (record { answer = 1; index = 0 })) client-IsPool
      (inr (inl refl)) refl refl refl

init_pieces_state_arr-verified_example :
    (arr : List ℕ) × (c' : Client) × (init_pieces_state_arr outside none client ≡ ok (some arr) c')
    × (c'.pieces_state_arr ≡ arr)
    × (arr
        ≡ tabulate_from 0 2 (λ i.
          if verified outside two_pieces client.file i then piece_completed else piece_havnt))
    × (c'.rest_pieces_num ≡ pos (lacking (verified outside two_pieces client.file) 0 2))
init_pieces_state_arr-verified_example =
    init_pieces_state_arr-verified outside client two_pieces-IsWhole

client-IsHash : IsHash two_pieces.info_hash
client-IsHash = record { five = refl; ints = omega arith }

handshake_seg-accepted_example :
    (length (handshake_seg client) ≡ 68)
    × (is_handshake (handshake_seg client) ≡ true)
    × ((hash_matches (take 5 two_pieces.info_hash) (sha1_hash (handshake_seg client)) ≡ true)
        ↔ (two_pieces.info_hash ≡ two_pieces.info_hash))
handshake_seg-accepted_example =
    handshake_seg-accepted client client client-IsHash client-IsHash refl

handle_piece-verified_example :
    (file : Bytes) × (c' : Client) × (set_block (pos 1) (pos 0) (pos 2) (8 ∷ 9 ∷ []) client
      ≡ ok (pos 2) (record client { file = file }))
    × (handle_piece outside 5 0 (pos 1) (pos 0) (pos 2) (8 ∷ 9 ∷ []) client ≡ ok (pos 1) c')
    × Checked 1 outside (record client { file = file }) c'
handle_piece-verified_example =
    handle_piece-verified outside client 5 0 1 0 (8 ∷ 9 ∷ []) refl two_pieces-IsWhole block-IsInside
      (omega arith) refl (omega arith, (omega arith, (omega arith, tt)))

-- The client before its first connection, and after the first answer of the tracker.
abbrev alone : Client
alone = record client { tracker_answers = 0; pool = []; next_peer = 0 }

abbrev told : Client
told = record alone {
  tracker_answers = 1;
  tracker_peers = [];
  downloaded = pos 4;
  bitfield = 128 ∷ [];
  pieces_state_arr = piece_completed ∷ piece_havnt ∷ [];
  pieces_num_in_peers = pos 0 ∷ pos 0 ∷ [];
  rest_pieces_num = pos 1;
}

-- A peer shakes hands.
abbrev in_one : Bytes → List RecvEvent
in_one [] = []
in_one (b ∷ bs) = segment b bs ∷ []

abbrev joined : Client
joined = record told {
  pool = 0 ∷ [];
  heap = update told.heap 0 (record {
    connfd = 9;
    am_choking = 1;
    am_interested = 0;
    peer_choking = 1;
    peer_interested = 0;
    peer_ip = strncpy 16 (49 ∷ 46 ∷ 51 ∷ []);
    peer_pieces_state = pos 0 ∷ pos 0 ∷ [];
    pieces_num_downloaded_from_it = pos 0;
  });
  next_peer = 1;
  sent = (9, handshake_seg client) ∷ [];
  threads = message_handler 9 0 none ∷ [];
}

abbrev at_start : System
at_start = record { client = told; stage = returned }

abbrev connected : System
connected = record { client = joined; stage = returned }

-- The thread that requests begins.
abbrev asking : System
asking = record { client = record joined { have_pieces_num = pos 1 }; stage = downloading }

request_file_step-IsShaped_example :
    (stage' : Stage) × (c' : Client) × (request_file_step (waits_with 1 0) client ≡ ok stage' c')
    × IsShaped c'
    × IsChosen c'.next_peer c'.torrent.num_pieces stage'
request_file_step-IsShaped_example =
    request_file_step-IsShaped client (waits_with 1 0) client-IsShaped (omega arith, omega arith)

handle_bitfield-IsNoted_example :
    IsNoted 0 (64 ∷ []) client (handle_bitfield 7 0 (64 ∷ []) (pos 1) client)
handle_bitfield-IsNoted_example =
    handle_bitfield-IsNoted 0 7 (64 ∷ []) client (client-IsShaped.fits) (omega arith) (omega arith)
