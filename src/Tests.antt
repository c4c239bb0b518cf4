-- ===== src/Tests.antt =====
-- Runs of the definitions on small inputs, and the theorems at such inputs.
mod Peers
mod Formats
mod Startup
use simpletorrent_nju.Base.{
  ℕ, zero, suc, ◌+◌, ◌*◌, ◌<◌, ◌≤◌, ◌≡◌, ◌⊎◌, inr, refl, if◌then◌else◌, true, false, List, [], ◌∷◌,
  ◌++◌, none, some, Bytes, ℤ, pos, negsuc, ◌≤ℤ◌, IsIn, get_elem?, length, replicate, arith, bits32,
  signed32, ◌*ℤ◌,
}
use simpletorrent_nju.Words.{reverse_bits, reverse_byte_orderi, int_bytes, int_at}
use simpletorrent_nju.Words.Order.{reverse-int_at}
use simpletorrent_nju.Bitfield.{set_bit_at_index, get_bit_at_index}
use simpletorrent_nju.Bitfield.Laws.{bit_of, get_bit-set_bit}
use simpletorrent_nju.Socket.{RecvEvent, SendEvent, recv_all, send_all}
use simpletorrent_nju.Socket.Stream.{stream, IsReliable, recv_all-stream, send_all_prefix}
use simpletorrent_nju.Client.{
  Client, Torrent, Peer, PeerData, Extern, ok, fault, send, pure, ◌>>=◌, piece_havnt,
}
use simpletorrent_nju.FileIo.{get_block, set_block, gen_bitfield, bytes_eq, digest_bytes}
use simpletorrent_nju.FileIo.Blocks.{IsInside, get_block-set_block}
use simpletorrent_nju.FileIo.Pieces.{IsWhole, verified}
use simpletorrent_nju.FileIo.Verify.{gen_bitfield-verified}
use simpletorrent_nju.Wire.Choose.{
  which_piece_to_request, find_peer_have_piece, first_wanted, least_wanted, first_having, has_piece,
  least_loaded,
}
use simpletorrent_nju.Wire.Choose.Loops.{Wanted}
use simpletorrent_nju.Wire.Choose.Rarest.{IsRarest, which_piece_to_request-IsRarest}
use simpletorrent_nju.Wire.Choose.Source.{Has, find_peer_have_piece_least}
use simpletorrent_nju.Wire.Request.{sub_requests}
use simpletorrent_nju.Wire.Request.Cover.{Tiles, request_a_piece-Tiles}
use simpletorrent_nju.Wire.Messages.{ended, message_loop}
use simpletorrent_nju.Wire.Messages.Fuel.{message_loop-Ends}
use simpletorrent_nju.Wire.Send.Block.{send_piece_block}
use simpletorrent_nju.Wire.Send.{send_piece, piece_message, sent_ok, have_message}
use simpletorrent_nju.Wire.Messages.Frames.{then_loop, message_loop-sent_bytes}
use simpletorrent_nju.Wire.Messages.Message.{Message, has, sent_bytes, reaction, len_of}

-- A torrent of two pieces of four bytes; the second one has three.
abbrev two_pieces : Torrent
two_pieces = record {
  info_hash = pos 1 ∷ negsuc 1 ∷ pos 3 ∷ pos 4 ∷ pos 5 ∷ [];
  piece_len = 4;
  num_pieces = 2;
  pieces = replicate 20 1 ++ replicate 20 0;
  begin_index = 0;
  size = 7;
}

abbrev ip_one : Bytes
ip_one = 49 ∷ 46 ∷ 49 ∷ []

abbrev ip_two : Bytes
ip_two = 49 ∷ 46 ∷ 50 ∷ []

abbrev peer_at : Bytes → List ℤ → ℤ → Peer
peer_at ip states num = record {
  connfd = 5;
  am_choking = 1;
  am_interested = 0;
  peer_choking = 1;
  peer_interested = 0;
  peer_ip = ip;
  peer_pieces_state = states;
  pieces_num_downloaded_from_it = num;
}

abbrev two_peers : ℕ → Peer
two_peers zero = peer_at ip_one (pos 1 ∷ pos 0 ∷ []) (pos 3)
two_peers (suc n) = peer_at ip_two (pos 1 ∷ pos 1 ∷ []) (pos 2)

abbrev tracker_two : List PeerData
tracker_two = record { id = []; port = 80; ip = ip_two; state = 0 } ∷ []

abbrev client : Client
client = record {
  torrent = two_pieces;
  my_ip = ip_one;
  my_id = replicate 20 65;
  file = 1 ∷ 2 ∷ 3 ∷ 4 ∷ 5 ∷ 6 ∷ 7 ∷ [];
  downloaded = pos 0;
  bitfield = 0 ∷ [];
  pieces_state_arr = piece_havnt ∷ piece_havnt ∷ [];
  pieces_num_in_peers = pos 2 ∷ pos 1 ∷ [];
  rest_pieces_num = pos 2;
  isseed = false;
  tracker_answers = 1;
  tracker_peers = tracker_two;
  pool = 0 ∷ 1 ∷ [];
  heap = two_peers;
  next_peer = 2;
  is_end_game = false;
  have_pieces_num = pos 0;
  pieces_requesting = pos 0;
  pieces_locked = false;
  outbox = [];
  sent = [];
  closed = [];
  threads = [];
}

-- The hash of a block is its first byte, five times 0x01010101 of it.
abbrev outside : Extern
outside = record {
  sha1 = λ bytes. elim bytes [ [] ↦ [] | b ∷ rest ↦ replicate 5 (b * 0x01010101) ];
  junk = λ i. 0;
  junk_int = λ i. pos 0;
  get_ip_by_socket = λ fd. some ip_two;
  can_spawn = λ fd. true;
  dial = λ ip port. some 7;
}

reverse-int_at_example :
    (int_bytes (reverse_byte_orderi (negsuc 299)) ≡ 255 ∷ 255 ∷ 254 ∷ 212 ∷ [])
    × (reverse_byte_orderi (int_at (int_bytes (reverse_byte_orderi (negsuc 299)) ++ 7 ∷ []))
        ≡ negsuc 299)
unfolding bits32
reverse-int_at_example = reverse-int_at (negsuc 299) (7 ∷ []) (omega arith)

get_bit-set_bit_example :
    (bs' : Bytes) × (set_bit_at_index (255 ∷ 1 ∷ []) 9 true ≡ some bs')
    × (get_bit_at_index bs' (pos 9) (pos 2) ≡ some (pos 1))
get_bit-set_bit_example =
    get_bit-set_bit (255 ∷ 1 ∷ []) 9 9 true (omega arith) (omega arith)
      (omega arith, (omega arith, tt))

-- Five bytes in three segments, with a signal between them.
abbrev in_parts : List RecvEvent
in_parts =
    RecvEvent.segment 1 (2 ∷ [])
    ∷ RecvEvent.interrupted
    ∷ RecvEvent.segment 3 []
    ∷ RecvEvent.segment 4 (5 ∷ [])
    ∷ []

recv_all-stream_example :
    ((recv_all in_parts (pos 4)).bytes ≡ 1 ∷ 2 ∷ 3 ∷ 4 ∷ [])
    × ((recv_all in_parts (pos 4)).result ≡ pos 4)
    × (stream (recv_all in_parts (pos 4)).rest ≡ 5 ∷ [])
    × IsReliable (recv_all in_parts (pos 4)).rest
recv_all-stream_example = recv_all-stream in_parts 4 tt

abbrev out_events : List SendEvent
out_events = SendEvent.accepts_suc 0 ∷ SendEvent.interrupted ∷ SendEvent.accepts_none ∷ []

send_all_prefix_example :
    (unsent : Bytes) × (7 ∷ 8 ∷ 9 ∷ [] ≡ (send_all out_events (7 ∷ 8 ∷ 9 ∷ [])).bytes ++ unsent)
    × (((send_all out_events (7 ∷ 8 ∷ 9 ∷ [])).result ≡ negsuc 0)
        ⊎ ((send_all out_events (7 ∷ 8 ∷ 9 ∷ [])).result
            ≡ pos (length (send_all out_events (7 ∷ 8 ∷ 9 ∷ [])).bytes)))
send_all_prefix_example = send_all_prefix out_events (7 ∷ 8 ∷ 9 ∷ [])

block-IsInside : IsInside two_pieces client.file 4 2
block-IsInside = record {
  some_bytes = omega arith;
  starts = omega arith;
  ends = omega arith;
  fits_int = omega arith;
  on_disk = omega arith;
}

get_block-set_block_example :
    (file : Bytes) × (set_block (pos 1) (pos 0) (pos 2) (8 ∷ 9 ∷ []) client
      ≡ ok (pos 2) (record client { file = file }))
    × (get_block (pos 1) (pos 0) (pos 2) (0 ∷ 0 ∷ []) (record client { file = file })
        ≡ ok (pos 2, 8 ∷ 9 ∷ []) (record client { file = file }))
    × (length file ≡ 7)
    × ((j : ℕ) → (j + 0 < 4) ⊎ (6 ≤ j + 0) → get_elem? file j ≡ get_elem? client.file j)
get_block-set_block_example =
    get_block-set_block client 1 0 (8 ∷ 9 ∷ []) (0 ∷ 0 ∷ []) block-IsInside refl

two_pieces-IsWhole : IsWhole two_pieces client.file
two_pieces-IsWhole = record {
  one_file = refl;
  has_pieces = omega arith;
  last_begins = omega arith;
  last_ends = omega arith;
  fits_int = omega arith;
  hashes = refl;
  on_disk = omega arith;
}

first_piece_only :
    (verified outside two_pieces client.file 0 ≡ true)
    × (verified outside two_pieces client.file 1 ≡ false)
unfolding bytes_eq digest_bytes
first_piece_only = (refl, refl)

gen_bitfield-verified_example :
    (bits : Bytes) × (total : ℤ) × (gen_bitfield outside two_pieces.pieces 4 2 client
      ≡ ok bits (record client { downloaded = total }))
    × (length bits ≡ 1)
    × ((i : ℕ)
        → i < 2
        → get_bit_at_index bits (pos i) (pos 1)
          ≡ some (if verified outside two_pieces client.file i then pos 1 else pos 0))
    × ((i : ℕ) → 2 ≤ i → bit_of bits i ≡ false)
gen_bitfield-verified_example = gen_bitfield-verified outside client two_pieces-IsWhole

which_piece_to_request-IsRarest_example :
    ((which_piece_to_request client ≡ ok (negsuc 0) client)
      × ((j : ℕ) (v : ℤ) → ¬ Wanted (2 ∷ 2 ∷ []) (pos 2 ∷ pos 1 ∷ []) j v))
    ⊎ ((m : ℕ) × (which_piece_to_request client ≡ ok (pos m) client)
        × IsRarest (2 ∷ 2 ∷ []) (pos 2 ∷ pos 1 ∷ []) m)
which_piece_to_request-IsRarest_example = which_piece_to_request-IsRarest client refl refl

find_peer_have_piece_least_example :
    ((find_peer_have_piece 0 client ≡ ok none client)
      × ((q : ℕ) → IsIn q (0 ∷ 1 ∷ []) → ¬ Has two_peers 0 q))
    ⊎ ((p : ℕ) × (find_peer_have_piece 0 client ≡ ok (some p) client)
        × IsIn p (0 ∷ 1 ∷ [])
        × Has two_peers 0 p
        × ((q : ℕ)
            → IsIn q (0 ∷ 1 ∷ [])
            → Has two_peers 0 q
            → (two_peers p).pieces_num_downloaded_from_it
              ≤ℤ (two_peers q).pieces_num_downloaded_from_it))
find_peer_have_piece_least_example =
    find_peer_have_piece_least client 0 (omega arith, (omega arith, tt))

chosen_piece :
    (which_piece_to_request client ≡ ok (pos 1) client)
    × (find_peer_have_piece 0 client ≡ ok (some 1) client)
unfolding which_piece_to_request find_peer_have_piece first_wanted least_wanted first_having
    has_piece least_loaded
chosen_piece = (refl, refl)

request_a_piece-Tiles_example : Tiles 0 (sub_requests 4 19 1 10 0 2) 8
request_a_piece-Tiles_example =
    request_a_piece-Tiles 19 1 10 (omega arith) (omega arith) (omega arith)

-- A have for piece 1 in one segment, with a byte behind it.
abbrev have_inbox : List RecvEvent
have_inbox = RecvEvent.segment 0 (0 ∷ 0 ∷ 5 ∷ 4 ∷ 0 ∷ 0 ∷ 0 ∷ 1 ∷ 77 ∷ []) ∷ []

message_loop-sent_bytes_example :
    (later : List RecvEvent) × (stream later ≡ 77 ∷ [])
    × IsReliable later
    × (message_loop outside 5 1 3 [] have_inbox client
        ≡ (reaction outside 5 1 (has (pos 1)) later >>= then_loop outside 5 1 2 (pos 5)) client)
unfolding have_message int_bytes bits32 reverse_byte_orderi signed32 reverse_bits
message_loop-sent_bytes_example =
    message_loop-sent_bytes outside 5 1 (has (pos 1)) 2 [] (77 ∷ []) have_inbox client (omega arith)
      tt refl

message_loop-Ends_example :
    (message_loop outside 5 1 11 [] have_inbox client ≡ fault)
    ⊎ ((c' : Client) × (message_loop outside 5 1 11 [] have_inbox client ≡ ok ended c'))
message_loop-Ends_example = message_loop-Ends outside 5 1 11 [] have_inbox client (omega arith)

send_piece_block_example :
    send_piece 5 (pos 1) (pos 0) (pos 2) client
    ≡ (send 5 (piece_message (pos 1) (pos 0) (pos 2) (5 ∷ 6 ∷ [])) >>= λ s. pure (sent_ok s)) client
send_piece_block_example = send_piece_block client 5 1 0 2 block-IsInside (omega arith)
