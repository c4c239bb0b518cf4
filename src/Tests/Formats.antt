-- ===== src/Tests/Formats.antt =====
-- Runs of the decoders and printers on small inputs, and the theorems at such inputs.
use simpletorrent_nju.Pool.{strncmp_eq}
use simpletorrent_nju.Bencode.Values.{Entries, entry, no_entries, str, int}
use simpletorrent_nju.Base.{
  if◌then◌else◌, false, true, ◌≡◌, refl, inr, ◌+◌, List, [], ◌∷◌, ◌++◌, none, some, Bytes, pos,
  negsuc, arith, length, ◌-◌, ◌≤◌, map, take, replicate, All, signed32,
}
use simpletorrent_nju.Decimal.{decimal, decimal_int}
use simpletorrent_nju.Wire.Handshake.{codes, net_hash}
use simpletorrent_nju.Bencode.{
  done, decode_node, decode_str, decode_int, advance, unless_empty, no_data, switch, kind, is_end,
  items_round, fields_round, be_decoden, goes_on, returns,
}
use simpletorrent_nju.Bencode.Values.{
  emit_str, IsSized, str, int, list, dict, no_values, no_entries, entry, emit, node_of, Value,
}
use simpletorrent_nju.Bencode.RoundTrip.{decode_node-emit}
use simpletorrent_nju.Bencode.Malformed.{be_decoden-IsStuck, decode_str_short}
use simpletorrent_nju.Socket.{RecvEvent, segment, interrupted}
use simpletorrent_nju.Text.{strstr, starts_with, until_zero}
use simpletorrent_nju.Tests.{client, outside, two_peers}
use simpletorrent_nju.Pool.Scan.{scan, scan_stuck, becomes_one}
use simpletorrent_nju.Pool.Scan
use simpletorrent_nju.Tracker.Run.{ok}
use simpletorrent_nju.Tracker.Request.{make_tracker_request}
use simpletorrent_nju.Tracker.Request.Written.{numbers}
use simpletorrent_nju.Tracker.Request.Escape.{IsWord, unescape, make_tracker_request-unescape}
use simpletorrent_nju.Tracker.Request.Bounds.{AreInts, make_tracker_request_fits}
use simpletorrent_nju.Tracker.Http.{readn, preprocess_tracker_response}
use simpletorrent_nju.Tracker.Http.Reading.{readn-stream}
use simpletorrent_nju.Socket.Stream.{stream, IsReliable}
use simpletorrent_nju.Tracker.Response.{ip_text, compact_entry, get_tracker_data}
use simpletorrent_nju.Tracker.Response.Compact.{
  Address, entry_of, compact_answer, get_tracker_data-answer,
}
use simpletorrent_nju.Tracker.Http.Answer.{http_header, preprocess_tracker_response-http_header}
use simpletorrent_nju.Tracker.Announce.{parse_announce_url, port_overruns}
use simpletorrent_nju.Tracker.Announce.Url.{parse_announce_url-http}
use simpletorrent_nju.Main.{after_request, main_round}
use simpletorrent_nju.Socket.Stream.{stream}
use simpletorrent_nju.Socket.Line.{recvline, recvline-stream}
use simpletorrent_nju.Main.Rounds.{start, ◌⟶*◌, next, here, round, IsOrderly, start-IsOrderly}
use simpletorrent_nju.Metainfo.{parsetorrentfile}
use simpletorrent_nju.Metainfo.Rounds.{piece_count}
use simpletorrent_nju.Metainfo.SingleFile.{AreOther, chain, info, file, parsetorrentfile-file}

-- d1:ai-3e1:bl2:xyee
abbrev sample : Value
sample =
    dict (97 ∷ []) (int (negsuc 2))
      (entry (98 ∷ []) (list (str (120 ∷ 121 ∷ [])) no_values) no_entries)

sample_text : emit sample ≡ codes "d1:ai-3e1:bl2:xyee"
unfolding emit emit_str decimal decimal_int
sample_text = refl

decode_sample : be_decoden 20 (codes "d1:ai-3e1:bl2:xyee") (pos 18) ≡ returns (node_of sample)
unfolding be_decoden unless_empty no_data switch kind is_end items_round fields_round advance
    decode_str decode_int node_of
decode_sample = refl

decode_node-emit_example :
    decode_node 20 (emit sample ++ 0 ∷ []) (pos (length (emit sample) + 3))
    ≡ done (node_of sample) (0 ∷ []) (pos 3)
unfolding emit emit_str decimal decimal_int IsSized
decode_node-emit_example = decode_node-emit sample 20 3 (0 ∷ []) (omega arith) (omega arith)

be_decoden-IsStuck_example : be_decoden 50 (codes "lx") (pos 2) ≡ goes_on
unfolding kind is_end
be_decoden-IsStuck_example = be_decoden-IsStuck 50 120 1 [] (refl, inr refl)

decode_str_short_example :
    decode_str (decimal 5 ++ 58 ∷ 97 ∷ []) (pos (length (decimal 5) + 2))
    ≡ done none (58 ∷ 97 ∷ []) (pos 2)
decode_str_short_example = decode_str_short 5 2 (97 ∷ []) (omega arith) (omega arith)

make_tracker_request-unescape_example :
    (h : Bytes) × (p : Bytes) × ((make_tracker_request (pos 0) client (pos 6881) (pos 0)).text
      ≡ codes "GET /announce?info_hash="
        ++ (h ++ (codes "&peer_id=" ++ (p ++ numbers (pos 0) client (pos 6881) (pos 0)))))
    × (All IsWord h × (unescape h ≡ net_hash (take 5 client.torrent.info_hash)))
    × (All IsWord p × (unescape p ≡ take 20 client.my_id))
make_tracker_request-unescape_example =
    make_tracker_request-unescape (pos 0) client (pos 6881) (pos 0) (omega arith)

sevens-AreInts : AreInts client (pos 6881) (negsuc 9)
sevens-AreInts = record {
  port_int = omega arith;
  uploaded_int = omega arith;
  downloaded_int = omega arith;
  size_int = omega arith;
}

make_tracker_request_fits_example :
    let r = make_tracker_request (pos 2) client (pos 6881) (negsuc 9) in
    (r.mlen ≤ 260) × (r.mlen ≡ length r.text)
make_tracker_request_fits_example =
    make_tracker_request_fits (pos 2) client (pos 6881) (negsuc 9) sevens-AreInts

-- 10.0.0.255:6881
abbrev home : Address
home = record { ip_0 = 10; ip_1 = 0; ip_2 = 0; ip_3 = 255; port_high = 26; port_low = 225 }

home_entry :
    ((entry_of outside home).ip ≡ codes "10.0.0.255") × ((entry_of outside home).port ≡ pos 6881)
unfolding ip_text compact_entry decimal
home_entry = (refl, refl)

get_tracker_data-answer_example :
    get_tracker_data outside 100
      (emit (compact_answer (pos 1800) (home ∷ [])) ++ 0 ∷ [])
      (pos (length (emit (compact_answer (pos 1800) (home ∷ []))) + 1))
    ≡ ok (record { interval = pos 1800; peers = some (map (entry_of outside) (home ∷ [])) })
unfolding emit emit_str decimal decimal_int IsSized
get_tracker_data-answer_example =
    get_tracker_data-answer outside (pos 1800) (home ∷ []) 100 1 (0 ∷ []) (omega arith)
      (omega arith) (omega arith)

readn-stream_example :
    let r = readn (segment 1 (2 ∷ []) ∷ interrupted ∷ segment 3 (4 ∷ []) ∷ []) (pos 3) in
    (r.bytes ≡ 1 ∷ 2 ∷ 3 ∷ []) × (r.result ≡ pos 3) × (stream r.rest ≡ 4 ∷ []) × IsReliable r.rest
readn-stream_example =
    readn-stream (segment 1 (2 ∷ []) ∷ interrupted ∷ segment 3 (4 ∷ []) ∷ []) 3 tt

abbrev arriving : Bytes → List RecvEvent
arriving [] = []
arriving (b ∷ bs) = segment b bs ∷ []

-- `created by` and `creation date`, as the repository's own torrents have them.
abbrev created : Entries
created =
    entry (codes "created by") (str (codes "me"))
      (entry (codes "creation date") (int (pos 1465110180)) no_entries)

created-AreOther : AreOther created
unfolding strncmp_eq
created-AreOther = (refl, refl, (refl, refl, tt))

parsetorrentfile-file_example :
    parsetorrentfile outside 300 (emit (file (codes "u") created (codes "n") 3 2 (replicate 40 9)))
    ≡ ok (
        some (record {
          info_hash = map signed32 (outside.sha1 (emit (info (codes "n") 3 2 (replicate 40 9))));
          announce = until_zero (codes "u");
          len = pos 3;
          name = until_zero (codes "n");
          filename = until_zero (codes "n");
          begin_index = pos 0;
          size = pos 3;
          piece_len = pos 2;
          num_pieces = pos (piece_count 3 2);
          pieces = replicate 40 9;
          filled = 5;
          overruns = length (codes "u") + 1 - length (until_zero (codes "u"));
        }))
unfolding emit emit_str decimal decimal_int IsSized strstr starts_with until_zero chain
parsetorrentfile-file_example =
    parsetorrentfile-file outside (codes "u") created (codes "n") (replicate 40 9)
      (codes "d8:announce1:u10:created by2:me13:creation datei1465110180e4:") 3 2 300
      created-AreOther (omega arith) (omega arith)
      (record {
        bounded = omega arith;
        divisor = omega arith;
        bounded_piece = omega arith;
        whole = refl;
        fits = omega arith;
      })
      refl refl

preprocess_tracker_response-http_header_example :
    preprocess_tracker_response (arriving (http_header 3 ++ codes "abcd"))
    ≡ ok (some (record { size = pos 3; data_bytes = codes "abc" }))
unfolding decimal
preprocess_tracker_response-http_header_example =
    preprocess_tracker_response-http_header (arriving (http_header 3 ++ codes "abcd")) (codes "abc")
      (codes "d") (omega arith) (omega arith) refl

-- a round in which the request could not be sent
unsent : start client (pos 6881) ⟶* after_request (start client (pos 6881))
unfolding main_round
unsent = next (round outside 9 false [] true refl) here

start-IsOrderly_example : IsOrderly (after_request (start client (pos 6881)))
start-IsOrderly_example = start-IsOrderly client (pos 6881) unsent

parse_announce_url-http_example :
    parse_announce_url outside
      (codes "http://" ++ (codes "t.org" ++ 58 ∷ (decimal 6969 ++ codes "/announce")))
    ≡ ok (record {
      hostname = until_zero (codes "t.org" ++ outside.junk (length (codes "t.org")) ∷ 0 ∷ []);
      port = pos 6969;
      overruns = port_overruns (length (decimal 6969)) + 1;
    })
unfolding decimal strstr starts_with
parse_announce_url-http_example =
    parse_announce_url-http outside (codes "t.org") (codes "/announce") 6969 (omega arith) refl refl

-- the first of the two peers lacks piece 1, the second one has it
scan_stuck_example :
    scan 1000 0 (λ r. two_peers) (0 ∷ 1 ∷ []) 1
    ≡ (if becomes_one (λ r. pos 0) 1000 0 then Scan.found 0 else Scan.goes_on)
scan_stuck_example = scan_stuck 1000 (λ r. two_peers) 0 (1 ∷ []) 1 (λ r. pos 0) λ r. refl

recvline-stream_example :
    (rest : List RecvEvent) × (stream rest ≡ 7 ∷ [])
    × (recvline 3 (segment 72 (105 ∷ []) ∷ segment 10 (7 ∷ []) ∷ [])
        ≡ simpletorrent_nju.Tracker.Run.ok
            (record { result = pos 2; line = 72 ∷ 105 ∷ 0 ∷ []; rest = rest }))
recvline-stream_example =
    recvline-stream 3 (segment 72 (105 ∷ []) ∷ segment 10 (7 ∷ []) ∷ []) (72 ∷ 105 ∷ []) (7 ∷ []) tt
      refl ((λ e. omega arith), ((λ e. omega arith), tt)) (omega arith)
