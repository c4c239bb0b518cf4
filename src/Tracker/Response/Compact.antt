-- ===== src/Tracker/Response/Compact.antt =====
-- The compact form of the peers in the tracker's answer.
use simpletorrent_nju.Base.{
  ◌≡◌, refl, ℕ, ◌+◌, ◌*◌, ◌/◌, ◌<◌, ◌≤◌, List, [], ◌∷◌, ◌++◌, some, Bytes, ℤ, pos, arith, length,
  IsInt, map, i32-IsInt_id, length-append,
}
use simpletorrent_nju.Base.{replicate}
use simpletorrent_nju.Client.{Extern}
use simpletorrent_nju.Decimal.{digits, decimal}
use simpletorrent_nju.Wire.Handshake.{codes}
use simpletorrent_nju.Bencode.{returns, be_str, be_decoden}
use simpletorrent_nju.Bencode.Free.{be_str_len}
use simpletorrent_nju.Bencode.Values.{
  Value, str, int, dict, no_entries, entry, emit, node_of, IsSized,
}
use simpletorrent_nju.Bencode.RoundTrip.{decode_node-emit}
use simpletorrent_nju.Tracker.Run.{ok, ◌>>=◌}
use simpletorrent_nju.Tracker.Response.{
  Entry, ip_text, compact_entry, compact, get_peers, get_tracker_data, tracker_data_of,
}

-- An address and a port in network order.
pub record Address : Type 0 where
  pub ip_0 : ℕ
  pub ip_1 : ℕ
  pub ip_2 : ℕ
  pub ip_3 : ℕ
  pub port_high : ℕ
  pub port_low : ℕ

abbrev pub six_bytes : List Address → Bytes
six_bytes [] = []
six_bytes (p ∷ ps) = p.ip_0 ∷ p.ip_1 ∷ p.ip_2 ∷ p.ip_3 ∷ p.port_high ∷ p.port_low ∷ six_bytes ps

-- The entry that stands for it; nothing assigns its `state`.
abbrev pub entry_of : Extern → Address → Entry
entry_of x p =
    let dot = codes "." in
    record {
      id = replicate 21 0;
      port = pos (p.port_high * 256 + p.port_low);
      ip =
          decimal p.ip_0
          ++ (dot ++ (decimal p.ip_1 ++ (dot ++ (decimal p.ip_2 ++ (dot ++ decimal p.ip_3)))));
      state = x.junk_int 0;
    }

length-six_bytes : (ps : List Address) → length (six_bytes ps) ≡ 6 * length ps
length-six_bytes [] = omega arith
length-six_bytes (p ∷ ps) = omega (arith, length-six_bytes ps)

compact-six_bytes :
    (x : Extern) (ps : List Address)
    → compact x (length ps) (six_bytes ps) ≡ ok (map (entry_of x) ps)
unfolding compact compact_entry ip_text
compact-six_bytes x [] = refl
compact-six_bytes x (p ∷ ps) = rw (compact-six_bytes x ps)

get_peers-six_bytes :
    (x : Extern) (ps : List Address)
    → get_peers x (be_str (some (six_bytes ps))) ≡ ok (map (entry_of x) ps)
unfolding get_peers be_str_len
get_peers-six_bytes x ps =
    let e : length (six_bytes ps) / 6 ≡ length ps = omega (arith, length-six_bytes ps) in
    rw e (compact-six_bytes x ps)

length-decimal_byte : (n : ℕ) → n < 256 → length (decimal n) ≤ 3
unfolding decimal digits
length-decimal_byte n h = ground arith

-- The text of an address, with its zero, fits into the 16 bytes of `ip`.
pub ip_text_fits :
    (a b c d : ℕ) → a < 256 → b < 256 → c < 256 → d < 256 → length (ip_text a b c d) + 1 ≤ 16
unfolding ip_text
ip_text_fits a b c d ha hb hc hd =
    let behind_c = length-append (decimal c) (46 ∷ decimal d) in
    let behind_b = length-append (decimal b) (46 ∷ (decimal c ++ 46 ∷ decimal d)) in
    let behind_a =
      length-append (decimal a) (46 ∷ (decimal b ++ 46 ∷ (decimal c ++ 46 ∷ decimal d))) in
    omega (
      arith,
      behind_a,
      behind_b,
      behind_c,
      length-decimal_byte a ha,
      length-decimal_byte b hb,
      length-decimal_byte c hc,
      length-decimal_byte d hd,
    )

-- An answer with an interval and compact peers.
abbrev pub compact_answer : ℤ → List Address → Value
compact_answer interval ps =
    dict (codes "interval") (int interval) (entry (codes "peers") (str (six_bytes ps)) no_entries)

tracker_data_of-compact_answer :
    (x : Extern) (interval : ℤ) (ps : List Address)
    → IsInt interval
    → tracker_data_of x (returns (node_of (compact_answer interval ps)))
      ≡ ok (record { interval = interval; peers = some (map (entry_of x) ps) })
unfolding node_of tracker_data_of
tracker_data_of-compact_answer x interval ps whole =
    rw (get_peers-six_bytes x ps, ◌>>=◌) (rw (i32-IsInt_id interval whole))

-- From the bencoded answer of a tracker with an interval, an `int`, and peers in the compact form,
-- `get_tracker_data` takes this interval and one entry for each peer, in order: the address as text
-- and the port from its two bytes. Other data may follow, and the fuel covers the answer's length.
pub get_tracker_data-answer :
    (x : Extern) (interval : ℤ) (ps : List Address) (f m : ℕ) (rest : Bytes)
    → IsInt interval
    → IsSized (compact_answer interval ps)
    → length (emit (compact_answer interval ps)) < f
    → get_tracker_data x f
        (emit (compact_answer interval ps) ++ rest)
        (pos (length (emit (compact_answer interval ps)) + m))
      ≡ ok (record { interval = interval; peers = some (map (entry_of x) ps) })
unfolding get_tracker_data be_decoden
get_tracker_data-answer x interval ps f m rest whole sized fuel =
    rw (decode_node-emit (compact_answer interval ps) f m rest sized fuel)
      (tracker_data_of-compact_answer x interval ps whole)
