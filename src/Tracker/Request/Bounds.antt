-- ===== src/Tracker/Request/Bounds.antt =====
-- The request fits into the 4096 bytes that are allocated for it.
use simpletorrent_nju.Base.{
  ◌<◌, lt→ltb, IsInt, ◌≡◌, refl, ℕ, zero, suc, ◌+◌, ◌*◌, ◌/◌, ◌%◌, ◌≤◌, ltb, Bool-cases, inl, inr,
  List, [], ◌∷◌, ◌++◌, Bytes, ℤ, pos, negsuc, arith, length, take, length-append,
}
use simpletorrent_nju.Words.{int_bytes}
use simpletorrent_nju.Client.{Client}
use simpletorrent_nju.Decimal.{digits, decimal, decimal_int}
use simpletorrent_nju.Wire.Handshake.{codes, net_hash}
use simpletorrent_nju.Tracker.Request.{is_kept, event_text, make_tracker_request}
use simpletorrent_nju.Tracker.Request.Written.{
  hex, escape, escape_all, numbers, request_text, make_tracker_request-written,
}

-- 10 ^ (k + 1).
tens : ℕ → ℕ
tens zero = 10
tens (suc k) = 10 * tens k

length-digits :
    (f k n : ℕ) (out : Bytes) → n < tens k → length (digits f n out) ≤ suc k + length out
unfolding digits tens
length-digits zero k n out h = omega arith
length-digits (suc f) zero n out h = rw (lt→ltb n 10 h) (omega arith)
length-digits (suc f) (suc k) n out h = elim (Bool-cases (ltb n 10)) [
  | inl e ↦ rw e (omega arith)
  | inr e ↦ rw e (omega (arith, length-digits f k (n / 10) ((48 + n % 10) ∷ out) (omega arith)))
]

length-decimal_int : (z : ℤ) → IsInt z → length (decimal_int z) ≤ 11
unfolding decimal_int decimal tens
length-decimal_int (pos n) h = omega (arith, length-digits 20 9 n [] (omega (arith, h.0)))
length-decimal_int (negsuc n) h = omega (arith, length-digits 20 9 (suc n) [] (omega (arith, h.1)))

length-escape : (bs : Bytes) → length (escape bs) ≤ 3 * length bs
unfolding escape hex
length-escape [] = omega arith
length-escape (p ∷ ps) = elim (Bool-cases (is_kept p)) [
  | inl e ↦ rw e (omega (arith, length-escape ps))
  | inr e ↦ rw e (omega (arith, length-escape ps))
]

length-escape_all : (bs : Bytes) → length (escape_all bs) ≡ 3 * length bs
unfolding escape_all hex
length-escape_all [] = omega arith
length-escape_all (p ∷ ps) = omega (arith, length-escape_all ps)

length-net_hash : (n : ℕ) (hs : List ℤ) → length (net_hash (take n hs)) ≤ 4 * n
unfolding net_hash int_bytes
length-net_hash zero hs = omega arith
length-net_hash (suc n) [] = omega arith
length-net_hash (suc n) (h ∷ hs) = omega (arith, length-net_hash n hs)

length-take_le : (n : ℕ) (bs : Bytes) → length (take n bs) ≤ n
length-take_le zero bs = omega arith
length-take_le (suc n) [] = omega arith
length-take_le (suc n) (b ∷ bs) = omega (arith, length-take_le n bs)

length-event_text : (event : ℤ) → length (event_text event) ≤ 16
unfolding event_text
length-event_text event = ground arith

-- one more part of a text of known bounds
append_le : (xs ys : Bytes) (a b : ℕ) → length xs ≤ a → length ys ≤ b → length (xs ++ ys) ≤ a + b
append_le xs ys a b h k = omega (arith, length-append xs ys)

-- The numbers of the request are `int`s.
pub record AreInts (c : Client) (port uploaded : ℤ) : Type 0 where
  pub port_int : IsInt port
  pub uploaded_int : IsInt uploaded
  pub downloaded_int : IsInt c.downloaded
  pub size_int : IsInt (pos c.torrent.size)

length-numbers :
    (event : ℤ) (c : Client) (port uploaded : ℤ)
    → AreInts c port uploaded
    → length (numbers event c port uploaded) ≤ 107
unfolding numbers
length-numbers event c port uploaded v =
    let http =
      append_le (event_text event) (codes " HTTP/1.0\r\n\r\n") 16 13 (length-event_text event)
        (omega arith) in
    let left = append_le (codes "&left=") _ 6 40 (omega arith) (
      append_le (decimal_int (pos c.torrent.size)) _ 11 29
        (length-decimal_int (pos c.torrent.size) v.size_int) http) in
    let down = append_le (codes "&downloaded=") _ 12 57 (omega arith) (
      append_le (decimal_int c.downloaded) _ 11 46
        (length-decimal_int c.downloaded v.downloaded_int) left) in
    let up = append_le (codes "&uploaded=") _ 10 80 (omega arith) (
      append_le (decimal_int uploaded) _ 11 69 (length-decimal_int uploaded v.uploaded_int) down) in
    append_le (codes "&port=") _ 6 101 (omega arith)
      (append_le (decimal_int port) _ 11 90 (length-decimal_int port v.port_int) up)

length-text :
    (event : ℤ) (c : Client) (port uploaded : ℤ)
    → AreInts c port uploaded
    → length (request_text event c port uploaded) ≤ 260
length-text event c port uploaded v =
    let hash = net_hash (take 5 c.torrent.info_hash) in
    let id = take 20 c.my_id in
    let in_hash : length (escape hash) ≤ 60 =
      omega (arith, length-escape hash, length-net_hash 5 c.torrent.info_hash) in
    let in_id : length (escape_all id) ≤ 60 =
      omega (arith, length-escape_all id, length-take_le 20 c.my_id) in
    let behind = escape_all id ++ numbers event c port uploaded in
    let from_id = codes "&peer_id=" ++ behind in
    append_le (codes "GET /announce?info_hash=") (escape hash ++ from_id) 24 236 (omega arith) (
      append_le (escape hash) from_id 60 176 in_hash (
        append_le (codes "&peer_id=") behind 9 167 (omega arith) (
          append_le (escape_all id) (numbers event c port uploaded) 60 107 in_id
            (length-numbers event c port uploaded v))))

-- Where the numbers are `int`s, the cursor of `make_tracker_request` goes at most 260 bytes, so that the
-- text with the zero behind it fits into the 4096 that are allocated, and `*mlen`, the distance that it
-- went, is the length of the text.
pub make_tracker_request_fits :
    (event : ℤ) (c : Client) (port uploaded : ℤ)
    → AreInts c port uploaded
    → let r = make_tracker_request event c port uploaded in
      (r.mlen ≤ 260) × (r.mlen ≡ length r.text)
make_tracker_request_fits event c port uploaded v =
    rw (make_tracker_request-written event c port uploaded)
      (length-text event c port uploaded v, refl)
