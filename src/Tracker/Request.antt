-- ===== src/Tracker/Request.antt =====
-- make_tracker_request.c: the text of the HTTP request.
pub mod Escape
pub mod Bounds
pub mod Written
use simpletorrent_nju.Base.{
  ℕ, suc, ◌+◌, ◌*◌, ◌/◌, ◌%◌, ltb, ◌==◌, if◌then◌else◌, Bool, true, false, ◌&&◌, ◌||◌, List, [],
  ◌∷◌, ◌++◌, Bytes, ℤ, pos, eqb_ℤ, length, take,
}
use simpletorrent_nju.Client.{Client}
use simpletorrent_nju.Decimal.{decimal_int}
use simpletorrent_nju.Wire.Handshake.{codes, net_hash}

abbrev pub hex_digit : ℕ → ℕ
hex_digit d = if ltb d 10 then 48 + d else 55 + d

-- The bytes of the hash that stand for themselves: digits and letters, but for `A`.
unfoldable pub is_kept : ℕ → Bool
is_kept p = (ltb 47 p && ltb p 58) || (ltb 65 p && ltb p 91) || (ltb 96 p && ltb p 123)

-- BT_STARTED, BT_STOPPED and BT_COMPLETED; another event is left out.
unfoldable pub event_text : ℤ → Bytes
event_text event =
    if eqb_ℤ event (pos 0)
    then codes "&event=started"
    else if eqb_ℤ event (pos 1)
    then codes "&event=stopped"
    else if eqb_ℤ event (pos 2)
    then codes "&event=completed"
    else []

-- The request and what `*mlen` becomes.
pub record HttpRequest : Type 0 where
  pub text : Bytes
  pub mlen : ℕ

-- `MESG` up to the last byte written, and `cur - MESG`.
pub record Cursor : Type 0 where
  pub mesg : Bytes
  pub cur : ℕ

-- `strcpy(cur, s); cur += strlen(s)`, and the same by sprintf or `*cur++`.
unfoldable pub put : Bytes → Cursor → Cursor
put s m = record { mesg = take m.cur m.mesg ++ s; cur = m.cur + length s }

abbrev pub percent : ℕ → Cursor → Cursor
percent p m = put (hex_digit (p / 16) ∷ hex_digit (p % 16) ∷ []) (put (37 ∷ []) m)

-- The loops over the bytes of the hash, and over those of the peer id.
unfoldable pub put_hash : Bytes → Cursor → Cursor
put_hash [] m = m
put_hash (p ∷ ps) m = put_hash ps (if is_kept p then put (p ∷ []) m else percent p m)

unfoldable pub put_id : Bytes → Cursor → Cursor
put_id [] m = m
put_id (p ∷ ps) m = put_id ps (percent p m)

-- The parameters behind the peer id.
unfoldable pub put_numbers : ℤ → Client → ℤ → ℤ → Cursor → Cursor
put_numbers event c port uploaded m =
    let with_port = put (decimal_int port) (put (codes "&port=") m) in
    let with_up = put (decimal_int uploaded) (put (codes "&uploaded=") with_port) in
    let with_down = put (decimal_int c.downloaded) (put (codes "&downloaded=") with_up) in
    let with_left = put (decimal_int (pos c.torrent.size)) (put (codes "&left=") with_down) in
    put (codes " HTTP/1.0\r\n\r\n") (put (event_text event) with_left)

-- `port` and `uploaded` are g_peer_port and g_uploaded.
unfoldable pub make_tracker_request : ℤ → Client → ℤ → ℤ → HttpRequest
unfolding put_hash put_id
make_tracker_request event c port uploaded =
    let start =
      put (codes "info_hash=") (put (codes "GET /announce?") (record { mesg = []; cur = 0 })) in
    let with_hash = put_hash (net_hash (take 5 c.torrent.info_hash)) start in
    let with_id = put_id (take 20 c.my_id) (put (codes "&peer_id=") with_hash) in
    let m = put_numbers event c port uploaded with_id in record { text = m.mesg; mlen = m.cur }
