-- ===== src/Tracker/Request/Written.antt =====
-- The text that the request is.
use mathlib.Core.List.{append_assoc, append-nil}
use simpletorrent_nju.Base.{
  ◌≡◌, refl, sym, ap, ◌∙◌, ℕ, ◌/◌, ◌%◌, if◌then◌else◌, Bool-cases, inl, inr, [], ◌∷◌, ◌++◌, Bytes,
  ℤ, pos, length, take, length-append,
}
use simpletorrent_nju.Client.{Client}
use simpletorrent_nju.Decimal.{decimal_int}
use simpletorrent_nju.Wire.Handshake.{codes, net_hash}
use simpletorrent_nju.Tracker.Request.{
  hex_digit, is_kept, event_text, Cursor, put, percent, put_hash, put_id, put_numbers,
  make_tracker_request,
}

-- A percent sign and the two digits of a byte, before `rest`.
unfoldable pub hex : ℕ → Bytes → Bytes
hex p rest = 37 ∷ hex_digit (p / 16) ∷ hex_digit (p % 16) ∷ rest

-- What stands for the bytes of the hash.
unfoldable pub escape : Bytes → Bytes
escape [] = []
escape (p ∷ ps) = if is_kept p then p ∷ escape ps else hex p (escape ps)

-- What stands for those of the peer id.
unfoldable pub escape_all : Bytes → Bytes
escape_all [] = []
escape_all (p ∷ ps) = hex p (escape_all ps)

-- What the parameters behind the peer id are.
unfoldable pub numbers : ℤ → Client → ℤ → ℤ → Bytes
numbers event c port uploaded =
    codes "&port="
    ++ (decimal_int port
        ++ (codes "&uploaded="
            ++ (decimal_int uploaded
                ++ (codes "&downloaded="
                    ++ (decimal_int c.downloaded
                        ++ (codes "&left="
                            ++ (decimal_int (pos c.torrent.size)
                                ++ (event_text event ++ codes " HTTP/1.0\r\n\r\n"))))))))

-- The whole text.
abbrev pub request_text : ℤ → Client → ℤ → ℤ → Bytes
request_text event c port uploaded =
    codes "GET /announce?info_hash="
    ++ (escape (net_hash (take 5 c.torrent.info_hash))
        ++ (codes "&peer_id=" ++ (escape_all (take 20 c.my_id) ++ numbers event c port uploaded)))

-- The cursor behind a text.
abbrev written : Bytes → Cursor
written s = record { mesg = s; cur = length s }

take-length : (s : Bytes) → take (length s) s ≡ s
take-length [] = refl
take-length (b ∷ s) = ap (◌∷◌ b) (take-length s)

put-written : (t s : Bytes) → put t (written s) ≡ written (s ++ t)
unfolding put
put-written t s = rw (take-length s, length-append s t) refl

percent-written : (p : ℕ) (s : Bytes) → percent p (written s) ≡ written (s ++ hex p [])
unfolding hex
percent-written p s =
    let two = hex_digit (p / 16) ∷ hex_digit (p % 16) ∷ [] in
    ap (put two) (put-written (37 ∷ []) s)
    ∙ (put-written two (s ++ 37 ∷ []) ∙ ap written (append_assoc s (37 ∷ []) two))

put_hash-written : (ps s : Bytes) → put_hash ps (written s) ≡ written (s ++ escape ps)
unfolding put_hash escape hex
put_hash-written [] s = ap written (sym (append-nil s))
put_hash-written (p ∷ ps) s = elim (Bool-cases (is_kept p)) [
  | inl e ↦ rw e (
      ap (put_hash ps) (put-written (p ∷ []) s)
      ∙ (put_hash-written ps (s ++ p ∷ []) ∙ ap written (append_assoc s (p ∷ []) (escape ps))))
  | inr e ↦ rw e (
      ap (put_hash ps) (percent-written p s)
      ∙ (put_hash-written ps (s ++ hex p []) ∙ ap written (append_assoc s (hex p []) (escape ps))))
]

put_id-written : (ps s : Bytes) → put_id ps (written s) ≡ written (s ++ escape_all ps)
unfolding put_id escape_all hex
put_id-written [] s = ap written (sym (append-nil s))
put_id-written (p ∷ ps) s =
    ap (put_id ps) (percent-written p s)
    ∙ (put_id-written ps (s ++ hex p []) ∙ ap written (append_assoc s (hex p []) (escape_all ps)))

put_numbers-written :
    (event : ℤ) (c : Client) (port uploaded : ℤ) (s : Bytes)
    → put_numbers event c port uploaded (written s) ≡ written (s ++ numbers event c port uploaded)
unfolding put_numbers numbers
put_numbers-written event c port uploaded s = simp (put-written, append_assoc)

cursor_lem :
    (event : ℤ) (c : Client) (port uploaded : ℤ)
    → put_numbers event c port uploaded (
        put_id (take 20 c.my_id) (
          put (codes "&peer_id=") (
            put_hash
              (net_hash (take 5 c.torrent.info_hash))
              (put (codes "info_hash=") (put (codes "GET /announce?") (written []))))))
      ≡ written (request_text event c port uploaded)
unfolding put
cursor_lem event c port uploaded =
    let w = codes "GET /announce?info_hash=" in
    let hash = net_hash (take 5 c.torrent.info_hash) in
    let id = take 20 c.my_id in
    let peer = codes "&peer_id=" in
    let numbered = put_numbers event c port uploaded in
    ap (λ m. numbered (put_id id (put peer m))) (put_hash-written hash w)
    ∙ (ap (λ m. numbered (put_id id m)) (put-written peer (w ++ escape hash))
        ∙ (ap numbered (put_id-written id ((w ++ escape hash) ++ peer))
            ∙ (put_numbers-written event c port uploaded
                  (((w ++ escape hash) ++ peer) ++ escape_all id)
                ∙ ap written (
                    append_assoc ((w ++ escape hash) ++ peer) (escape_all id)
                      (numbers event c port uploaded)
                    ∙ (append_assoc (w ++ escape hash) peer
                          (escape_all id ++ numbers event c port uploaded)
                        ∙ append_assoc w (escape hash)
                            (peer ++ (escape_all id ++ numbers event c port uploaded)))))))

pub make_tracker_request-written :
    (event : ℤ) (c : Client) (port uploaded : ℤ)
    → make_tracker_request event c port uploaded ≡ record {
      text = request_text event c port uploaded;
      mlen = length (request_text event c port uploaded);
    }
unfolding make_tracker_request
make_tracker_request-written event c port uploaded =
    ap (λ (m : Cursor). record { text = m.mesg; mlen = m.cur }) (cursor_lem event c port uploaded)
