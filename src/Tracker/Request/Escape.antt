-- ===== src/Tracker/Request/Escape.antt =====
-- What the tracker decodes from the request.
use simpletorrent_nju.Base.{
  ◌≡◌, refl, ap, ℕ, zero, suc, ◌+◌, ◌-◌, ◌*◌, ◌/◌, ◌%◌, ◌<◌, ltb, ◌==◌, if◌then◌else◌, Bool,
  Bool-cases, inl, inr, true, false, ◌||◌, ◌&&◌, List, [], ◌∷◌, ◌++◌, Bytes, ℤ, arith, take, All,
}
use simpletorrent_nju.Words.{int_bytes}
use simpletorrent_nju.Client.{Client}
use simpletorrent_nju.Wire.Handshake.{codes, net_hash}
use simpletorrent_nju.Tracker.Request.{hex_digit, is_kept, make_tracker_request}
use simpletorrent_nju.Tracker.Request.Written.{
  hex, escape, escape_all, numbers, make_tracker_request-written,
}

-- The state of a percent decoder: between bytes, behind `%`, behind one digit.
pub data Phase : Type 0 where
  plain first_digit : Phase
  second_digit : ℕ → Phase

hex_value : ℕ → ℕ
hex_value c = if ltb c 58 then c - 48 else c - 55

unfoldable pub decode_from : Phase → Bytes → Bytes
unfolding hex_value
decode_from p [] = []
decode_from plain (c ∷ s) = elim (c == 37) [
  | true ↦ decode_from first_digit s
  | false ↦ c ∷ decode_from plain s
]
decode_from first_digit (c ∷ s) = decode_from (second_digit (hex_value c)) s
decode_from (second_digit d) (c ∷ s) = (d * 16 + hex_value c) ∷ decode_from plain s

-- Percent decoding (RFC 3986).
abbrev pub unescape : Bytes → Bytes
unescape s = decode_from plain s

-- Digits, letters and `%`: what ends no parameter.
unfoldable pub is_word : ℕ → Bool
is_word c = (ltb 47 c && ltb c 58) || (ltb 64 c && ltb c 91) || (ltb 96 c && ltb c 123) || c == 37

abbrev pub IsWord : ℕ → Type 0
IsWord c = is_word c ≡ true

abbrev pub IsByte : ℕ → Type 0
IsByte b = b < 256

hex_value-hex_digit : (d : ℕ) → d < 16 → hex_value (hex_digit d) ≡ d
unfolding hex_value
hex_value-hex_digit d h = ground arith

decode_from-hex :
    (p : ℕ) (s : Bytes) → p < 256 → decode_from plain (hex p s) ≡ p ∷ decode_from plain s
unfolding decode_from hex
decode_from-hex p s h =
    let high = hex_value-hex_digit (p / 16) (omega arith) in
    let low = hex_value-hex_digit (p % 16) (omega arith) in
    let e : hex_value (hex_digit (p / 16)) * 16 + hex_value (hex_digit (p % 16)) ≡ p =
      omega (arith, high, low) in
    ap (λ q. q ∷ decode_from plain s) e

decode_from_kept :
    (p : ℕ) (s : Bytes) → is_kept p ≡ true → decode_from plain (p ∷ s) ≡ p ∷ decode_from plain s
unfolding decode_from is_kept
decode_from_kept p s h = ground arith

unescape-escape : (bs : Bytes) → All IsByte bs → unescape (escape bs) ≡ bs
unfolding escape decode_from
unescape-escape [] h = refl
unescape-escape (p ∷ ps) (byte, bytes) = elim (Bool-cases (is_kept p)) [
  | inl e ↦ rw e (rw (decode_from_kept p (escape ps) e) (ap (◌∷◌ p) (unescape-escape ps bytes)))
  | inr e ↦ rw e (rw (decode_from-hex p (escape ps) byte) (ap (◌∷◌ p) (unescape-escape ps bytes)))
]

unescape-escape_all : (bs : Bytes) → All IsByte bs → unescape (escape_all bs) ≡ bs
unfolding escape_all decode_from
unescape-escape_all [] h = refl
unescape-escape_all (p ∷ ps) (byte, bytes) =
    rw (decode_from-hex p (escape_all ps) byte) (ap (◌∷◌ p) (unescape-escape_all ps bytes))

hex_digit-IsWord : (d : ℕ) → d < 16 → IsWord (hex_digit d)
unfolding is_word
hex_digit-IsWord d h = ground arith

hex-IsWord : (p : ℕ) (s : Bytes) → p < 256 → All IsWord s → All IsWord (hex p s)
unfolding hex is_word
hex-IsWord p s h hs =
    (refl, (hex_digit-IsWord (p / 16) (omega arith), (hex_digit-IsWord (p % 16) (omega arith), hs)))

kept-IsWord : (p : ℕ) → is_kept p ≡ true → IsWord p
unfolding is_kept is_word
kept-IsWord p h = ground arith

escape-IsWord : (bs : Bytes) → All IsByte bs → All IsWord (escape bs)
unfolding escape decode_from
escape-IsWord [] h = tt
escape-IsWord (p ∷ ps) (byte, bytes) = elim (Bool-cases (is_kept p)) [
  | inl e ↦ rw e (kept-IsWord p e, escape-IsWord ps bytes)
  | inr e ↦ rw e (hex-IsWord p (escape ps) byte (escape-IsWord ps bytes))
]

escape_all-IsWord : (bs : Bytes) → All IsByte bs → All IsWord (escape_all bs)
unfolding escape_all decode_from
escape_all-IsWord [] h = tt
escape_all-IsWord (p ∷ ps) (byte, bytes) =
    hex-IsWord p (escape_all ps) byte (escape_all-IsWord ps bytes)

net_hash-IsByte : (hs : List ℤ) → All IsByte (net_hash hs)
unfolding net_hash int_bytes
net_hash-IsByte [] = tt
net_hash-IsByte (h ∷ hs) =
    (omega arith, (omega arith, (omega arith, (omega arith, net_hash-IsByte hs))))

take-IsByte : (n : ℕ) (bs : Bytes) → All IsByte bs → All IsByte (take n bs)
take-IsByte zero bs h = tt
take-IsByte (suc n) [] h = tt
take-IsByte (suc n) (b ∷ bs) (byte, bytes) = (byte, take-IsByte n bs bytes)

-- Where the peer id consists of bytes, the request is the line of an HTTP GET whose parameters
-- info_hash and peer_id are words, of letters, digits and `%` alone, that decode to the 20 bytes of
-- the torrent's hash in network order and to the first 20 of the peer id.
pub make_tracker_request-unescape :
    (event : ℤ) (c : Client) (port uploaded : ℤ)
    → All IsByte c.my_id
    → (h : Bytes) × (p : Bytes) × ((make_tracker_request event c port uploaded).text
        ≡ codes "GET /announce?info_hash="
          ++ (h ++ (codes "&peer_id=" ++ (p ++ numbers event c port uploaded))))
      × (All IsWord h × (unescape h ≡ net_hash (take 5 c.torrent.info_hash)))
      × (All IsWord p × (unescape p ≡ take 20 c.my_id))
make_tracker_request-unescape event c port uploaded bytes =
    let hash = net_hash-IsByte (take 5 c.torrent.info_hash) in
    let id = take-IsByte 20 c.my_id bytes in
    (
      escape (net_hash (take 5 c.torrent.info_hash)),
      escape_all (take 20 c.my_id),
      ap (λ r. r.text) (make_tracker_request-written event c port uploaded),
      (escape-IsWord _ hash, unescape-escape _ hash),
      (escape_all-IsWord _ id, unescape-escape_all _ id),
    )
