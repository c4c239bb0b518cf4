-- ===== src/Tracker/Http/Header.antt =====
-- How the header is read off a connection on which no recv fails, however the network cuts it up.
use Prim.Native.Nat.{min}
use simpletorrent_nju.Base.{
  ◌≡◌, ℕ, suc, ◌-◌, ◌==◌, leb, true, false, List, [], ◌∷◌, Bytes, pos, length, take, drop,
}
use simpletorrent_nju.Socket.{RecvEvent}
use simpletorrent_nju.Socket.Stream.{stream, IsReliable, recv_all-stream}
use simpletorrent_nju.Pool.{strncmp_eq}
use simpletorrent_nju.Wire.Handshake.{codes}
use simpletorrent_nju.Tracker.Run.{ok, ◌>>=◌}
use simpletorrent_nju.Tracker.Http.{
  readn, read_header, header_round, at_return, plain_byte, four_read, line_end,
}
use simpletorrent_nju.Tracker.Http.Reading.{readn-recv_all}

-- A call of `readn` for `len` bytes of a text that begins with so many.
pub record Got (inbox : List RecvEvent) (len : ℕ) (front rest : Bytes) : Type 0 where
  pub bytes : (readn inbox (pos len)).bytes ≡ front
  pub count : (k : ℕ) × ((readn inbox (pos len)).result ≡ pos k)
  pub left : stream (readn inbox (pos len)).rest ≡ rest
  pub still : IsReliable (readn inbox (pos len)).rest

pub readn-Got :
    (inbox : List RecvEvent) (len : ℕ) (text : Bytes)
    → IsReliable inbox
    → stream inbox ≡ text
    → Got inbox len (take len text) (drop len text)
readn-Got inbox len text h e =
    let (got, count, left, still) = recv_all-stream inbox len h in
    rw (← e) (record {
      bytes = rw (readn-recv_all inbox len) got;
      count = (min len (length (stream inbox)), rw (readn-recv_all inbox len) count);
      left = rw (readn-recv_all inbox len) left;
      still = rw (readn-recv_all inbox len) still;
    })

-- From a connection that carries `text` the header `head` is read, and `s` is left.
abbrev pub ReadsHeader : ℕ → ℕ → Bytes → Bytes → Bytes → Type 0
ReadsHeader f room text head s =
    (inbox : List RecvEvent)
    → IsReliable inbox
    → stream inbox ≡ text
    → (rest : List RecvEvent) × (read_header f room inbox ≡ ok (head, rest))
      × IsReliable rest
      × (stream rest ≡ s)

pub reads_byte :
    (f room c : ℕ) (t head s : Bytes)
    → (c == 13) ≡ false
    → leb 1 room ≡ true
    → ReadsHeader f (room - 1) t head s
    → ReadsHeader (suc f) room (c ∷ t) (c ∷ head) s
unfolding read_header header_round at_return plain_byte four_read line_end
reads_byte f room c t head s plain fits more inbox h e =
    let got = readn-Got inbox 1 (c ∷ t) h e in
    let (rest, read, still, left) = more (readn inbox (pos 1)).rest got.still got.left in
    (rest, (rw got.bytes (rw plain (rw fits (rw (read, ◌>>=◌))))), still, left)

pub reads_break :
    (f room a b d : ℕ) (t head s : Bytes)
    → strncmp_eq 4 (13 ∷ a ∷ b ∷ d ∷ []) (codes "\r\n\r\n") ≡ false
    → leb 4 room ≡ true
    → ReadsHeader f (room - 4) t head s
    → ReadsHeader (suc f) room (13 ∷ a ∷ b ∷ d ∷ t) (13 ∷ a ∷ b ∷ d ∷ head) s
unfolding read_header header_round at_return plain_byte four_read line_end
reads_break f room a b d t head s other fits more inbox h e =
    let got = readn-Got inbox 1 (13 ∷ a ∷ b ∷ d ∷ t) h e in
    let behind = (readn inbox (pos 1)).rest in
    let three = readn-Got behind 3 (a ∷ b ∷ d ∷ t) got.still got.left in
    let (rest, read, still, left) = more (readn behind (pos 3)).rest three.still three.left in
    (rest, (rw got.bytes (rw fits (rw three.bytes (rw other (rw (read, ◌>>=◌)))))), still, left)

pub reads_end :
    (f room : ℕ) (t : Bytes)
    → leb 4 room ≡ true
    → ReadsHeader (suc f) room (13 ∷ 10 ∷ 13 ∷ 10 ∷ t) (13 ∷ 10 ∷ 13 ∷ 10 ∷ []) t
unfolding read_header header_round at_return four_read line_end strncmp_eq
reads_end f room t fits inbox h e =
    let got = readn-Got inbox 1 (13 ∷ 10 ∷ 13 ∷ 10 ∷ t) h e in
    let behind = (readn inbox (pos 1)).rest in
    let three = readn-Got behind 3 (10 ∷ 13 ∷ 10 ∷ t) got.still got.left in
    (
      (readn behind (pos 3)).rest,
      (rw got.bytes (rw fits (rw three.bytes))),
      three.still,
      three.left,
    )
