-- ===== src/Wire/Send/Block.antt =====
-- `send_piece`: the block that it sends is that of the file.
use mathlib.Core.List.{append-nil}
use simpletorrent_nju.Base.{
  ℕ, ◌+◌, ◌-◌, ◌*◌, ◌^◌, ◌<◌, ltb-false, ◌≡◌, ap, ◌∙◌, ◌++◌, some, Option, Bytes, ℤ, pos, ◌+ℤ◌, i32,
  i32-pos, take, drop, replicate, length-replicate, arith,
}
use simpletorrent_nju.Client.{Client, ok, send, access, pure, bind_ok, ◌>>=◌}
use simpletorrent_nju.FileIo.{get_block, list_get_piece}
use simpletorrent_nju.FileIo.Blocks.{IsInside, list_get_piece_full, position_lem, drop_all}
use simpletorrent_nju.Wire.Send.{sent_ok, piece_message, send_block, piece_buffer, send_piece}

-- The bytes of a block of the file.
abbrev pub block_bytes : Client → ℕ → ℕ → Bytes
block_bytes c at len = take len (drop (at - c.torrent.begin_index) c.file)

get_block_lem :
    (c : Client) (index begin len : ℕ)
    → IsInside c.torrent c.file (index * c.torrent.piece_len + begin) len
    → get_block (pos index) (pos begin) (pos len) (replicate len 0) c
      ≡ ok (pos len, block_bytes c (index * c.torrent.piece_len + begin) len) c
unfolding get_block
get_block_lem c index begin len v =
    let at = index * c.torrent.piece_len + begin in
    ap (λ (z : ℤ). access (list_get_piece c.torrent c.file (replicate len 0) (pos len) z) c)
      (position_lem c.torrent index begin (omega (arith, v.ends, v.fits_int, v.some_bytes)))
    ∙ ap (λ (o : Option (ℤ × Bytes)). access o c)
        (list_get_piece_full c.torrent c.file at len v (replicate len 0)
            (omega (arith, length-replicate {A = ℕ} len 0))
          ∙ ap (λ (bs : Bytes). some (pos len, block_bytes c at len ++ bs))
              (drop_all len (replicate len 0) (length-replicate len 0))
          ∙ ap (λ (bs : Bytes). some (pos len, bs)) (append-nil (block_bytes c at len)))

buffer_len : (len : ℕ) → len + 13 < 2 ^ 31 → i32 (pos len +ℤ pos 13) ≡ pos (len + 13)
unfolding ◌+ℤ◌
buffer_len len h = ap i32 (ground arith) ∙ i32-pos (len + 13) h

-- A request for a block that is not empty and lies inside the file, which is on the disk at its full
-- size, and whose message is no longer than an `int` can tell: `send_piece` does nothing else than
-- to give `Send` the piece message with the bytes that stand there in the file.
pub send_piece_block :
    (c : Client) (connfd index begin len : ℕ)
    → IsInside c.torrent c.file (index * c.torrent.piece_len + begin) len
    → len + 13 < 2 ^ 31
    → send_piece connfd (pos index) (pos begin) (pos len) c
      ≡ (send connfd (
              piece_message (pos index) (pos begin) (pos len) (
                take len
                  (drop (index * c.torrent.piece_len + begin - c.torrent.begin_index) c.file)))
            >>= λ s. pure (sent_ok s))
          c
unfolding send_piece piece_buffer send_block
send_piece_block c connfd index begin len v h =
    let e : len + 13 - 13 ≡ len = omega arith in
    let given = λ (n : ℕ).
      (get_block (pos index) (pos begin) (pos len) (replicate n 0)
          >>= send_block connfd (pos index) (pos begin) (pos len))
        c in
    rw (buffer_len len h, ltb-false (len + 13) 13 (omega arith))
      (ap given e
        ∙ bind_ok (get_block (pos index) (pos begin) (pos len) (replicate len 0))
            (send_block connfd (pos index) (pos begin) (pos len)) c
            (get_block_lem c index begin len v))
