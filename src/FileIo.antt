-- ===== src/FileIo.antt =====
-- fileio.c: the shared file and the bitfield of its pieces that have the right hash. The file behind
-- a `FILE *` is the list of its bytes.
pub mod Blocks
pub mod Create
pub mod Pieces
pub mod Verify
pub mod Whole
use simpletorrent_nju.Base.{
  ℕ, zero, suc, ◌+◌, ◌-◌, ◌*◌, ◌/◌, ◌%◌, ◌==◌, leb, ltb, if◌then◌else◌, Bool, true, false, ◌&&◌,
  List, [], ◌∷◌, ◌++◌, Option, none, some, Bytes, length, take, drop, replicate, tabulate_from, ℤ,
  pos, negsuc, ◌+ℤ◌, ◌-ℤ◌, ◌*ℤ◌, i32, leb_ℤ, ltb_ℤ, size_t, pos_part,
}
use simpletorrent_nju.Words.{big_endian}
use simpletorrent_nju.Bitfield.{set_bit_at_index}
use simpletorrent_nju.Client.{Torrent, Client, Extern, M, get, modify, access, pure, ◌>>=◌, ◌>>◌}

-- fread of `size` bytes at `offset`: the number of bytes read and the buffer then. `none` where the
-- file has more bytes to give than the buffer holds.
unfoldable pub fread : Bytes → ℕ → ℕ → Bytes → Option (ℤ × Bytes)
fread file offset size buf =
    let found = take size (drop offset file) in
    if leb (length found) (length buf)
    then some (pos (length found), found ++ drop (length found) buf)
    else none

overlay : Bytes → Bytes → Bytes
overlay [] file = file
overlay (d ∷ ds) [] = d ∷ ds
overlay (d ∷ ds) (b ∷ file) = d ∷ overlay ds file

-- The file with `new` at `offset`; a gap behind its end is filled with zeros.
unfoldable pub write_at : ℕ → Bytes → Bytes → Bytes
unfolding overlay
write_at zero new file = overlay new file
write_at (suc n) new [] = 0 ∷ write_at n new []
write_at (suc n) new (b ∷ file) = b ∷ write_at n new file

-- fwrite of the first `size` bytes of a buffer. `none` where the buffer has fewer.
unfoldable pub fwrite : Bytes → ℕ → ℕ → Bytes → Option (ℤ × Bytes)
fwrite file offset zero buf = some (pos 0, file)
fwrite file offset (suc n) buf =
    if leb (suc n) (length buf)
    then some (pos (suc n), write_at offset (take (suc n) buf) file)
    else none

-- The tests of `list_get_piece` and `list_set_piece` on the position, and the number of bytes that
-- they move: `len`, or what is left of the file.
unfoldable pub in_file : Torrent → ℤ → Bool
in_file t begin =
    leb_ℤ (pos t.begin_index) begin && ltb_ℤ begin (i32 (pos (t.begin_index + t.size)))

unfoldable pub move_len : Torrent → ℤ → ℤ → ℤ
move_len t len begin =
    if leb_ℤ (pos 0) (i32 (pos (t.begin_index + t.size) -ℤ begin -ℤ len))
    then len
    else i32 (pos t.size -ℤ (begin -ℤ pos t.begin_index))

-- The offset is not negative, by the first test.
unfoldable pub list_get_piece : Torrent → Bytes → Bytes → ℤ → ℤ → Option (ℤ × Bytes)
list_get_piece t file buf len begin =
    if in_file t begin
    then fread file (pos_part (begin -ℤ pos t.begin_index)) (size_t (move_len t len begin)) buf
    else some (negsuc 0, buf)

unfoldable pub list_set_piece : Torrent → Bytes → Bytes → ℤ → ℤ → Option (ℤ × Bytes)
list_set_piece t file buf len begin =
    if in_file t begin
    then fwrite file (pos_part (begin -ℤ pos t.begin_index)) (size_t (move_len t len begin)) buf
    else some (negsuc 0, file)

-- `index * piece_len + begin`, on `int`s.
unfoldable pub position : Torrent → ℤ → ℤ → ℤ
position t index begin = i32 (i32 (index *ℤ pos t.piece_len) +ℤ begin)

unfoldable pub get_block : ℤ → ℤ → ℤ → Bytes → M (ℤ × Bytes)
get_block index begin len block = do
  c ← get
  access (list_get_piece c.torrent c.file block len (position c.torrent index begin))

unfoldable pub set_block : ℤ → ℤ → ℤ → Bytes → M ℤ
set_block index begin len block = do
  c ← get
  r ← access (list_set_piece c.torrent c.file block len (position c.torrent index begin))
  modify λ c. record c { file = r.1 }
  pure r.0

-- The twenty bytes of `Message_Digest` behind htonl.
unfoldable pub digest_bytes : List ℕ → Bytes
digest_bytes [] = []
digest_bytes (word ∷ words) = big_endian word ++ digest_bytes words

unfoldable pub bytes_eq : Bytes → Bytes → Bool
bytes_eq [] [] = true
bytes_eq (x ∷ xs) (y ∷ ys) = x == y && bytes_eq xs ys
bytes_eq _ _ = false

-- `memcmp(Message_Digest, ptr->hash, 20) == 0`; `none` where the hashes end before.
unfoldable pub same_hash : Bytes → Bytes → Option Bool
unfolding bytes_eq
same_hash digest hashes =
    if leb 20 (length hashes) then some (bytes_eq (take 20 digest) (take 20 hashes)) else none

-- The loop variables of `gen_bitfield`.
pub record Generated : Type 0 where
  pub bits : Bytes
  pub hashbuf : Bytes
  pub total : ℤ

-- The bytes that SHA1Input is given; `none` where it would read behind the buffer.
unfoldable pub hashed_part : ℤ → Bytes → Option Bytes
hashed_part (pos n) buf = if leb n (length buf) then some (take n buf) else none
hashed_part (negsuc n) buf = none

infixl 5 ◌>>?◌
abbrev ◌>>?◌ : {A B : Type 0} → Option A → (A → Option B) → Option B
none >>? f = none
some a >>? f = f a

unfoldable pub block_size : Torrent → ℕ → ℕ → ℕ → ℤ
block_size t piece_len piece_num i =
    if (i + 1) == piece_num
    then i32 (pos (t.begin_index + t.size) -ℤ pos ((piece_num - 1) * piece_len))
    else pos piece_len

module _ (x : Extern) where
  -- One round for piece `i`, whose hash stands at the start of `hashes`.
  unfoldable pub gen_round : Torrent → Bytes → Bytes → ℕ → ℕ → ℕ → Generated → Option Generated
  gen_round t file hashes piece_len piece_num i g =
      let blocksize = block_size t piece_len piece_num i in
      list_get_piece t file g.hashbuf blocksize (i32 (pos (piece_len * i))) >>? λ r.
      hashed_part blocksize r.1 >>? λ part.
      same_hash (digest_bytes (x.sha1 part)) hashes >>? λ same.
      set_bit_at_index g.bits i same >>? λ bits. some (record {
        bits = bits;
        hashbuf = r.1;
        total = if same then i32 (g.total +ℤ pos t.piece_len) else g.total;
      })

  -- The for loop: `n` rounds from piece `i` on.
  unfoldable pub gen_loop : ℕ → Torrent → Bytes → Bytes → ℕ → ℕ → ℕ → Generated → Option Generated
  gen_loop zero t file hashes piece_len piece_num i g = some g
  gen_loop (suc n) t file hashes piece_len piece_num i g =
      gen_round t file hashes piece_len piece_num i g >>? λ g'.
      gen_loop n t file (drop 20 hashes) piece_len piece_num (i + 1) g'

  unfoldable pub gen_bitfield : Bytes → ℕ → ℕ → M Bytes
  gen_bitfield piece_hash piece_len piece_num = do
    c ← get
    g ← access (
        gen_loop piece_num c.torrent c.file piece_hash piece_len piece_num 0 (record {
          bits = replicate (piece_num / 8 + 1) 0;
          hashbuf = tabulate_from 0 piece_len x.junk;
          total = c.downloaded;
        }))
    modify λ c. record c { downloaded = g.total }
    pure g.bits
