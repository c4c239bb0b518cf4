-- ===== src/FileIo/Verify.antt =====
-- `gen_bitfield`: a bit is set exactly for the pieces whose bytes in the file have the hash that the
-- torrent gives.
use simpletorrent_nju.Base.{
  ℕ, zero, suc, ◌+◌, ◌*◌, ◌/◌, ◌<◌, ◌≤◌, ◌≡◌, ==_refl, ==_false, ℕ_discrete, refl, ap, subst, sym,
  ◌∙◌, ◌⊎◌, inl, inr, ◌==◌, if◌then◌else◌, false, ◌++◌, some, Bytes, length, take, drop, replicate,
  tabulate_from, length-drop, length-append, length-replicate, length-tabulate_from, take-append, ℤ,
  pos, ◌+ℤ◌, i32, arith,
}
use simpletorrent_nju.Bitfield.{get_bit_at_index}
use simpletorrent_nju.Bitfield.Laws.{
  AreBytes, AreBytes-zeros, bit_of, bit_of-zeros, set_bit-some, get_bit-bit_of,
}
use simpletorrent_nju.Client.{Client, Extern, Torrent, ok}
use simpletorrent_nju.FileIo.{
  digest_bytes, bytes_eq, same_hash, Generated, hashed_part, gen_round, gen_loop, gen_bitfield,
}
use simpletorrent_nju.FileIo.Blocks.{leb-true}
use simpletorrent_nju.FileIo.Pieces.{
  IsWhole, piece_size, piece_bytes, verified, drop-hashes, block_size_lem, round_reads,
  length-piece_bytes,
}

module _ (x : Extern) (t : Torrent) (file : Bytes) (v : IsWhole t file) where
  hashed_lem :
      (i : ℕ) (rest : Bytes)
      → i < t.num_pieces
      → hashed_part (pos (piece_size t i)) (piece_bytes t file i ++ rest)
        ≡ some (piece_bytes t file i)
  unfolding hashed_part
  hashed_lem i rest h =
      let e = length-piece_bytes x t file v i h in
      rw
        (leb-true (piece_size t i) (length (piece_bytes t file i ++ rest))
          (omega (arith, e, length-append (piece_bytes t file i) rest)))
        (ap some (
          ap (λ (n : ℕ). take n (piece_bytes t file i ++ rest)) (sym e)
          ∙ take-append (piece_bytes t file i) rest))

  same_lem :
      (i : ℕ) (digest : Bytes)
      → i < t.num_pieces
      → same_hash digest (drop (20 * i) t.pieces)
        ≡ some (bytes_eq (take 20 digest) (take 20 (drop (20 * i) t.pieces)))
  unfolding same_hash
  same_lem i digest h =
      rw
        (leb-true 20 (length (drop (20 * i) t.pieces))
          (omega (arith, length-drop (20 * i) t.pieces, v.hashes)))
        refl

  -- What the rounds before a piece have left.
  record IsReady (g : Generated) : Type 0 where
    buffer : length g.hashbuf ≡ t.piece_len
    size : length g.bits ≡ t.num_pieces / 8 + 1
    bytes : AreBytes g.bits

  -- The round for piece `i` sets its bit to whether it is verified, and no other.
  gen_round_lem :
      (i : ℕ) (g : Generated)
      → i < t.num_pieces
      → IsReady g
      → (g' : Generated) × (gen_round x t file (drop (20 * i) t.pieces) t.piece_len t.num_pieces i g
          ≡ some g')
        × IsReady g'
        × ((j : ℕ) → bit_of g'.bits j ≡ (if i == j then verified x t file i else bit_of g.bits j))
  unfolding gen_round
  gen_round_lem i g h r =
      let same = verified x t file i in
      let (bits, e, len, ok', set) = set_bit-some g.bits i same (omega (arith, r.size)) r.bytes in
      let buf = piece_bytes t file i ++ drop (piece_size t i) g.hashbuf in
      (
        record {
          bits = bits;
          hashbuf = buf;
          total = if same then i32 (g.total +ℤ pos t.piece_len) else g.total;
        },
        rw
            (
              block_size_lem x t file v i h,
              round_reads x t file v i g.hashbuf h r.buffer,
              hashed_lem i (drop (piece_size t i) g.hashbuf) h,
              same_lem i (digest_bytes (x.sha1 (piece_bytes t file i))) h,
              e,
            )
            refl,
        record {
          buffer = omega (
            arith,
            length-append (piece_bytes t file i) (drop (piece_size t i) g.hashbuf),
            length-piece_bytes x t file v i h,
            length-drop (piece_size t i) g.hashbuf,
            r.buffer,
          );
          size = len ∙ r.size;
          bytes = ok';
        },
        set,
      )

  gen_loop_lem :
      (n i : ℕ) (g : Generated)
      → i + n ≡ t.num_pieces
      → IsReady g
      → (g' : Generated) × (gen_loop x n t file
            (drop (20 * i) t.pieces)
            t.piece_len
            t.num_pieces
            i
            g
          ≡ some g')
        × IsReady g'
        × ((j : ℕ) → i ≤ j → j < t.num_pieces → bit_of g'.bits j ≡ verified x t file j)
        × ((j : ℕ) → (j < i) ⊎ (t.num_pieces ≤ j) → bit_of g'.bits j ≡ bit_of g.bits j)
  unfolding gen_loop
  gen_loop_lem zero i g e r = (g, refl, r, λ j a b. absurd (omega arith), λ j o. refl)
  gen_loop_lem (suc n) i g e r =
      let (g1, e1, r1, b1) = gen_round_lem i g (omega arith) r in
      let (g2, e2, r2, in2, out2) = gen_loop_lem n (i + 1) g1 (omega arith) r1 in
      (
        g2,
        rw (e1, drop-hashes i t.pieces) e2,
        r2,
        λ j a b. elim (ℕ_discrete i j) [
          | yes at ↦ out2 j (inl (omega arith)) ∙ b1 j ∙ rw (at, ==_refl j) refl
          | no other ↦ in2 j (omega arith) b
        ],
        λ j o. out2 j (ground arith) ∙ b1 j ∙ rw (==_false i j (ground arith)) refl,
      )

-- Where the torrent has one file that is on the disk at its full size, `gen_bitfield` over its
-- hashes succeeds and changes only the count of downloaded bytes. The result has a byte for
-- each eight pieces and one more; bit `i` of it is 1 where the bytes of piece `i` in the file
-- have the hash of the torrent, and 0 where they have not, and the bits behind the last piece
-- are 0.
pub gen_bitfield-verified :
    (x : Extern) (c : Client)
    → IsWhole c.torrent c.file
    → (bits : Bytes) × (total : ℤ) × (gen_bitfield x c.torrent.pieces c.torrent.piece_len
          c.torrent.num_pieces c
        ≡ ok bits (record c { downloaded = total }))
      × (length bits ≡ c.torrent.num_pieces / 8 + 1)
      × ((i : ℕ)
          → i < c.torrent.num_pieces
          → get_bit_at_index bits (pos i) (pos (c.torrent.num_pieces / 8 + 1))
            ≡ some (if verified x c.torrent c.file i then pos 1 else pos 0))
      × ((i : ℕ) → c.torrent.num_pieces ≤ i → bit_of bits i ≡ false)
unfolding gen_bitfield
gen_bitfield-verified x c v =
    let n = c.torrent.num_pieces in
    let start : Generated = record {
      bits = replicate (n / 8 + 1) 0;
      hashbuf = tabulate_from 0 c.torrent.piece_len x.junk;
      total = c.downloaded;
    } in
    let (g, e, r, inside, outside) =
      gen_loop_lem x c.torrent c.file v n 0 start (omega arith) (record {
        buffer = length-tabulate_from 0 c.torrent.piece_len x.junk;
        size = length-replicate (n / 8 + 1) 0;
        bytes = AreBytes-zeros (n / 8 + 1);
      }) in
    (
      g.bits,
      g.total,
      rw e refl,
      r.size,
      λ i h.
          subst
            (λ (k : ℕ).
              get_bit_at_index g.bits (pos i) (pos k)
              ≡ some (if verified x c.torrent c.file i then pos 1 else pos 0))
            r.size
            (get_bit-bit_of g.bits i (omega (arith, r.size)) ∙ rw (inside i (omega arith) h) refl),
      λ i h. outside i (inr h) ∙ bit_of-zeros (n / 8 + 1) i,
    )
