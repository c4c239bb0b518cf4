-- ===== src/FileIo/Pieces.antt =====
-- The pieces of a file, and how a round of `gen_bitfield` reads one.
use Prim.Native.Nat.{min}
use simpletorrent_nju.Base.{
  ℕ, ◌+◌, ◌-◌, ◌*◌, ◌^◌, ◌<◌, ◌≤◌, ◌≡◌, ◌≢◌, ==_refl, ==_false, ℕ_discrete, dec_lt, ap, ◌∙◌, Bool,
  ◌++◌, some, Bytes, length, take, drop, length-take, length-drop, drop-drop, pos, ◌-ℤ◌, i32,
  i32-pos, arith,
}
use simpletorrent_nju.Client.{Extern, Torrent}
use simpletorrent_nju.FileIo.{list_get_piece, digest_bytes, bytes_eq, block_size}
use simpletorrent_nju.FileIo.Blocks.{list_get_piece_full}

-- A torrent of one file, with a hash for each piece, and the file at its full size.
pub record IsWhole (t : Torrent) (file : Bytes) : Type 0 where
  pub one_file : t.begin_index ≡ 0
  pub has_pieces : 0 < t.num_pieces
  pub last_begins : (t.num_pieces - 1) * t.piece_len < t.size
  pub last_ends : t.size ≤ t.num_pieces * t.piece_len
  pub fits_int : t.size + t.piece_len < 2 ^ 31
  pub hashes : length t.pieces ≡ 20 * t.num_pieces
  pub on_disk : t.size ≤ length file

-- The length of piece `i`: the last one ends with the file.
abbrev pub piece_size : Torrent → ℕ → ℕ
piece_size t i = min t.piece_len (t.size - i * t.piece_len)

-- The bytes of piece `i`.
abbrev pub piece_bytes : Torrent → Bytes → ℕ → Bytes
piece_bytes t file i = take (piece_size t i) (drop (i * t.piece_len) file)

-- Piece `i` has the hash that the torrent gives for it.
abbrev pub verified : Extern → Torrent → Bytes → ℕ → Bool
verified x t file i =
    bytes_eq (take 20 (digest_bytes (x.sha1 (piece_bytes t file i))))
      (take 20 (drop (20 * i) t.pieces))

mul_mono : (a b p : ℕ) → a ≤ b → a * p ≤ b * p
mul_mono a b p h = grind arith

le_mul : (a p : ℕ) → 0 < p → a ≤ a * p
le_mul a p h = grind arith

pub drop-hashes : (i : ℕ) (hs : Bytes) → drop 20 (drop (20 * i) hs) ≡ drop (20 * (i + 1)) hs
drop-hashes i hs =
    let e : 20 * i + 20 ≡ 20 * (i + 1) = omega arith in
    drop-drop (20 * i) 20 hs ∙ ap (λ (n : ℕ). drop n hs) e

module _ (x : Extern) (t : Torrent) (file : Bytes) (v : IsWhole t file) where
  pub piece_begins : (i : ℕ) → i < t.num_pieces → i * t.piece_len < t.size
  piece_begins i h =
      omega (arith, v.last_begins, mul_mono i (t.num_pieces - 1) t.piece_len (omega arith))

  pub piece_len_pos : 0 < t.piece_len
  piece_len_pos = elim (dec_lt 0 t.piece_len) [
    | yes p ↦ p
    | no n ↦
        absurd
          (omega (arith, v.last_begins, v.last_ends, ap (λ (p : ℕ). t.num_pieces * p) (zero_of n)))
  ]
    where
      zero_of : ¬ (0 < t.piece_len) → t.piece_len ≡ 0
      zero_of n = omega arith

  pub few_pieces : t.num_pieces < 2 ^ 31
  few_pieces =
      omega (arith, v.last_begins, v.fits_int, le_mul (t.num_pieces - 1) t.piece_len piece_len_pos)

  pub piece_ends :
      (i : ℕ) → i < t.num_pieces → (i + 1) ≢ t.num_pieces → i * t.piece_len + t.piece_len ≤ t.size
  piece_ends i h n =
      omega (arith, v.last_begins, mul_mono (i + 1) (t.num_pieces - 1) t.piece_len (omega arith))

  pub last_size :
      (i : ℕ)
      → (i + 1) ≡ t.num_pieces
      → pos (t.begin_index + t.size) -ℤ pos ((t.num_pieces - 1) * t.piece_len)
        ≡ pos (piece_size t i)
  unfolding ◌-ℤ◌
  last_size i e =
      let at : t.num_pieces - 1 ≡ i = omega arith in
      let le : t.size ≤ i * t.piece_len + t.piece_len =
        omega (arith, v.last_ends, ap (λ (n : ℕ). n * t.piece_len) e) in
      rw (at, v.one_file) (ground (arith, piece_begins i))

  pub block_size_lem :
      (i : ℕ) → i < t.num_pieces → block_size t t.piece_len t.num_pieces i ≡ pos (piece_size t i)
  unfolding block_size
  block_size_lem i h = elim (ℕ_discrete (i + 1) t.num_pieces) [
    | yes e ↦
        rw (e, ==_refl t.num_pieces)
          (ap i32 (last_size i e) ∙ i32-pos (piece_size t i) (omega (arith, v.fits_int)))
    | no n ↦ rw (==_false (i + 1) t.num_pieces n) (ap pos (omega (arith, piece_ends i h n)))
  ]

  pub round_reads :
      (i : ℕ) (buf : Bytes)
      → i < t.num_pieces
      → length buf ≡ t.piece_len
      → list_get_piece t file buf (pos (piece_size t i)) (i32 (pos (t.piece_len * i)))
        ≡ some (pos (piece_size t i), piece_bytes t file i ++ drop (piece_size t i) buf)
  round_reads i buf h e =
      let comm : t.piece_len * i ≡ i * t.piece_len = omega arith in
      rw (i32-pos (t.piece_len * i) (omega (arith, v.fits_int, piece_begins i h)), comm)
        (list_get_piece_full t file (i * t.piece_len) (piece_size t i)
            (record {
              some_bytes = omega (arith, piece_begins i h, piece_len_pos);
              starts = omega (arith, v.one_file);
              ends = omega (arith, piece_begins i h);
              fits_int = omega (arith, v.one_file, v.fits_int);
              on_disk = v.on_disk;
            })
            buf (omega arith)
          ∙ ap
              (λ (n : ℕ). some (
                pos (piece_size t i),
                take (piece_size t i) (drop n file) ++ drop (piece_size t i) buf,
              ))
              (omega (arith, v.one_file)))

  pub length-piece_bytes :
      (i : ℕ) → i < t.num_pieces → length (piece_bytes t file i) ≡ piece_size t i
  length-piece_bytes i h = omega (
    arith,
    length-take (piece_size t i) (drop (i * t.piece_len) file),
    length-drop (i * t.piece_len) file,
    v.on_disk,
    piece_begins i h,
  )
