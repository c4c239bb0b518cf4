-- ===== src/FileIo/Blocks.antt =====
-- Reading and writing blocks of the file.
use mathlib.Core.List.{append-nil}
use simpletorrent_nju.Base.{
  ℕ, zero, suc, ◌+◌, ◌-◌, ◌*◌, ◌^◌, ◌<◌, ◌≤◌, ◌≡◌, refl, ap, ◌⊎◌, leb, true, List, [], ◌∷◌, ◌++◌,
  none, some, Bytes, length, take, drop, get_elem?, length-take, length-drop, pos, ◌+ℤ◌, ◌-ℤ◌, ◌*ℤ◌,
  i32-pos, size_t, pos_part, arith,
}
use simpletorrent_nju.Client.{Client, Torrent, ok}
use simpletorrent_nju.FileIo.{
  fread, overlay, write_at, fwrite, in_file, move_len, list_get_piece, list_set_piece, position,
  get_block, set_block,
}

module _ {ℓ} {A : Type ℓ} where
  pub take_all : (n : ℕ) (xs : List A) → length xs ≡ n → take n xs ≡ xs
  take_all zero [] e = refl
  take_all zero (x ∷ xs) e = absurd (omega arith)
  take_all (suc n) [] e = refl
  take_all (suc n) (x ∷ xs) e = ap (◌∷◌ x) (take_all n xs (omega arith))

  pub drop_all : (n : ℕ) (xs : List A) → length xs ≡ n → drop n xs ≡ []
  drop_all zero [] e = refl
  drop_all zero (x ∷ xs) e = absurd (omega arith)
  drop_all (suc n) [] e = refl
  drop_all (suc n) (x ∷ xs) e = drop_all n xs (omega arith)

pub leb-true : (a b : ℕ) → a ≤ b → leb a b ≡ true
leb-true a b h = ground arith

pub fread_full :
    (file buf : Bytes) (offset size : ℕ)
    → offset + size ≤ length file
    → size ≤ length buf
    → fread file offset size buf ≡ some (pos size, take size (drop offset file) ++ drop size buf)
unfolding fread
fread_full file buf offset size h k =
    let e : length (take size (drop offset file)) ≡ size =
      omega (arith, length-take size (drop offset file), length-drop offset file) in
    rw (e, leb-true size (length buf) k) refl

overlay_reads : (new file : Bytes) → take (length new) (overlay new file) ≡ new
unfolding overlay
overlay_reads [] file = refl
overlay_reads (d ∷ ds) [] = ap (◌∷◌ d) (take_all (length ds) ds refl)
overlay_reads (d ∷ ds) (b ∷ file) = ap (◌∷◌ d) (overlay_reads ds file)

overlay_keeps :
    (new file : Bytes) (j : ℕ) → length new ≤ j → get_elem? (overlay new file) j ≡ get_elem? file j
unfolding overlay
overlay_keeps [] file j h = refl
overlay_keeps (d ∷ ds) [] zero h = absurd (omega arith)
overlay_keeps (d ∷ ds) [] (suc j) h = beyond ds j (omega arith)
  where
    beyond : (xs : Bytes) (k : ℕ) → length xs ≤ k → get_elem? xs k ≡ none
    beyond [] k l = refl
    beyond (x ∷ xs) zero l = absurd (omega arith)
    beyond (x ∷ xs) (suc k) l = beyond xs k (omega arith)
overlay_keeps (d ∷ ds) (b ∷ file) zero h = absurd (omega arith)
overlay_keeps (d ∷ ds) (b ∷ file) (suc j) h = overlay_keeps ds file j (omega arith)

length-overlay :
    (new file : Bytes) → length new ≤ length file → length (overlay new file) ≡ length file
unfolding overlay
length-overlay [] file h = refl
length-overlay (d ∷ ds) [] h = absurd (omega arith)
length-overlay (d ∷ ds) (b ∷ file) h = ap suc (length-overlay ds file (omega arith))

pub write_at_reads :
    (n : ℕ) (new file : Bytes)
    → n ≤ length file
    → take (length new) (drop n (write_at n new file)) ≡ new
unfolding write_at
write_at_reads zero new file h = overlay_reads new file
write_at_reads (suc n) new [] h = absurd (omega arith)
write_at_reads (suc n) new (b ∷ file) h = write_at_reads n new file (omega arith)

pub write_at_keeps :
    (n : ℕ) (new file : Bytes) (j : ℕ)
    → n ≤ length file
    → (j < n) ⊎ (n + length new ≤ j)
    → get_elem? (write_at n new file) j ≡ get_elem? file j
unfolding write_at
write_at_keeps zero new file j h o = overlay_keeps new file j (ground arith)
write_at_keeps (suc n) new [] j h o = absurd (omega arith)
write_at_keeps (suc n) new (b ∷ file) zero h o = refl
write_at_keeps (suc n) new (b ∷ file) (suc j) h o =
    write_at_keeps n new file j (omega arith) (ground arith)

pub length-write_at :
    (n : ℕ) (new file : Bytes)
    → n + length new ≤ length file
    → length (write_at n new file) ≡ length file
unfolding write_at
length-write_at zero new file h = length-overlay new file (omega arith)
length-write_at (suc n) new [] h = absurd (omega arith)
length-write_at (suc n) new (b ∷ file) h = ap suc (length-write_at n new file (omega arith))

-- `len` bytes from position `at` of the torrent lie in the file.
pub record IsInside (t : Torrent) (file : Bytes) (at len : ℕ) : Type 0 where
  pub some_bytes : 0 < len
  pub starts : t.begin_index ≤ at
  pub ends : at + len ≤ t.begin_index + t.size
  pub fits_int : t.begin_index + t.size < 2 ^ 31
  pub on_disk : t.size ≤ length file

module _ (t : Torrent) (file : Bytes) (at len : ℕ) (v : IsInside t file at len) where
  in_file-true : in_file t (pos at) ≡ true
  unfolding in_file
  in_file-true = rw (i32-pos (t.begin_index + t.size) v.fits_int) (ground arith)

  move_len_full : move_len t (pos len) (pos at) ≡ pos len
  unfolding move_len ◌-ℤ◌
  move_len_full =
      let e : (pos (t.begin_index + t.size) -ℤ pos at -ℤ pos len)
          ≡ pos (t.begin_index + t.size - at - len) =
        ground arith in
      rw e (rw (i32-pos (t.begin_index + t.size - at - len) (omega arith)) (ground arith))

  offset_lem : pos_part (pos at -ℤ pos t.begin_index) ≡ at - t.begin_index
  unfolding ◌-ℤ◌
  offset_lem = ground arith

  -- A read of bytes that lie in the file fills the front of the buffer with them.
  pub list_get_piece_full :
      (buf : Bytes)
      → len ≤ length buf
      → list_get_piece t file buf (pos len) (pos at)
        ≡ some (pos len, take len (drop (at - t.begin_index) file) ++ drop len buf)
  unfolding list_get_piece size_t
  list_get_piece_full buf h =
      rw (in_file-true, move_len_full, offset_lem)
        (fread_full file buf (at - t.begin_index) len (omega arith) h)

  pub list_set_piece_full :
      (buf : Bytes)
      → length buf ≡ len
      → list_set_piece t file buf (pos len) (pos at)
        ≡ some (pos len, write_at (at - t.begin_index) buf file)
  unfolding list_set_piece size_t fwrite
  list_set_piece_full buf h = rw (in_file-true, move_len_full, offset_lem) (full len h v.some_bytes)
    where
      full :
          (n : ℕ)
          → length buf ≡ n
          → 0 < n
          → fwrite file (at - t.begin_index) n buf
            ≡ some (pos n, write_at (at - t.begin_index) buf file)
      full zero e p = absurd (omega arith)
      full (suc n) e p =
          rw (leb-true (suc n) (length buf) (omega arith), take_all (suc n) buf e) refl

pub mul_pos : (a b : ℕ) → pos a *ℤ pos b ≡ pos (a * b)
unfolding ◌*ℤ◌
mul_pos a b = ground arith

pub add_pos : (a b : ℕ) → pos a +ℤ pos b ≡ pos (a + b)
unfolding ◌+ℤ◌
add_pos a b = ground arith

-- The position of a block, where it fits an `int`.
pub position_lem :
    (t : Torrent) (index begin : ℕ)
    → index * t.piece_len + begin < 2 ^ 31
    → position t (pos index) (pos begin) ≡ pos (index * t.piece_len + begin)
unfolding position
position_lem t index begin h =
    rw
      (
        mul_pos index t.piece_len,
        i32-pos (index * t.piece_len) (omega arith),
        add_pos (index * t.piece_len) begin,
      )
      (i32-pos (index * t.piece_len + begin) h)

IsInside-length :
    (t : Torrent) (file file' : Bytes) (at len : ℕ)
    → IsInside t file at len
    → length file' ≡ length file
    → IsInside t file' at len
IsInside-length t file file' at len v e = record {
  some_bytes = v.some_bytes;
  starts = v.starts;
  ends = v.ends;
  fits_int = v.fits_int;
  on_disk = omega arith;
}

-- Writing a block that is not empty and lies inside the file, which is on the disk at its full
-- size, and reading it back into a buffer of its length: the write reports all its bytes and
-- changes only the file, the read gives them, and the file keeps its length and every other
-- byte.
pub get_block-set_block :
    (c : Client) (index begin : ℕ) (block buf : Bytes)
    → IsInside c.torrent c.file (index * c.torrent.piece_len + begin) (length block)
    → length buf ≡ length block
    → (file : Bytes) × (set_block (pos index) (pos begin) (pos (length block)) block c
        ≡ ok (pos (length block)) (record c { file = file }))
      × (get_block (pos index) (pos begin) (pos (length block)) buf (record c { file = file })
          ≡ ok (pos (length block), block) (record c { file = file }))
      × (length file ≡ length c.file)
      × ((j : ℕ)
          → (j + c.torrent.begin_index < index * c.torrent.piece_len + begin)
            ⊎ (index * c.torrent.piece_len + begin + length block ≤ j + c.torrent.begin_index)
          → get_elem? file j ≡ get_elem? c.file j)
unfolding get_block set_block
get_block-set_block c index begin block buf v e =
    let at = index * c.torrent.piece_len + begin in
    let n = at - c.torrent.begin_index in
    let pos_at = position_lem c.torrent index begin (omega arith) in
    let file = write_at n block c.file in
    let len = length-write_at n block c.file (omega arith) in
    let still = IsInside-length c.torrent c.file file at (length block) v len in
    (
      file,
      rw (pos_at, list_set_piece_full c.torrent c.file at (length block) v block refl) refl,
      rw
          (
            pos_at,
            list_get_piece_full c.torrent file at (length block) still buf (omega arith),
            write_at_reads n block c.file (omega arith),
            drop_all (length block) buf e,
            append-nil,
          )
          refl,
      len,
      λ j o. write_at_keeps n block c.file j (omega arith) (ground arith),
    )
