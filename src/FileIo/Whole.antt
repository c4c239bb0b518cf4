-- ===== src/FileIo/Whole.antt =====
-- `get_piece`, `set_piece` and `get_any_piece` of fileio.c: transfers by the number of the piece, with
-- the size of the file behind the `FILE *` itself.
use mathlib.Core.List.{append-nil}
use simpletorrent_nju.Base.{
  ◌≡◌, refl, ap, sym, ◌∙◌, ℕ, zero, suc, ◌+◌, ◌-◌, ◌*◌, ◌<◌, ◌≤◌, ◌^◌, ltb, false, if◌then◌else◌,
  [], ◌∷◌, ◌++◌, Option, none, some, Bytes, length, take, drop, length-take, ℤ, pos, negsuc, ◌+ℤ◌,
  ◌-ℤ◌, ◌*ℤ◌, i32, i32-pos, ltb_ℤ, leb_ℤ, size_t, arith,
}
use simpletorrent_nju.FileIo.{fread, fwrite, overlay, write_at}
use simpletorrent_nju.FileIo.Create.{filesize}
use simpletorrent_nju.FileIo.Blocks.{
  mul_pos, add_pos, leb-true, fread_full, write_at_reads, length-write_at,
}

-- A transfer behind `fseek(fp, offset, SEEK_SET)`. `none` too where fseek refuses the offset, since the
-- transfer then starts at the position that an earlier call left.
unfoldable pub at_offset : {A : Type 0} → ℤ → (ℕ → Option A) → Option A
at_offset (pos n) transfer = transfer n
at_offset (negsuc k) transfer = none

-- `piece_num * piece_size`, on `int`s.
unfoldable pub piece_start : ℤ → ℤ → ℤ
piece_start piece_num piece_size = i32 (piece_num *ℤ piece_size)

-- The number of bytes that a call moves: what is left of the file, or the whole piece.
unfoldable pub piece_span : ℤ → ℤ → ℤ → ℤ
piece_span cursize piece_num piece_size =
    if ltb_ℤ cursize (piece_start (i32 (piece_num +ℤ pos 1)) piece_size)
    then i32 (cursize -ℤ piece_start piece_num piece_size)
    else piece_size

unfoldable pub get_piece : Bytes → Bytes → ℤ → ℤ → Option (ℤ × Bytes)
get_piece file buf piece_num piece_size =
    let cursize = filesize file in
    let start = piece_start piece_num piece_size in
    if leb_ℤ cursize start
    then some (negsuc 0, buf)
    else at_offset start λ n. fread file n (size_t (piece_span cursize piece_num piece_size)) buf

unfoldable pub set_piece : Bytes → Bytes → ℤ → ℤ → Option (ℤ × Bytes)
set_piece file buf piece_num piece_size =
    let cursize = filesize file in
    let start = piece_start piece_num piece_size in
    if leb_ℤ cursize start
    then some (negsuc 0, file)
    else at_offset start λ n. fwrite file n (size_t (piece_span cursize piece_num piece_size)) buf

unfoldable pub get_any_piece : Bytes → Bytes → ℤ → ℤ → ℤ → ℤ → Option (ℤ × Bytes)
get_any_piece file buf begin len piece_num piece_size =
    let start = piece_start piece_num piece_size in
    if ltb_ℤ (filesize file) (i32 (start +ℤ len))
    then some (negsuc 0, buf)
    else at_offset (i32 (start +ℤ begin)) λ n. fread file n (size_t len) buf

-- Piece `k`, of `s` bytes or of fewer where the file ends before, begins inside the file.
pub record Begins (file : Bytes) (k s : ℕ) : Type 0 where
  pub some_size : 0 < s
  pub begins : k * s < length file
  pub file_int : length file < 2 ^ 31
  pub piece_int : k * s + s < 2 ^ 31
  pub number_int : k + 1 < 2 ^ 31

-- The bytes of the file that the piece has.
abbrev pub left_in : Bytes → ℕ → ℕ → ℕ
left_in file k s = if ltb (length file) (k * s + s) then length file - k * s else s

fwrite-some :
    (file : Bytes) (offset n : ℕ) (buf : Bytes)
    → 0 < n
    → n ≤ length buf
    → fwrite file offset n buf ≡ some (pos n, write_at offset (take n buf) file)
unfolding fwrite
fwrite-some file offset zero buf p h = absurd (omega arith)
fwrite-some file offset (suc n) buf p h = rw (leb-true (suc n) (length buf) h) refl

module _ (file : Bytes) (k s : ℕ) (v : Begins file k s) where
  filesize_lem : filesize file ≡ pos (length file)
  unfolding filesize
  filesize_lem = i32-pos (length file) v.file_int

  start_lem : piece_start (pos k) (pos s) ≡ pos (k * s)
  unfolding piece_start
  start_lem = let h = v.piece_int in rw (mul_pos k s) (i32-pos (k * s) (omega arith))

  end_lem : piece_start (i32 (pos k +ℤ pos 1)) (pos s) ≡ pos (k * s + s)
  unfolding piece_start
  end_lem =
      let e : (k + 1) * s ≡ k * s + s = omega arith in
      rw (add_pos k 1, i32-pos (k + 1) v.number_int, mul_pos (k + 1) s, e)
        (i32-pos (k * s + s) v.piece_int)

  rest_lem : i32 (pos (length file) -ℤ pos (k * s)) ≡ pos (length file - k * s)
  unfolding ◌-ℤ◌
  rest_lem =
      let h = v.begins in
      let l = v.file_int in
      let e : (pos (length file) -ℤ pos (k * s)) ≡ pos (length file - k * s) = ground arith in
      rw e (i32-pos (length file - k * s) (omega arith))

  span_lem : size_t (piece_span (pos (length file)) (pos k) (pos s)) ≡ left_in file k s
  unfolding piece_span size_t
  span_lem = rw (end_lem, start_lem, rest_lem) (ground arith)

  left_bounds :
      (0 < left_in file k s) × (left_in file k s ≤ s) × (k * s + left_in file k s ≤ length file)
  left_bounds =
      let h = v.begins in let p = v.some_size in (ground arith, ground arith, ground arith)

  starts_inside : leb_ℤ (pos (length file)) (pos (k * s)) ≡ false
  starts_inside = let h = v.begins in ground arith

  get_piece_part :
      (buf : Bytes)
      → s ≤ length buf
      → get_piece file buf (pos k) (pos s)
        ≡ some (
          pos (left_in file k s),
          take (left_in file k s) (drop (k * s) file) ++ drop (left_in file k s) buf,
        )
  unfolding get_piece at_offset
  get_piece_part buf h =
      let (_, small, inside) = left_bounds in
      rw (filesize_lem, start_lem, starts_inside, span_lem)
        (fread_full file buf (k * s) (left_in file k s) inside (omega arith))

  set_piece_part :
      (buf : Bytes)
      → s ≤ length buf
      → set_piece file buf (pos k) (pos s)
        ≡ some (pos (left_in file k s), write_at (k * s) (take (left_in file k s) buf) file)
  unfolding set_piece at_offset
  set_piece_part buf h =
      let (some_bytes, small, inside) = left_bounds in
      rw (filesize_lem, start_lem, starts_inside, span_lem)
        (fwrite-some file (k * s) (left_in file k s) buf some_bytes (omega arith))

Begins-length :
    (file file' : Bytes) (k s : ℕ) → length file' ≡ length file → Begins file k s → Begins file' k s
Begins-length file file' k s e v = record {
  some_size = v.some_size;
  begins = let h = v.begins in omega arith;
  file_int = let h = v.file_int in omega arith;
  piece_int = v.piece_int;
  number_int = v.number_int;
}

overlay-append : (new file : Bytes) → overlay new file ≡ new ++ drop (length new) file
unfolding overlay
overlay-append [] file = refl
overlay-append (d ∷ ds) [] = ap (◌∷◌ d) (sym (append-nil ds))
overlay-append (d ∷ ds) (b ∷ file) = ap (◌∷◌ d) (overlay-append ds file)

write_at-append :
    (n : ℕ) (new file : Bytes)
    → n ≤ length file
    → write_at n new file ≡ take n file ++ (new ++ drop (length new) (drop n file))
unfolding write_at
write_at-append zero new file h = overlay-append new file
write_at-append (suc n) new [] h = absurd (omega arith)
write_at-append (suc n) new (b ∷ file) h = ap (◌∷◌ b) (write_at-append n new file (omega arith))

-- Writing a piece that begins inside the file and reading it back, where the file and the piece fit an
-- `int`, with buffers of at least the size of a piece. Both calls move the same number of bytes: the
-- whole piece, or what the file has of it. The bytes written stand between what was before and behind
-- them, and the read fills the front of its buffer with them.
pub get_piece-set_piece :
    (file buf old : Bytes) (k s : ℕ)
    → Begins file k s
    → s ≤ length buf
    → s ≤ length old
    → (file' : Bytes) × (set_piece file buf (pos k) (pos s) ≡ some (pos (left_in file k s), file'))
      × (get_piece file' old (pos k) (pos s)
          ≡ some
              (pos (left_in file k s), take (left_in file k s) buf ++ drop (left_in file k s) old))
      × (file'
          ≡ take (k * s) file
            ++ (take (left_in file k s) buf ++ drop (left_in file k s) (drop (k * s) file)))
get_piece-set_piece file buf old k s v h h' =
    let n = left_in file k s in
    let (some_bytes, small, inside) = left_bounds file k s v in
    let taken : length (take n buf) ≡ n = omega (arith, length-take n buf) in
    let file' = write_at (k * s) (take n buf) file in
    let same : length file' ≡ length file =
      length-write_at (k * s) (take n buf) file (omega arith) in
    let read : take n (drop (k * s) file') ≡ take n buf =
      ap (λ m. take m (drop (k * s) file')) (sym taken)
      ∙ write_at_reads (k * s) (take n buf) file (omega arith) in
    let part : left_in file' k s ≡ n = ap (λ m. if ltb m (k * s + s) then m - k * s else s) same in
    (
      file',
      set_piece_part file k s v buf h,
      get_piece_part file' k s (Begins-length file file' k s same v) old h'
          ∙ ap (λ m. some (pos m, take m (drop (k * s) file') ++ drop m old)) part
          ∙ ap (λ t. some (pos n, t ++ drop n old)) read,
      write_at-append (k * s) (take n buf) file (omega arith)
          ∙ ap (λ m. take (k * s) file ++ (take n buf ++ drop m (drop (k * s) file))) taken,
    )
