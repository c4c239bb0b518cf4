-- ===== src/FileIo/Create.antt =====
-- `createfile` of fileio.c, with `filesize` and `exists`: the file of the torrent is there at its full
-- size before it is read.
use simpletorrent_nju.Base.{
  ◌≡◌, refl, ap, ◌∙◌, ℕ, zero, suc, ◌<◌, ◌≤◌, ◌^◌, ltb, Bool, true, false, if◌then◌else◌, [], ◌∷◌,
  Option, none, some, Bytes, length, get_elem?, ℤ, pos, negsuc, i32, i32-pos, ltb_ℤ, arith,
}
use simpletorrent_nju.FileIo.{write_at, overlay}

-- `filesize(fp)`, an `int`.
unfoldable pub filesize : Bytes → ℤ
filesize file = i32 (pos (length file))

-- `fseek(fp, size - 1, SEEK_SET); fputc('a', fp)`. A negative offset is refused, and the position stays
-- at the start.
unfoldable pub put_last : ℤ → Bytes → Bytes
put_last (pos (suc n)) file = write_at n (97 ∷ []) file
put_last (pos zero) file = write_at 0 (97 ∷ []) file
put_last (negsuc k) file = write_at 0 (97 ∷ []) file

-- What follows fopen, which may fail.
unfoldable pub opened : Bool → ℤ → Bytes → Option Bytes
opened false size file = none
opened true size file = some (if ltb_ℤ (filesize file) size then put_last size file else file)

-- `createfile(filepath, size)`. `found` is the file at this path, where there is one; `can_create` and
-- `can_open` tell whether creat and fopen succeed. `none` is NULL.
unfoldable pub createfile : Bool → Bool → Option Bytes → ℤ → Option Bytes
createfile can_create can_open (some file) size = opened can_open size file
createfile true can_open none size = opened can_open size []
createfile false can_open none size = none

-- What is at the path before, nothing where there is no file.
abbrev pub content : Option Bytes → Bytes
content none = []
content (some file) = file

length-write_at_end :
    (n : ℕ) (b : ℕ) (file : Bytes) → length file ≤ n → length (write_at n (b ∷ []) file) ≡ suc n
unfolding write_at overlay
length-write_at_end zero b [] h = refl
length-write_at_end zero b (c ∷ file) h = absurd (omega arith)
length-write_at_end (suc n) b [] h = ap suc (length-write_at_end n b [] (omega arith))
length-write_at_end (suc n) b (c ∷ file) h = ap suc (length-write_at_end n b file (omega arith))

write_at_end_keeps :
    (n : ℕ) (b : ℕ) (file : Bytes) (j : ℕ)
    → length file ≤ n
    → j < length file
    → get_elem? (write_at n (b ∷ []) file) j ≡ get_elem? file j
unfolding write_at
write_at_end_keeps zero b file j h l = absurd (omega arith)
write_at_end_keeps (suc n) b [] j h l = absurd (omega arith)
write_at_end_keeps (suc n) b (c ∷ file) zero h l = refl
write_at_end_keeps (suc n) b (c ∷ file) (suc j) h l =
    write_at_end_keeps n b file j (omega arith) (omega arith)

-- The file that was opened: as long as it was, or as long as the torrent wants it, and with the bytes
-- that it had.
abbrev pub IsExtended : Bytes → ℕ → Bytes → Type 0
IsExtended old size file =
    (length file ≡ (if ltb (length old) size then size else length old))
    × ((j : ℕ) → j < length old → get_elem? file j ≡ get_elem? old j)

size_test :
    (old : Bytes) (size : ℕ)
    → length old < 2 ^ 31
    → ltb_ℤ (filesize old) (pos size) ≡ ltb (length old) size
unfolding filesize
size_test old size h = ap (λ z. ltb_ℤ z (pos size)) (i32-pos (length old) h) ∙ ground arith

extended :
    (old : Bytes) (size : ℕ) (b : Bool)
    → ltb (length old) size ≡ b
    → (file : Bytes) × ((if b then put_last (pos size) old else old) ≡ file)
      × IsExtended old size file
unfolding put_last
extended old size false e = (old, refl, (rw e refl, λ j l. refl))
extended old zero true e = absurd (ground arith)
extended old (suc n) true e = (
  write_at n (97 ∷ []) old,
  refl,
  (
    rw e (length-write_at_end n 97 old (ground arith)),
    λ j l. write_at_end_keeps n 97 old j (ground arith) l,
  ),
)

-- Where creat and fopen succeed, and what is at the path is shorter than 2^31: `createfile` gives a file,
-- which has the size that was asked for where it was shorter or missing, and its own else, and begins
-- with the bytes that were there.
pub createfile-IsExtended :
    (found : Option Bytes) (size : ℕ)
    → length (content found) < 2 ^ 31
    → (file : Bytes) × (createfile true true found (pos size) ≡ some file)
      × IsExtended (content found) size file
unfolding createfile opened
createfile-IsExtended found size h =
    let (file, e, k) = extended (content found) size (ltb (length (content found)) size) refl in
    let test : ltb_ℤ (filesize (content found)) (pos size) ≡ ltb (length (content found)) size =
      size_test (content found) size h in
    (file, by found test e, k)
  where
    by :
        (o : Option Bytes) {file : Bytes}
        → ltb_ℤ (filesize (content o)) (pos size) ≡ ltb (length (content o)) size
        → (if ltb (length (content o)) size then put_last (pos size) (content o) else content o)
          ≡ file
        → createfile true true o (pos size) ≡ some file
    by none t e = ap some (rw t e)
    by (some old) t e = ap some (rw t e)
