-- ===== src/Metainfo.antt =====
-- parsetorrentfile.c: the metainfo file.
pub mod Rounds
pub mod SingleFile
use simpletorrent_nju.Base.{
  ℕ, zero, suc, ◌+◌, ◌-◌, ◌*◌, ◌/◌, ◌%◌, ltb, leb, ◌==◌, if◌then◌else◌, Bool, true, false, not,
  List, [], ◌∷◌, ◌++◌, Option, none, some, Bytes, ℤ, pos, negsuc, i32, eqb_ℤ, ◌+ℤ◌, length, take,
  drop, map, signed32, pos_part, neg_part, sub_ℕ, tabulate_from,
}
use simpletorrent_nju.Client.{Extern}
use simpletorrent_nju.Pool.{strncmp_eq}
use simpletorrent_nju.Text.{strstr, until_zero}
use simpletorrent_nju.Wire.Handshake.{codes}
use simpletorrent_nju.Bencode.{
  Node, Fields, null, be_str, be_int, be_dict, no_fields, field, be_decoden, Result, returns,
  faults, goes_on,
}
use simpletorrent_nju.Bencode.Free.{be_str_len}
use simpletorrent_nju.Tracker.Run.{Run, ok, exits, aborts, fault, pure, ◌>>=◌, access}
use simpletorrent_nju.Tracker.Response.{text_of, number_of}

-- `torrentmetadata_t` with its `flist`, while it is filled in: `filled`, and in `overruns` the number
-- of bytes that were written behind the end of a block.
pub record Meta : Type 0 where
  pub info_hash : List ℤ
  pub announce : Bytes
  pub len : ℤ
  pub name : Bytes
  pub filename : Bytes
  pub begin_index : ℤ
  pub size : ℤ
  pub piece_len : ℤ
  pub num_pieces : ℤ
  pub pieces : Bytes
  pub filled : ℕ
  pub overruns : ℕ

abbrev pub drop_last_e : Bytes → Bytes
drop_last_e [] = []
drop_last_e (c ∷ []) = if c == 101 then [] else c ∷ []
drop_last_e (c ∷ d ∷ s) = c ∷ drop_last_e (d ∷ s)

-- The text from the value of `info` to the end of the file, without a last `e`; `none` where
-- "infod" is not found, or the search leaves the file.
unfoldable pub info_text : Bytes → Option Bytes
info_text bytes = elim (strstr bytes (codes "infod")) [
  | none ↦ none
  | some found ↦ some (drop_last_e (drop 4 found.1))
]

-- C's `/` on `int`s, and whether `%` is 0; `none` is a division by zero.
unfoldable pub quotient : ℤ → ℤ → Option ℤ
quotient a b =
    let m = (pos_part a + neg_part a) / (pos_part b + neg_part b) in
    let z =
      if leb (neg_part a) 0
      then (if leb (neg_part b) 0 then pos m else sub_ℕ 0 m)
      else (if leb (neg_part b) 0 then sub_ℕ 0 m else pos m) in
    if eqb_ℤ b (pos 0) then none else some (i32 z)

unfoldable pub is_multiple : ℤ → ℤ → Bool
is_multiple a b = (pos_part a + neg_part a) % (pos_part b + neg_part b) == 0

-- The number of pieces of a file.
unfoldable pub pieces_of : ℤ → ℤ → Option ℤ
unfolding ◌+ℤ◌
pieces_of total piece_len = elim (quotient total piece_len) [
  | none ↦ none
  | some q ↦ some (if is_multiple total piece_len then q else i32 (q +ℤ pos 1))
]

-- `memcpy(ret->pieces, s, num_pieces*20)` from a string with a zero behind it.
unfoldable pub copy_pieces : ℤ → Bytes → Run Bytes
copy_pieces (pos n) s =
    if leb (n * 20) (length s + 1) then pure (take (n * 20) (s ++ 0 ∷ [])) else fault
copy_pieces (negsuc n) s = fault

-- The key begins with the name.
abbrev pub is_key : Bytes → Bytes → Bool
unfolding strncmp_eq
is_key key name = strncmp_eq (length name) key name

-- The block for the announce URL has no room for the last zero, and `memset` clears
-- `be_str_len + 1` bytes of it.
unfoldable pub set_announce : Bytes → Node → Meta → Run Meta
unfolding strncmp_eq be_str_len
set_announce key v t =
    if is_key key (codes "announce")
    then (do
      s ← access (text_of v)
      pure (record t {
        announce = until_zero s;
        filled = t.filled + 1;
        overruns = t.overruns + (be_str_len (some s) + 1 - length (until_zero s));
      }))
    else pure t

unfoldable pub set_length : Extern → Bytes → Node → Meta → Run Meta
unfolding strncmp_eq
set_length x key null t = if is_key key (codes "length") then fault else pure t
set_length x key v t = pure (
    if is_key key (codes "length")
    then record t {
      len = number_of x v;
      size = number_of x v;
      begin_index = pos 0;
      filled = t.filled + 1;
    }
    else t)

-- The string that strcpy finds from `ret->name` on.
unfoldable pub copied_name : Extern → Bytes → Bytes
copied_name x name = until_zero (name ++ tabulate_from 0 80 x.junk)

-- `ret->name` has no zero at its end: what strcpy takes for the file name goes on in the memory
-- behind it.
unfoldable pub set_name : Extern → Bytes → Node → Meta → Run Meta
unfolding strncmp_eq
set_name x key v t =
    if is_key key (codes "name")
    then (do
      s ← access (text_of v)
      let name = until_zero s
      let filename = copied_name x name
      if ltb (length filename) 80
          then pure (record t { name = name; filename = filename; filled = t.filled + 1 })
          else fault)
    else pure t

unfoldable pub set_piece_len : Extern → Bytes → Node → Meta → Run Meta
unfolding strncmp_eq
set_piece_len x key null t = if is_key key (codes "piece length") then fault else pure t
set_piece_len x key v t = pure (
    if is_key key (codes "piece length")
    then record t { piece_len = number_of x v; filled = t.filled + 1 }
    else t)

unfoldable pub set_pieces : Bytes → Node → Meta → Run Meta
unfolding strncmp_eq
set_pieces key v t =
    if is_key key (codes "pieces")
    then (do
      n ← access (pieces_of t.len t.piece_len)
      s ← access (text_of v)
      pieces ← copy_pieces n s
      pure (record t { pieces = pieces; num_pieces = n; filled = t.filled + 1 }))
    else pure t

-- The loop over the keys of the `info` dictionary. It ends at a key of NULL, which the decoder does
-- not write behind the last pair: there the key is what fresh memory holds.
unfoldable pub info_fields : Extern → Fields → Meta → Run Meta
info_fields x no_fields t = if x.junk 0 == 0 then pure t else fault
info_fields x (field none v vs) t = pure t
info_fields x (field (some key) v vs) t = do
  with_length ← set_length x key v t
  with_name ← set_name x key v with_length
  with_piece_len ← set_piece_len x key v with_name
  with_pieces ← set_pieces key v with_piece_len
  info_fields x vs with_pieces

unfoldable pub set_info : Extern → Bytes → Node → Meta → Run Meta
unfolding strncmp_eq
set_info x key (be_dict vs) t = if is_key key (codes "info") then info_fields x vs t else pure t
set_info x key v t = if is_key key (codes "info") then exits (negsuc 2) else pure t

-- The loop over the keys of the file.
unfoldable pub meta_fields : Extern → Fields → Meta → Run Meta
meta_fields x no_fields t = pure t
meta_fields x (field key null vs) t = pure t
meta_fields x (field none v vs) t = fault
meta_fields x (field (some key) v vs) t = do
  with_announce ← set_announce key v t
  with_info ← set_info x key v with_announce
  meta_fields x vs with_info

-- The structure as malloc gives it, with the hash.
unfoldable pub fresh_meta : Extern → Bytes → Meta
fresh_meta x text = record {
  info_hash = map signed32 (x.sha1 text);
  announce = [];
  len = x.junk_int 0;
  name = [];
  filename = [];
  begin_index = x.junk_int 0;
  size = x.junk_int 0;
  piece_len = x.junk_int 0;
  num_pieces = x.junk_int 0;
  pieces = [];
  filled = 0;
  overruns = 0;
}

-- What follows the decoder; `none` is NULL.
unfoldable pub meta_of : Extern → Bytes → Result → Run (Option Meta)
meta_of x bytes (returns null) = fault
meta_of x bytes (returns (be_dict vs)) = do
  text ← access (info_text bytes)
  t ← meta_fields x vs (fresh_meta x text)
  pure (if ltb t.filled 5 then none else some t)
meta_of x bytes (returns v) = exits (negsuc 12)
meta_of x bytes faults = fault
meta_of x bytes goes_on = Run.goes_on

-- `bytes` is the content of the file, and `f` the fuel of the decoder.
unfoldable pub parsetorrentfile : Extern → ℕ → Bytes → Run (Option Meta)
unfolding be_decoden meta_of
parsetorrentfile x f bytes = meta_of x bytes (be_decoden f bytes (pos (length bytes)))
