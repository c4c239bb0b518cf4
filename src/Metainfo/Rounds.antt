-- ===== src/Metainfo/Rounds.antt =====
-- The rounds of the loop over the keys of the info, and the numbers in it.
use native.Mathlib.Nat.{add-zero, div-le_self}
use simpletorrent_nju.Base.{
  ◌≡◌, refl, ap, ℕ, ◌+◌, ◌-◌, ◌*◌, ◌/◌, ◌%◌, ◌^◌, ◌<◌, leb, lt→ltb, ◌==◌, if◌then◌else◌, Bool-cases,
  inl, inr, true, [], ◌∷◌, ◌++◌, some, Bytes, pos, i32, i32-pos, ◌+ℤ◌, arith, length, take,
  take-append, tabulate_from,
}
use simpletorrent_nju.Client.{Extern}
use simpletorrent_nju.Text.{strstr, until_zero}
use simpletorrent_nju.Wire.Handshake.{codes}
use simpletorrent_nju.Bencode.{Node, Fields, be_str, be_int, field, no_fields}
use simpletorrent_nju.Tracker.Run.{ok, ◌>>=◌}
use simpletorrent_nju.Metainfo.{
  Meta, drop_last_e, info_text, quotient, is_multiple, pieces_of, copy_pieces, copied_name,
  info_fields, set_length, set_name, set_piece_len, set_pieces,
}

-- The number of pieces of a file of `l` bytes, with `p` bytes in a piece.
abbrev pub piece_count : ℕ → ℕ → ℕ
piece_count l p = if l % p == 0 then l / p else l / p + 1

drop_last_e-append : (s : Bytes) → drop_last_e (s ++ 101 ∷ []) ≡ s
drop_last_e-append [] = refl
drop_last_e-append (c ∷ []) = refl
drop_last_e-append (c ∷ d ∷ s) = ap (◌∷◌ c) (drop_last_e-append (d ∷ s))

pub info_text_found :
    (bytes front s : Bytes)
    → strstr bytes (codes "infod") ≡ some (front, codes "info" ++ (s ++ 101 ∷ []))
    → info_text bytes ≡ some s
unfolding info_text
info_text_found bytes front s h = rw (h, info_text) (ap some (drop_last_e-append s))

quotient-pos : (l p : ℕ) → l < 2 ^ 31 → 0 < p → quotient (pos l) (pos p) ≡ some (pos (l / p))
unfolding quotient
quotient-pos l p h hp =
    let e : (l + 0) / (p + 0) ≡ l / p = cc (add-zero l, add-zero p) in
    let small : l / p < 2 ^ 31 = omega (arith, div-le_self l p) in
    let value = i32-pos (l / p) small in ground (arith, e, value)

is_multiple-pos : (l p : ℕ) → is_multiple (pos l) (pos p) ≡ (l % p == 0)
unfolding is_multiple
is_multiple-pos l p = rw (add-zero l, add-zero p)

plus_one : (q : ℕ) → q + 1 < 2 ^ 31 → i32 (pos q +ℤ pos 1) ≡ pos (q + 1)
unfolding i32 ◌+ℤ◌
plus_one q h = ground arith

pub pieces_of-pos :
    (l p : ℕ) → l < 2 ^ 31 - 1 → 0 < p → pieces_of (pos l) (pos p) ≡ some (pos (piece_count l p))
unfolding pieces_of
pieces_of-pos l p h hp =
    let small : l / p + 1 < 2 ^ 31 = omega (arith, div-le_self l p) in
    rw (quotient-pos l p (omega arith) hp, pieces_of)
      (rw (is_multiple-pos l p) (ground (arith, plus_one (l / p) small)))

copy_pieces-length : (n : ℕ) (s : Bytes) → length s ≡ n * 20 → copy_pieces (pos n) s ≡ ok s
unfolding copy_pieces
copy_pieces-length n s h =
    let e : leb (n * 20) (length s + 1) ≡ true = ground arith in
    let whole : take (n * 20) (s ++ 0 ∷ []) ≡ s = rw (← h) (take-append s (0 ∷ [])) in
    ground (arith, whole)

until_zero-junk : (s rest : Bytes) → until_zero (s ++ 0 ∷ rest) ≡ until_zero s
unfolding until_zero
until_zero-junk [] rest = refl
until_zero-junk (c ∷ s) rest = rw (until_zero-junk s rest)

until_zero_idem : (s : Bytes) → until_zero (until_zero s) ≡ until_zero s
unfolding until_zero
until_zero_idem [] = refl
until_zero_idem (c ∷ s) = elim (Bool-cases (c == 0)) [
  | inl e ↦ ground arith
  | inr e ↦ ground (arith, until_zero_idem s)
]

copied_name_zero :
    (x : Extern) (name : Bytes) → x.junk 0 ≡ 0 → copied_name x (until_zero name) ≡ until_zero name
unfolding copied_name
copied_name_zero x name h =
    rw h (rw (until_zero-junk (until_zero name) (tabulate_from 1 79 x.junk)) (until_zero_idem name))

-- a round of the loop over the keys, from what its four steps do
round :
    (x : Extern) (key : Bytes) (v : Node) (vs : Fields) (t : Meta) {t' t'' t3 t4 : Meta}
    → set_length x key v t ≡ ok t'
    → set_name x key v t' ≡ ok t''
    → set_piece_len x key v t'' ≡ ok t3
    → set_pieces key v t3 ≡ ok t4
    → info_fields x (field (some key) v vs) t ≡ info_fields x vs t4
unfolding info_fields
round x key v vs t e e' e'' e3 = rw (e, ◌>>=◌) (rw (e', ◌>>=◌) (rw (e'', ◌>>=◌) (rw (e3, ◌>>=◌))))

module _ (x : Extern) (t : Meta) where
  pub length_round :
      (l : ℕ) (vs : Fields)
      → l < 2 ^ 31
      → info_fields x (field (some (codes "length")) (be_int (pos l)) vs) t
        ≡ info_fields x vs
            (record t { len = pos l; size = pos l; begin_index = pos 0; filled = t.filled + 1 })
  unfolding set_length set_name set_piece_len set_pieces
  length_round l vs h =
      round x (codes "length") (be_int (pos l)) vs t (rw (i32-pos l h)) refl refl refl

  pub name_round :
      (name : Bytes) (vs : Fields)
      → length (until_zero name) < 80
      → x.junk 0 ≡ 0
      → info_fields x (field (some (codes "name")) (be_str (some name)) vs) t
        ≡ info_fields x vs
            (record t { name = until_zero name; filename = until_zero name; filled = t.filled + 1 })
  unfolding set_length set_name set_piece_len set_pieces
  name_round name vs h zeroed =
      round x (codes "name") (be_str (some name)) vs t refl
        (rw (copied_name_zero x name zeroed) (rw (lt→ltb (length (until_zero name)) 80 h))) refl
        refl

  pub piece_len_round :
      (p : ℕ) (vs : Fields)
      → p < 2 ^ 31
      → info_fields x (field (some (codes "piece length")) (be_int (pos p)) vs) t
        ≡ info_fields x vs (record t { piece_len = pos p; filled = t.filled + 1 })
  unfolding set_length set_name set_piece_len set_pieces
  piece_len_round p vs h =
      round x (codes "piece length") (be_int (pos p)) vs t refl refl (rw (i32-pos p h)) refl

  pub pieces_round :
      (hashes : Bytes) (n : ℕ) (vs : Fields)
      → pieces_of t.len t.piece_len ≡ some (pos n)
      → length hashes ≡ n * 20
      → info_fields x (field (some (codes "pieces")) (be_str (some hashes)) vs) t
        ≡ info_fields x vs (record t { pieces = hashes; num_pieces = pos n; filled = t.filled + 1 })
  unfolding set_length set_name set_piece_len set_pieces
  pieces_round hashes n vs h whole =
      round x (codes "pieces") (be_str (some hashes)) vs t refl refl refl
        (rw (h, ◌>>=◌) (rw (copy_pieces-length n hashes whole, ◌>>=◌)))

  pub end_round : x.junk 0 ≡ 0 → info_fields x no_fields t ≡ ok t
  unfolding info_fields
  end_round h = rw h
