-- ===== src/Tests/Startup.antt =====
-- The theorems on the file of the torrent at small inputs.
use simpletorrent_nju.FileIo.Whole.{Begins, get_piece, set_piece, get_piece-set_piece}
use simpletorrent_nju.Base.{◌≡◌, true, [], ◌∷◌, some, Bytes, pos, arith}
use simpletorrent_nju.FileIo.Create.{createfile, IsExtended, createfile-IsExtended}

createfile-IsExtended_example :
    (new : Bytes) × (createfile true true (some (1 ∷ 2 ∷ [])) (pos 5) ≡ some new)
    × IsExtended (1 ∷ 2 ∷ []) 5 new
createfile-IsExtended_example = createfile-IsExtended (some (1 ∷ 2 ∷ [])) 5 (omega arith)

abbrev four_bytes : Bytes
four_bytes = 1 ∷ 2 ∷ 3 ∷ 4 ∷ []

five_bytes-Begins : Begins (10 ∷ 11 ∷ 12 ∷ 13 ∷ 14 ∷ []) 1 3
five_bytes-Begins = record {
  some_size = omega arith;
  begins = omega arith;
  file_int = omega arith;
  piece_int = omega arith;
  number_int = omega arith;
}

get_piece-set_piece_example :
    (file : Bytes) × (set_piece (10 ∷ 11 ∷ 12 ∷ 13 ∷ 14 ∷ []) four_bytes (pos 1) (pos 3)
      ≡ some (pos 2, file))
    × (get_piece file four_bytes (pos 1) (pos 3) ≡ some (pos 2, 1 ∷ 2 ∷ 3 ∷ 4 ∷ []))
    × (file ≡ 10 ∷ 11 ∷ 12 ∷ 1 ∷ 2 ∷ [])
get_piece-set_piece_example =
    get_piece-set_piece (10 ∷ 11 ∷ 12 ∷ 13 ∷ 14 ∷ []) four_bytes four_bytes 1 3 five_bytes-Begins
      (omega arith) (omega arith)
