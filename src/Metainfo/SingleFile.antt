-- ===== src/Metainfo/SingleFile.antt =====
-- What the parser takes from the metainfo of a single file, as it is usually written.
use simpletorrent_nju.Base.{
  ◌≡◌, refl, ◌∙◌, ℕ, ◌+◌, ◌-◌, ◌*◌, ◌^◌, ◌<◌, false, [], ◌∷◌, ◌++◌, some, Bytes, pos, signed32,
  arith, length, map,
}
use simpletorrent_nju.Client.{Extern}
use simpletorrent_nju.Text.{strstr, until_zero}
use simpletorrent_nju.Wire.Handshake.{codes}
use simpletorrent_nju.Bencode.{Fields, be_str, be_dict, field, no_fields}
use simpletorrent_nju.Bencode.Values.{
  Value, Entries, str, int, list, dict, entry, no_entries, emit, node_of, fields_of, IsSized,
}
use simpletorrent_nju.Bencode.RoundTrip.{be_decoden-emit}
use simpletorrent_nju.Tracker.Run.{ok, ◌>>=◌}
use simpletorrent_nju.Metainfo.{
  is_key, Meta, meta_fields, fresh_meta, meta_of, parsetorrentfile, set_info, set_announce,
}
use simpletorrent_nju.Metainfo.Rounds.{
  piece_count, info_text_found, pieces_of-pos, length_round, name_round, piece_len_round,
  pieces_round, end_round,
}

abbrev pub info : Bytes → ℕ → ℕ → Bytes → Value
info name l p hashes = dict (codes "length") (int (pos l)) (
    entry (codes "name") (str name)
      (entry (codes "piece length") (int (pos p)) (entry (codes "pieces") (str hashes) no_entries)))

-- Two runs of pairs, one behind the other.
unfoldable pub chain : Entries → Entries → Entries
chain no_entries more = more
chain (entry k v es) more = entry k v (chain es more)

-- No key begins with `announce` or with `info`: `created by`, `creation date`, `comment` and the like.
abbrev pub AreOther : Entries → Type 0
AreOther no_entries = Unit {0}
AreOther (entry k v es) =
    (is_key k (codes "announce") ≡ false) × (is_key k (codes "info") ≡ false) × AreOther es

abbrev pub file : Bytes → Entries → Bytes → ℕ → ℕ → Bytes → Value
file url between name l p hashes =
    dict (codes "announce") (str url)
      (chain between (entry (codes "info") (info name l p hashes) no_entries))

-- the conditions on the values of a file
pub record IsUsual (name hashes : Bytes) (l p : ℕ) : Type 0 where
  pub bounded : l < 2 ^ 31 - 1
  pub divisor : 0 < p
  pub bounded_piece : p < 2 ^ 31
  pub whole : length hashes ≡ piece_count l p * 20
  pub fits : length (until_zero name) < 80

info_fields-info :
    (x : Extern) (name hashes : Bytes) (l p : ℕ) (t : Meta)
    → IsUsual name hashes l p
    → x.junk 0 ≡ 0
    → set_info x (codes "info") (node_of (info name l p hashes)) t
      ≡ ok (record t {
        len = pos l;
        name = until_zero name;
        filename = until_zero name;
        begin_index = pos 0;
        size = pos l;
        piece_len = pos p;
        num_pieces = pos (piece_count l p);
        pieces = hashes;
        filled = t.filled + 1 + 1 + 1 + 1;
      })
unfolding set_info node_of
info_fields-info x name hashes l p t usual zeroed =
    length_round x t l _ (omega (arith, usual.bounded))
    ∙ (name_round x _ name _ usual.fits zeroed
        ∙ (piece_len_round x _ p _ usual.bounded_piece
            ∙ (pieces_round x _ hashes (piece_count l p) _
                  (pieces_of-pos l p usual.bounded usual.divisor) usual.whole
                ∙ end_round x _ zeroed)))

announce_round :
    (x : Extern) (url : Bytes) (vs : Fields) (t : Meta)
    → meta_fields x (field (some (codes "announce")) (be_str (some url)) vs) t
      ≡ meta_fields x vs (record t {
        announce = until_zero url;
        filled = t.filled + 1;
        overruns = t.overruns + (length url + 1 - length (until_zero url));
      })
unfolding meta_fields set_announce set_info
announce_round x url vs t = refl

info_round :
    (x : Extern) (vs ws : Fields) (t : Meta) {t' : Meta}
    → set_info x (codes "info") (be_dict vs) t ≡ ok t'
    → meta_fields x (field (some (codes "info")) (be_dict vs) ws) t ≡ meta_fields x ws t'
unfolding meta_fields set_announce
info_round x vs ws t e = rw (e, ◌>>=◌)

no_more : (x : Extern) (t : Meta) → meta_fields x no_fields t ≡ ok t
unfolding meta_fields
no_more x t = refl

-- a pair with another key changes nothing
other_round :
    (x : Extern) (k : Bytes) (v : Value) (vs : Fields) (t : Meta)
    → is_key k (codes "announce") ≡ false
    → is_key k (codes "info") ≡ false
    → meta_fields x (field (some k) (node_of v) vs) t ≡ meta_fields x vs t
unfolding meta_fields set_announce set_info node_of
other_round x k (str s) vs t h h' = rw (h, ◌>>=◌) (rw (h', ◌>>=◌))
other_round x k (int z) vs t h h' = rw (h, ◌>>=◌) (rw (h', ◌>>=◌))
other_round x k (list v ws) vs t h h' = rw (h, ◌>>=◌) (rw (h', ◌>>=◌))
other_round x k (dict k' v es) vs t h h' = rw (h, ◌>>=◌) (rw (h', ◌>>=◌))

others_skipped :
    (x : Extern) (es more : Entries) (t : Meta)
    → AreOther es
    → meta_fields x (fields_of (chain es more)) t ≡ meta_fields x (fields_of more) t
unfolding chain fields_of
others_skipped x no_entries more t h = refl
others_skipped x (entry k v es) more t h =
    other_round x k v (fields_of (chain es more)) t (h.0) (h.1) ∙ others_skipped x es more t (h.2)

meta_fields-file :
    (x : Extern) (url : Bytes) (between : Entries) (name hashes : Bytes) (l p : ℕ) (t : Meta)
    → AreOther between
    → IsUsual name hashes l p
    → x.junk 0 ≡ 0
    → meta_fields x
        (field
          (some (codes "announce"))
          (be_str (some url))
          (fields_of (chain between (entry (codes "info") (info name l p hashes) no_entries))))
        t
      ≡ ok (record t {
        announce = until_zero url;
        len = pos l;
        name = until_zero name;
        filename = until_zero name;
        begin_index = pos 0;
        size = pos l;
        piece_len = pos p;
        num_pieces = pos (piece_count l p);
        pieces = hashes;
        filled = t.filled + 1 + 1 + 1 + 1 + 1;
        overruns = t.overruns + (length url + 1 - length (until_zero url));
      })
unfolding node_of fields_of
meta_fields-file x url between name hashes l p t others usual zeroed =
    announce_round x url _ t
    ∙ (others_skipped x between (entry (codes "info") (info name l p hashes) no_entries) _ others
        ∙ (info_round x _ no_fields _ (info_fields-info x name hashes l p _ usual zeroed)
            ∙ no_more x _))

-- A metainfo file of a single file: a dictionary of the announce URL, then pairs whose keys begin with
-- neither `announce` nor `info`, and the info as its last pair, which has exactly the length (less than
-- 2^31 - 1), the name (less than 80 bytes up to its zero), the piece length (positive, less than 2^31)
-- and the hashes, 20 bytes for each piece, in this order. The lengths of strings and the numbers fit the
-- decoder's, its fuel is more than the file is long, the first place where `infod` stands is that of the
-- info, and fresh memory begins with a zero. Then the parser takes the fields, the number of pieces
-- rounded up, and the SHA-1 of exactly the bytes of the info dictionary. It writes at least one byte
-- behind the block for the URL.
pub parsetorrentfile-file :
    (x : Extern) (url : Bytes) (between : Entries) (name hashes front : Bytes) (l p f : ℕ)
    → AreOther between
    → IsSized (file url between name l p hashes)
    → length (emit (file url between name l p hashes)) < f
    → IsUsual name hashes l p
    → x.junk 0 ≡ 0
    → strstr (emit (file url between name l p hashes)) (codes "infod")
      ≡ some (front, codes "info" ++ (emit (info name l p hashes) ++ 101 ∷ []))
    → parsetorrentfile x f (emit (file url between name l p hashes))
      ≡ ok (
          some (record {
            info_hash = map signed32 (x.sha1 (emit (info name l p hashes)));
            announce = until_zero url;
            len = pos l;
            name = until_zero name;
            filename = until_zero name;
            begin_index = pos 0;
            size = pos l;
            piece_len = pos p;
            num_pieces = pos (piece_count l p);
            pieces = hashes;
            filled = 5;
            overruns = length url + 1 - length (until_zero url);
          }))
unfolding parsetorrentfile
parsetorrentfile-file x url between name hashes front l p f others sized fuel usual zeroed found =
    let v = file url between name l p hashes in
    let decoded = be_decoden-emit v f sized fuel in
    let text = info_text_found (emit v) front (emit (info name l p hashes)) found in
    let fields =
      meta_fields-file x url between name hashes l p (fresh_meta x (emit (info name l p hashes)))
        others usual zeroed in
    let n = length url + 1 - length (until_zero url) in
    let e : 0 + n ≡ n = omega arith in
    rw decoded (unfold meta_of node_of in rw text (rw (fields, ◌>>=◌) (unfold fresh_meta in rw e)))
