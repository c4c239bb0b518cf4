-- ===== src/Wire/Handlers/Piece.antt =====
-- What a block that comes in does to the piece that it belongs to.
use simpletorrent_nju.Base.{
  ℕ, ◌+◌, ◌*◌, ◌/◌, ◌<◌, if◌then◌else◌, Bool, true, false, Bool-cases, ◌≡◌, ◌↔◌, inl, inr, refl,
  sym, ap, ◌∙◌, ◌∷◌, Option, some, Bytes, ℤ, pos, All, get_at, set, length, arith,
}
use simpletorrent_nju.Bitfield.{get_bit_at_index}
use simpletorrent_nju.Client.{
  Client, Extern, ok, access, bind_ok, piece_completed, pure, ◌>>=◌, ◌>>◌,
}
use simpletorrent_nju.FileIo.{set_block}
use simpletorrent_nju.FileIo.Blocks.{IsInside, get_block-set_block}
use simpletorrent_nju.FileIo.Pieces.{IsWhole, verified}
use simpletorrent_nju.FileIo.Verify.{gen_bitfield-verified}
use simpletorrent_nju.Wire.Send.{refresh_bitfield}
use simpletorrent_nju.Wire.Handlers.{
  end_game_block, complete_piece, by_bit, look_up, check_piece, handle_piece,
}
use simpletorrent_nju.Wire.Send.Bits.{refreshed, refresh_bitfield_lem}
use simpletorrent_nju.Wire.Handlers.Complete.{
  Knows, seed_flag, all_set_lem, completed, complete_piece_lem,
}

module _ (index : ℕ) where
  module _ (x : Extern) where
    -- All pieces of the file have the right hash.
    abbrev pub AllVerified : Client → Type 0
    AllVerified c = (j : ℕ) → j < c.torrent.num_pieces → verified x c.torrent c.file j ≡ true

    -- What the check makes of the state: the piece is completed where it has the right hash, and the
    -- client is a seed where every piece has.
    pub record Checked (c c' : Client) : Type 0 where
      pub file : c'.file ≡ c.file
      pub states : c'.pieces_state_arr ≡ (
          if verified x c.torrent c.file index
          then set c.pieces_state_arr index piece_completed
          else c.pieces_state_arr)
      pub seed :
          c.isseed ≡ false
          → (c'.isseed ≡ true) ↔ ((verified x c.torrent c.file index ≡ true) × AllVerified c)

    look_up_lem :
        (p : ℕ) (c : Client) (b : Bool)
        → get_bit_at_index c.bitfield (pos index) (pos (c.torrent.num_pieces / 8 + 1))
          ≡ some (if b then pos 1 else pos 0)
        → look_up p (pos index) c
          ≡ (if b
                then complete_piece p (pos index) (pos (c.torrent.num_pieces / 8 + 1))
                else pure (pos 1))
              c
    unfolding look_up by_bit
    look_up_lem p c true e =
        ap
          (λ (o : Option ℤ).
            (access o >>= by_bit p (pos index) (pos (c.torrent.num_pieces / 8 + 1))) c)
          e
    look_up_lem p c false e =
        ap
          (λ (o : Option ℤ).
            (access o >>= by_bit p (pos index) (pos (c.torrent.num_pieces / 8 + 1))) c)
          e

    check_piece_lem :
        (p : ℕ) (c : Client)
        → IsWhole c.torrent c.file
        → index < c.torrent.num_pieces
        → length c.pieces_state_arr ≡ c.torrent.num_pieces
        → All (Knows c.heap index) c.pool
        → Knows c.heap index p
        → (c' : Client) × (check_piece x p (pos index) c ≡ ok (pos 1) c') × Checked c c'
    unfolding check_piece
    check_piece_lem p c v lt e h k =
        let (bits, total, gen, size, bit, zeros) = gen_bitfield-verified x c v in
        let c₁ = refreshed bits total c in
        let len = pos (c.torrent.num_pieces / 8 + 1) in
        let (b, all, whole) =
          all_set_lem bits len (verified x c.torrent c.file) c.torrent.num_pieces 0
            (λ j l. bit j (omega arith)) in
        let run =
          bind_ok (refresh_bitfield x) (λ u. look_up p (pos index)) c
            (refresh_bitfield_lem x c bits total gen)
          ∙ look_up_lem p c₁ (verified x c.torrent c.file index) (bit index lt) in
        elim (Bool-cases (verified x c.torrent c.file index)) [
          | inl t ↦
              let (o, s, f) = complete_piece_lem index p len c₁ b (omega arith) h k all in
              (
                completed index o s p b c₁,
                run ∙ rw t f,
                record {
                  file = refl;
                  states = rw t refl;
                  seed = λ fresh. (
                    (λ eq. (
                      t,
                      λ j l. whole.0 (seed_flag b c.isseed fresh eq) j (omega arith) (omega arith),
                    )),
                    (λ every. rw (whole.1 λ j l m. every.1 j (omega arith)) refl),
                  );
                },
              )
          | inr f ↦ (
            c₁,
            run ∙ rw f refl,
            record {
              file = refl;
              states = rw f refl;
              seed = λ fresh. ((λ eq. cc (sym fresh ∙ eq)), (λ every. cc (sym f ∙ every.0)));
            },
          )
        ]

-- A block that lies inside the file, for a piece of the torrent, outside the end game, where
-- the torrent has one file that is on the disk at its full size, the array of states has an
-- entry for each piece, and this connection and those of the pool have an entry for this
-- piece. The block is written as `set_block` does, the handler returns 1, and nothing behind
-- that changes the file. Afterwards the state of the piece is completed where its bytes in the
-- file have the hash of the torrent, and the states of all pieces are kept where they have
-- not. A client that was no seed has become one exactly where this piece and all others have
-- their hashes then.
pub handle_piece-verified :
    (x : Extern) (c : Client) (connfd p index begin : ℕ) (block : Bytes)
    → c.is_end_game ≡ false
    → IsWhole c.torrent c.file
    → IsInside c.torrent c.file (index * c.torrent.piece_len + begin) (length block)
    → index < c.torrent.num_pieces
    → length c.pieces_state_arr ≡ c.torrent.num_pieces
    → All (Knows c.heap index) (p ∷ c.pool)
    → (file : Bytes) × (c' : Client) × (set_block
          (pos index)
          (pos begin)
          (pos (length block))
          block
          c
        ≡ ok (pos (length block)) (record c { file = file }))
      × (handle_piece x connfd p (pos index) (pos begin) (pos (length block)) block c
          ≡ ok (pos 1) c')
      × Checked index x (record c { file = file }) c'
unfolding handle_piece
handle_piece-verified x c connfd p index begin block g v i lt e h =
    let (file, w, r, len, keeps) = get_block-set_block c index begin block block i refl in
    let c₁ = record c { file = file } in
    let v₁ : IsWhole c.torrent file = record {
      one_file = v.one_file;
      has_pieces = v.has_pieces;
      last_begins = v.last_begins;
      last_ends = v.last_ends;
      fits_int = v.fits_int;
      hashes = v.hashes;
      on_disk = omega (arith, v.on_disk, len);
    } in
    let (c', f, checked) = check_piece_lem index x p c₁ v₁ lt e (h.1) (h.0) in
    (
      file,
      c',
      w,
      ap
            (λ (b : Bool).
              (if b
                  then (do
                    state ← access (get_at c.pieces_state_arr (pos index))
                    end_game_block x connfd p (pos index) (pos begin) (pos (length block)) block
                        state)
                  else (do
                    set_block (pos index) (pos begin) (pos (length block)) block
                    check_piece x p (pos index)))
                c)
            g
          ∙ (bind_ok (set_block (pos index) (pos begin) (pos (length block)) block)
                (λ r. check_piece x p (pos index)) c w
              ∙ f),
      checked,
    )
