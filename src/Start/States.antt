-- ===== src/Start/States.antt =====
-- The states of the pieces at the start are those of the file.
use simpletorrent_nju.Base.{
  ℕ, zero, suc, ◌+◌, ◌/◌, ◌^◌, ◌<◌, if◌then◌else◌, Bool, true, false, ◌≡◌, refl, ap, ◌∙◌, List, [],
  ◌∷◌, none, some, ℤ, pos, ◌+ℤ◌, i32, i32-pos, tabulate_from, arith,
}
use simpletorrent_nju.Bitfield.{get_bit_at_index}
use simpletorrent_nju.Client.{
  Client, Extern, ok, get, pure, modify, bind_ok, ◌>>=◌, ◌>>◌, piece_completed, piece_havnt,
}
use simpletorrent_nju.FileIo.Pieces.{IsWhole, verified, few_pieces}
use simpletorrent_nju.FileIo.Verify.{gen_bitfield-verified}
use simpletorrent_nju.Wire.Send.{refresh_bitfield}
use simpletorrent_nju.Wire.Send.Bits.{refreshed, refresh_bitfield_lem}
use simpletorrent_nju.Start.{init_state, init_states, init_pieces_state_arr}

-- The state of a piece that passes the test or not, and how many do not, of `n` from piece `i` on.
abbrev pub state_of : Bool → ℕ
state_of b = if b then piece_completed else piece_havnt

abbrev pub lacking : (ℕ → Bool) → ℕ → ℕ → ℕ
lacking test i zero = 0
lacking test i (suc n) = (if test i then 0 else 1) + lacking test (suc i) n

init_state_lem :
    (b : Bool) (k : ℕ) (c : Client)
    → c.rest_pieces_num ≡ pos k
    → k + 1 < 2 ^ 31
    → init_state (if b then pos 1 else pos 0) c
      ≡ ok (state_of b) (record c { rest_pieces_num = pos ((if b then 0 else 1) + k) })
unfolding init_state ◌+ℤ◌
init_state_lem true k c e l =
    ap (λ (z : ℤ). ok piece_completed (record c { rest_pieces_num = z })) (e ∙ ap pos (omega arith))
init_state_lem false k c e l =
    ap (λ (z : ℤ). ok piece_havnt (record c { rest_pieces_num = z }))
      (ap (λ (z : ℤ). i32 (z +ℤ pos 1)) e ∙ ap i32 (ground arith) ∙ i32-pos (1 + k) (omega arith))

bound : (b : Bool) (k n : ℕ) → k + suc n < 2 ^ 31 → (if b then 0 else 1) + k + n < 2 ^ 31
bound true k n h = omega arith
bound false k n h = omega arith

module _ (len : ℤ) (test : ℕ → Bool) where
  init_states_lem :
      (n i k : ℕ) (c : Client)
      → c.rest_pieces_num ≡ pos k
      → k + n < 2 ^ 31
      → ((j : ℕ)
          → j < i + n
          → get_bit_at_index c.bitfield (pos j) len ≡ some (if test j then pos 1 else pos 0))
      → init_states n len i c
        ≡ ok
            (tabulate_from i n (λ j. state_of (test j)))
            (record c { rest_pieces_num = pos (k + lacking test i n) })
  unfolding init_states
  init_states_lem zero i k c e l h =
      ap (λ (z : ℤ). ok [] (record c { rest_pieces_num = z })) (e ∙ ap pos (omega arith))
  init_states_lem (suc n) i k c e l h =
      let step = init_state_lem (test i) k c e (omega arith) in
      let c₁ = record c { rest_pieces_num = pos ((if test i then 0 else 1) + k) } in
      let ih =
        init_states_lem n (suc i) ((if test i then 0 else 1) + k) c₁ refl (bound (test i) k n l)
          (λ j m. h j (omega arith)) in
      rw (h i (omega arith)) (
        bind_ok (init_state (if test i then pos 1 else pos 0))
          (λ state. do states ← init_states n len (suc i); pure (state ∷ states)) c step
        ∙ bind_ok (init_states n len (suc i)) (λ states. pure (state_of (test i) ∷ states)) c₁ ih
        ∙ ap
            (λ (m : ℕ).
              ok (tabulate_from i (suc n) (λ j. state_of (test j)))
                (record c { rest_pieces_num = pos m }))
            (omega arith))

-- Where the torrent has one file that is on the disk at its full size, and the array was not
-- there yet, `init_pieces_state_arr` returns and sets an array with one entry for each piece:
-- PIECE_COMPLETED where the bytes of the piece in the file have the hash of the torrent, and
-- PIECE_HAVNT else. `rest_pieces_num` is the number of the latter.
pub init_pieces_state_arr-verified :
    (x : Extern) (c : Client)
    → IsWhole c.torrent c.file
    → (arr : List ℕ) × (c' : Client) × (init_pieces_state_arr x none c ≡ ok (some arr) c')
      × (c'.pieces_state_arr ≡ arr)
      × (arr
          ≡ tabulate_from 0 c.torrent.num_pieces
              (λ i. if verified x c.torrent c.file i then piece_completed else piece_havnt))
      × (c'.rest_pieces_num ≡ pos (lacking (verified x c.torrent c.file) 0 c.torrent.num_pieces))
unfolding init_pieces_state_arr
init_pieces_state_arr-verified x c v =
    let c₀ = record c { rest_pieces_num = pos 0 } in
    let (bits, total, gen, size, bit, zeros) = gen_bitfield-verified x c₀ v in
    let c₁ = refreshed bits total c₀ in
    let n = c.torrent.num_pieces in
    let len = pos (n / 8 + 1) in
    let run =
      init_states_lem len (verified x c.torrent c.file) n 0 0 c₁ refl
        (omega (arith, few_pieces x c.torrent c.file v)) (λ j l. bit j (omega arith)) in
    let arr = tabulate_from 0 n (λ j. state_of (verified x c.torrent c.file j)) in
    (
      arr,
      _,
      bind_ok (refresh_bitfield x)
            (λ u. do
              c ← get
              arr ← init_states c.torrent.num_pieces (pos (c.torrent.num_pieces / 8 + 1)) 0
              modify λ c. record c { pieces_state_arr = arr }
              pure (some arr))
            c₀ (refresh_bitfield_lem x c₀ bits total gen)
          ∙ bind_ok (init_states n len 0)
              (λ arr. do modify λ c. record c { pieces_state_arr = arr }; pure (some arr)) c₁ run,
      refl,
      refl,
      ap pos (omega arith),
    )
