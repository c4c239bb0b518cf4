-- ===== src/Start.antt =====
-- process_tracker_response.c, the arrays of the pieces that are set up before the exchange with the
-- peers begins.
pub mod States
pub mod Shape
use simpletorrent_nju.Base.{
  ℕ, zero, suc, ◌+◌, ◌/◌, if◌then◌else◌, Bool, true, false, List, [], ◌∷◌, Option, none, some, ℤ,
  pos, ◌+ℤ◌, i32, eqb_ℤ, replicate,
}
use simpletorrent_nju.Bitfield.{get_bit_at_index}
use simpletorrent_nju.Client.{
  Client, Extern, M, get, modify, access, pure, ◌>>=◌, ◌>>◌, piece_completed, piece_havnt,
}
use simpletorrent_nju.Wire.Send.{refresh_bitfield}

-- The state of a piece by its bit; a piece that is not there is counted.
init_state : ℤ → M ℕ
init_state biti = if eqb_ℤ biti (pos 1) then pure piece_completed else (do
  modify λ c. record c { rest_pieces_num = i32 (c.rest_pieces_num +ℤ pos 1) }
  pure piece_havnt)

-- The for loop: the entries of the array from piece `i` on, with `n` rounds left.
unfoldable pub init_states : ℕ → ℤ → ℕ → M (List ℕ)
unfolding init_state
init_states zero bitfield_len i = pure []
init_states (suc n) bitfield_len i = do
  c ← get
  biti ← access (get_bit_at_index c.bitfield (pos i) bitfield_len)
  state ← init_state biti
  states ← init_states n bitfield_len (suc i)
  pure (state ∷ states)

-- `arr` is what `globalInfo.pieces_state_arr` points to, where it is not NULL. The result is the
-- array, or NULL.
unfoldable pub init_pieces_state_arr : Extern → Option (List ℕ) → M (Option (List ℕ))
init_pieces_state_arr x (some arr) = pure none
init_pieces_state_arr x none = do
  modify λ c. record c { rest_pieces_num = pos 0 }
  refresh_bitfield x
  c ← get
  arr ← init_states c.torrent.num_pieces (pos (c.torrent.num_pieces / 8 + 1)) 0
  modify λ c. record c { pieces_state_arr = arr }
  pure (some arr)

unfoldable pub init_pieces_num_in_peers : Option (List ℤ) → M (Option (List ℤ))
init_pieces_num_in_peers (some arr) = pure none
init_pieces_num_in_peers none = do
  c ← get
  let arr = replicate c.torrent.num_pieces (pos 0)
  modify λ c. record c { pieces_num_in_peers = arr }
  pure (some arr)
