-- ===== src/Start/Shape.antt =====
-- `init_pieces_state_arr` and `init_pieces_num_in_peers` set up arrays with an entry for each piece.
use simpletorrent_nju.Base.{
  ◌≡◌, refl, sym, ap, subst, ◌∙◌, ℕ, zero, suc, ◌<◌, ◌+◌, ◌/◌, [], ◌∷◌, none, ℤ, pos, length,
  length-replicate, eqb_ℤ, arith,
}
use simpletorrent_nju.Bitfield.{get_bit_at_index}
use simpletorrent_nju.Client.{Client, Extern, pure, ◌>>=◌, piece_completed, piece_havnt}
use simpletorrent_nju.Client.Frame.{
  IsAlike-refl, After, comes_back, After-access, After-bind, Keeps, Keeps-bind, Keeps-pure,
  Keeps-step, Keeps-if,
}
use simpletorrent_nju.Client.Preserves.{Leaves, leaves, Leaves-After}
use simpletorrent_nju.Pool.Shape.{IsShaped, same_pool, same_next, same_num}
use simpletorrent_nju.Wire.Send.{refresh_bitfield}
use simpletorrent_nju.Start.{
  init_state, init_states, init_pieces_state_arr, init_pieces_num_in_peers,
}
use simpletorrent_nju.Wire.Send.Frame.{refresh_bitfield-Keeps}

init_state-Keeps : (biti : ℤ) → Keeps (Unit {0}) (init_state biti)
unfolding init_state
init_state-Keeps biti = Keeps-if (eqb_ℤ biti (pos 1)) (Keeps-pure piece_completed) (
    Keeps-bind (Keeps-step _ λ c. record { same_frame = refl; same_peers = λ q. refl })
      λ _. Keeps-pure piece_havnt)

none_below : (p : ℕ) → p < 0 → ⊥
none_below p l = omega arith

-- the array has an entry for each round
init_states-After :
    (n : ℕ) (len : ℤ) (i : ℕ) (c : Client)
    → After (Unit {0}) (λ states. length states ≡ n) c (init_states n len i c)
unfolding init_states
init_states-After zero len i c = comes_back IsAlike-refl refl
init_states-After (suc n) len i c =
    After-access (get_bit_at_index c.bitfield (pos i) len)
      (λ biti. do
        state ← init_state biti
        states ← init_states n len (suc i)
        pure (state ∷ states))
      (λ _. tt)
      λ biti _. After-bind (init_state biti) ((init_state-Keeps biti).run c) λ state c₁ _ _.
        After-bind (init_states n len (suc i)) (init_states-After n len (suc i) c₁)
          λ states c₂ _ e. comes_back IsAlike-refl (ap suc e)

-- No peer has been made yet; and the array of states is there.
abbrev pub IsFresh : Client → Type 0
IsFresh c = (c.pool ≡ []) × (c.next_peer ≡ 0)

abbrev pub HasStates : Client → Type 0
HasStates c = IsFresh c × (length c.pieces_state_arr ≡ c.torrent.num_pieces)

pub init_pieces_state_arr-HasStates :
    (x : Extern) (c : Client) → IsFresh c → Leaves HasStates (init_pieces_state_arr x none c)
unfolding init_pieces_state_arr
init_pieces_state_arr-HasStates x c (e, f) =
    Leaves-After (refresh_bitfield x)
      ((refresh_bitfield-Keeps x).run (record c { rest_pieces_num = pos 0 }))
      λ _ c₂ a _.
        Leaves-After (init_states c₂.torrent.num_pieces (pos (c₂.torrent.num_pieces / 8 + 1)) 0)
          (init_states-After c₂.torrent.num_pieces _ 0 c₂)
          λ arr c₃ a' n. leaves (
            (same_pool a' ∙ same_pool a ∙ e, same_next a' ∙ same_next a ∙ f),
            n ∙ sym (same_num a'),
          )

pub init_pieces_num_in_peers-IsShaped :
    (c : Client) → HasStates c → Leaves IsShaped (init_pieces_num_in_peers none c)
unfolding init_pieces_num_in_peers
init_pieces_num_in_peers-IsShaped c ((e, f), n) = leaves (record {
  fits = record {
    states = n;
    nums = length-replicate c.torrent.num_pieces (pos 0);
    peers = λ p l. absurd (none_below p (subst (λ k. p < k) f l));
  };
  proper = record { given_out = rw e tt; distinct = rw e tt };
})
