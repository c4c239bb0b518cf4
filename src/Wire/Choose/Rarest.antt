-- ===== src/Wire/Choose/Rarest.antt =====
-- `which_piece_to_request` chooses the rarest piece that can be had.
use simpletorrent_nju.Base.{
  ℕ, ◌+◌, ◌-◌, ◌<◌, ◌≤◌, ◌≡◌, ◌⊎◌, inl, inr, ap, sym, ◌∙◌, List, some, ℤ, pos, negsuc, ◌≤ℤ◌, ◌<ℤ◌,
  get_elem?, drop, length, length-drop, get_elem?-drop, arith, dec_lt,
}
use simpletorrent_nju.Client.{Client, ok}
use simpletorrent_nju.Wire.Choose.{first_wanted, which_piece_to_request}
use simpletorrent_nju.Wire.Choose.Loops.{
  Wanted, First, nothing, found, first_wanted-First, Least, keeps, improves, least_wanted-Least,
}

-- The answer of the least-first strategy.
pub record IsRarest (states : List ℕ) (nums : List ℤ) (m : ℕ) : Type 0 where
  pub owners : ℤ
  pub can_be_had : Wanted states nums m owners
  pub rarest : (j : ℕ) (u : ℤ) → Wanted states nums j u → owners ≤ℤ u
  pub first : (j : ℕ) (u : ℤ) → j < m → Wanted states nums j u → owners <ℤ u

module _ {states : List ℕ} {nums : List ℤ} (m : ℕ) where
  Wanted-drop :
      (k : ℕ) (v : ℤ) → Wanted (drop m states) (drop m nums) k v → Wanted states nums (m + k) v
  Wanted-drop k v w = record {
    lacked = sym (get_elem?-drop m k states) ∙ w.lacked;
    owners = sym (get_elem?-drop m k nums) ∙ w.owners;
    some_owner = w.some_owner;
  }

  Wanted-drop_inv :
      (j : ℕ) (v : ℤ)
      → m ≤ j
      → Wanted states nums j v
      → Wanted (drop m states) (drop m nums) (j - m) v
  Wanted-drop_inv j v le w =
      let e : m + (j - m) ≡ j = omega arith in
      record {
        lacked = get_elem?-drop m (j - m) states ∙ ap (get_elem? states) e ∙ w.lacked;
        owners = get_elem?-drop m (j - m) nums ∙ ap (get_elem? nums) e ∙ w.owners;
        some_owner = w.some_owner;
      }

  module _ (v : ℤ) (w : Wanted states nums m v)
      (before : (j : ℕ) (u : ℤ) → j < m → Wanted states nums j u → ⊥) where
    from_m :
        (b : ℤ)
        → ((j : ℕ) (u : ℤ) → Wanted (drop m states) (drop m nums) j u → b ≤ℤ u)
        → (j : ℕ) (u : ℤ) → Wanted states nums j u
        → b ≤ℤ u
    from_m b all j u h = elim (dec_lt j m) [
      | yes lt ↦ absurd (before j u lt h)
      | no ge ↦ all (j - m) u (Wanted-drop_inv j u (omega arith) h)
    ]

    before_m :
        (b : ℤ) (k : ℕ)
        → ((j : ℕ) (u : ℤ) → j < k → Wanted (drop m states) (drop m nums) j u → b <ℤ u)
        → (j : ℕ) (u : ℤ) → j < m + k
        → Wanted states nums j u
        → b <ℤ u
    before_m b k all j u lt h = elim (dec_lt j m) [
      | yes below ↦ absurd (before j u below h)
      | no ge ↦ all (j - m) u (omega arith) (Wanted-drop_inv j u (omega arith) h)
    ]

    Least-IsRarest : {r : ℕ} → Least m (drop m states) (drop m nums) m v r → IsRarest states nums r
    Least-IsRarest (keeps e all) = rw e (record {
      owners = v;
      can_be_had = w;
      rarest = from_m v all;
      first = λ j u lt h. absurd (before j u lt h);
    })
    Least-IsRarest (improves k b e have lt all below) = rw e (record {
      owners = b;
      can_be_had = Wanted-drop k b have;
      rarest = from_m b all;
      first = before_m b k below;
    })

-- Where the two arrays have an entry for each piece, `which_piece_to_request` changes nothing and
-- returns -1 exactly when no piece that we lack is had by a peer; otherwise it returns such a piece
-- that the fewest peers have, and among those the one with the least index.
pub which_piece_to_request-IsRarest :
    (c : Client)
    → length c.pieces_state_arr ≡ c.torrent.num_pieces
    → length c.pieces_num_in_peers ≡ c.torrent.num_pieces
    → ((which_piece_to_request c ≡ ok (negsuc 0) c)
        × ((j : ℕ) (v : ℤ) → ¬ Wanted c.pieces_state_arr c.pieces_num_in_peers j v))
      ⊎ ((m : ℕ) × (which_piece_to_request c ≡ ok (pos m) c)
          × IsRarest c.pieces_state_arr c.pieces_num_in_peers m)
unfolding which_piece_to_request
which_piece_to_request-IsRarest c e f =
    let (m, eq, r) =
      first_wanted-First c.torrent.num_pieces 0 c.pieces_state_arr c.pieces_num_in_peers e f in
    chosen m eq r
  where
    chosen :
        (m : ℕ)
        → first_wanted c.torrent.num_pieces 0 c.pieces_state_arr c.pieces_num_in_peers ≡ some m
        → First c.torrent.num_pieces 0 c.pieces_state_arr c.pieces_num_in_peers m
        → ((which_piece_to_request c ≡ ok (negsuc 0) c)
            × ((j : ℕ) (v : ℤ) → ¬ Wanted c.pieces_state_arr c.pieces_num_in_peers j v))
          ⊎ ((m : ℕ) × (which_piece_to_request c ≡ ok (pos m) c)
              × IsRarest c.pieces_state_arr c.pieces_num_in_peers m)
    chosen m eq (nothing end none_wanted) = inl (ground arith, none_wanted)
    chosen m eq (found k v lt at w before) =
        let at_m : k ≡ m = omega arith in
        let w_m : Wanted c.pieces_state_arr c.pieces_num_in_peers m v = rw (← at_m) w in
        let (r, least, l) =
          least_wanted-Least (c.torrent.num_pieces - m) m (drop m c.pieces_state_arr)
            (drop m c.pieces_num_in_peers) m v (length-drop m c.pieces_state_arr ∙ omega arith)
            (length-drop m c.pieces_num_in_peers ∙ omega arith) in
        inr (
          r,
          ground (arith, eq, least, w_m.owners),
          Least-IsRarest m v w_m (λ j u h. before j u (omega arith)) l,
        )
