-- ===== src/Pool/Scan.antt =====
-- peers_pool.c, its own `find_peer_have_piece`, which no other function calls.
use simpletorrent_nju.Base.{
  ◌≡◌, refl, ℕ, zero, suc, if◌then◌else◌, Bool, Bool-cases, inl, inr, true, false, List, [], ◌∷◌,
  Option, none, some, ℤ, pos, eqb_ℤ, get_elem?,
}
use simpletorrent_nju.Client.{Peer}

-- The peer, NULL at the end of the pool, or an access outside the array; `goes_on` is a loop that does
-- not end within the model's fuel.
pub data Scan : Type 0 where
  found : ℕ → Scan
  not_found : Scan
  fault : Scan
  goes_on : Scan

-- The test of a round; `again` is the next one.
unfoldable pub scan_round : Option ℤ → ℕ → Scan → Scan
scan_round none p again = fault
scan_round (some state) p again = if eqb_ℤ state (pos 1) then found p else again

-- The loop does not go to the next node. It holds no mutex: `heaps r` is what the peers are in round
-- `r`, while other threads write them.
unfoldable pub scan : ℕ → ℕ → (ℕ → ℕ → Peer) → List ℕ → ℕ → Scan
scan zero r heaps nodes index = goes_on
scan (suc f) r heaps [] index = not_found
scan (suc f) r heaps (p ∷ nodes) index =
    scan_round (get_elem? (heaps r p).peer_pieces_state index) p
      (scan f (suc r) heaps (p ∷ nodes) index)

-- Whether the state is 1 in one of `f` rounds from round `r` on.
abbrev pub becomes_one : (ℕ → ℤ) → ℕ → ℕ → Bool
becomes_one states zero r = false
becomes_one states (suc f) r =
    if eqb_ℤ (states r) (pos 1) then true else becomes_one states f (suc r)

scan_from :
    (f r : ℕ) (heaps : ℕ → ℕ → Peer) (p : ℕ) (nodes : List ℕ) (index : ℕ) (states : ℕ → ℤ)
    → ((q : ℕ) → get_elem? (heaps q p).peer_pieces_state index ≡ some (states q))
    → scan f r heaps (p ∷ nodes) index ≡ (if becomes_one states f r then found p else goes_on)
unfolding scan scan_round
scan_from zero r heaps p nodes index states h = refl
scan_from (suc f) r heaps p nodes index states h = elim (Bool-cases (eqb_ℤ (states r) (pos 1))) [
  | inl e ↦ rw (h r) (rw e refl)
  | inr e ↦ rw (h r) (rw e (scan_from f (suc r) heaps p nodes index states h))
]

-- On a pool that is not empty, with whatever the threads write to the states between the rounds: after
-- any number of rounds, the search has found the first peer, where its state for the piece was 1 in one
-- of the rounds, and has not ended else. The other peers are never looked at, and NULL is never returned.
pub scan_stuck :
    (f : ℕ) (heaps : ℕ → ℕ → Peer) (p : ℕ) (nodes : List ℕ) (index : ℕ) (states : ℕ → ℤ)
    → ((q : ℕ) → get_elem? (heaps q p).peer_pieces_state index ≡ some (states q))
    → scan f 0 heaps (p ∷ nodes) index ≡ (if becomes_one states f 0 then found p else goes_on)
scan_stuck f heaps p nodes index states h = scan_from f 0 heaps p nodes index states h
