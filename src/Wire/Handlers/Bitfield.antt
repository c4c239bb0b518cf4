-- ===== src/Wire/Handlers/Bitfield.antt =====
-- `handle_bitfield`: what the client notes of the bitfield that a peer sends.
use mathlib.Core.Option.{map}
use simpletorrent_nju.Base.{
  ◌≡◌, refl, ap, ◌∙◌, ℕ, zero, suc, ◌<◌, ◌≤◌, ◌+◌, ◌*◌, ◌/◌, ◌==◌, lt→ltb, Bool, true, false,
  if◌then◌else◌, Bytes, ℤ, pos, i32, ◌+ℤ◌, eqb_ℤ, length, get_elem?, get_elem?-lt, arith, ==_refl,
}
use simpletorrent_nju.Bitfield.Laws.{bit_of, get_bit-bit_of}
use simpletorrent_nju.Client.{Client, Outcome, ok, fault, ◌>>◌, when, piece_havnt, peer_have}
use simpletorrent_nju.Pool.{peer_have_piece}
use simpletorrent_nju.Pool.Shape.{IsFitting}
use simpletorrent_nju.Wire.Handlers.{open_up, bitfield_round, bitfield_loop, handle_bitfield}
use simpletorrent_nju.Wire.Handlers.Walk.{adjust, walk, length-step, adjust-set, walk-map}
use simpletorrent_nju.Wire.Handlers.Quiet.{
  View, view, Shows, shows, Does, Does-bind, Does-weaken, Quiet-when, Quiet-open_up,
}

abbrev to_have : ℤ → ℤ
to_have k = peer_have

abbrev one_more : ℤ → ℤ
one_more k = i32 (k +ℤ pos 1)

abbrev walked : Bytes → ℕ → ℕ → View → View
walked bits n i v = record v {
  peer = walk to_have bits n i v.peer;
  nums = walk one_more bits n i v.nums;
}

-- The three arrays have more than `k` entries.
record IsLong (k : ℕ) (v : View) : Type 0 where
  peers_long : k ≤ length v.peer
  nums_long : k ≤ length v.nums
  states_long : k ≤ length v.states

module _ (p : ℕ) where
  Does-peer_have_piece :
      (i : ℕ)
      → Does p
          (IsLong (suc i))
          (λ v. record v { peer = adjust to_have i v.peer; nums = adjust one_more i v.nums })
          (peer_have_piece p i)
  unfolding peer_have_piece
  Does-peer_have_piece i = record {
    run = λ c l.
        let (x, e) = get_elem?-lt (c.heap p).peer_pieces_state i (l.peers_long) in
        let (y, u) = get_elem?-lt c.pieces_num_in_peers i (l.nums_long) in
        rw (lt→ltb i (length (c.heap p).peer_pieces_state) l.peers_long, u)
          (shows (rw (==_refl p, adjust-set to_have i _ e, adjust-set one_more i _ u) refl));
  }

  module _ (connfd : ℕ) (bits : Bytes) where
    abbrev marked : ℕ → Bool → View → View
    marked i b v = record v {
      peer = if b then adjust to_have i v.peer else v.peer;
      nums = if b then adjust one_more i v.nums else v.nums;
    }

    Does-mark :
        (i : ℕ) (b new : Bool)
        → Does p (IsLong (suc i)) (marked i b) (
            when
              (eqb_ℤ (if b then pos 1 else pos 0) (pos 1))
              (do peer_have_piece p i; when new (open_up connfd p)))
    Does-mark i true new =
        Does-bind p (Does-peer_have_piece i) (λ v l. tt)
          λ _. Quiet-when p new (Quiet-open_up p connfd)
    Does-mark i false new = record { run = λ c l. shows refl }

    Does-bitfield_round :
        (i : ℕ)
        → i / 8 < length bits
        → Does p
            (IsLong (suc i))
            (marked i (bit_of bits i))
            (bitfield_round connfd p bits (pos (length bits)) i)
    unfolding bitfield_round
    Does-bitfield_round i h = record {
      run = λ c l.
          let (x, e) = get_elem?-lt c.pieces_state_arr i l.states_long in
          rw (e, get_bit-bit_of bits i h)
            ((Does-mark i (bit_of bits i) (x == piece_havnt)).run c l);
    }

    IsLong-marked : (i k : ℕ) (b : Bool) (v : View) → IsLong k v → IsLong k (marked i b v)
    IsLong-marked i k b v l = record {
      peers_long = rw (length-step to_have b i v.peer) l.peers_long;
      nums_long = rw (length-step one_more b i v.nums) l.nums_long;
      states_long = l.states_long;
    }

    IsLong-le : (m k : ℕ) (v : View) → m ≤ k → IsLong k v → IsLong m v
    IsLong-le m k v h l = record {
      peers_long = let a = l.peers_long in omega arith;
      nums_long = let a = l.nums_long in omega arith;
      states_long = let a = l.states_long in omega arith;
    }

    Does-bitfield_loop :
        (n i : ℕ)
        → i + n ≤ 8 * length bits
        → Does p
            (IsLong (i + n))
            (walked bits n i)
            (bitfield_loop n connfd p bits (pos (length bits)) i)
    unfolding bitfield_loop walk
    Does-bitfield_loop zero i h = record { run = λ c l. shows refl }
    Does-bitfield_loop (suc n) i h =
        Does-bind p
          (Does-weaken p (λ v l. IsLong-le (suc i) (i + suc n) v (omega arith) l)
            (Does-bitfield_round i (omega arith)))
          (λ v l.
            IsLong-marked i (i + 1 + n) (bit_of bits i) v
              (IsLong-le (i + 1 + n) (i + suc n) v (omega arith) l))
          λ _. Does-bitfield_loop n (i + 1) (omega arith)

-- What the client has noted: the state `c'` behind the call, against `c`.
pub record IsNotedIn (p : ℕ) (bits : Bytes) (c c' : Client) : Type 0 where
  pub same_states : c'.pieces_state_arr ≡ c.pieces_state_arr
  pub peer_states :
      (j : ℕ)
      → get_elem? (c'.heap p).peer_pieces_state j
        ≡ map
            (λ a. if bit_of bits j then peer_have else a)
            (get_elem? (c.heap p).peer_pieces_state j)
  pub peer_numbers :
      (j : ℕ)
      → get_elem? c'.pieces_num_in_peers j
        ≡ map
            (λ m. if bit_of bits j then i32 (m +ℤ pos 1) else m)
            (get_elem? c.pieces_num_in_peers j)

-- The call comes back with such a state.
pub data IsNoted (p : ℕ) (bits : Bytes) (c : Client) : Outcome (Unit {0}) → Type 0 where
  notes : {c' : Client} → IsNotedIn p bits c c' → IsNoted p bits c (ok tt c')

notes_of :
    (p : ℕ) (bits : Bytes) (c : Client) (o : Outcome (Unit {0}))
    → IsFitting c
    → p < c.next_peer
    → Shows p (walked bits c.torrent.num_pieces 0 (view p c)) o
    → IsNoted p bits c o
notes_of p bits c (ok tt c') fit h (shows e) = notes record {
  same_states = ap (λ w. w.states) e;
  peer_states = λ j.
      ap (λ w. get_elem? w.peer j) e
      ∙ walk-map to_have bits c.torrent.num_pieces _ j (fit.peers p h);
  peer_numbers = λ j.
      ap (λ w. get_elem? w.nums j) e ∙ walk-map one_more bits c.torrent.num_pieces _ j fit.nums;
}
notes_of p bits c fault fit h s = elim s [ ]

-- A bitfield message with a bit for each piece, of a peer that malloc has given out, to a client whose
-- arrays fit the torrent. The handler comes back. A bit that is set makes its piece one that the peer
-- has, and counts one more peer with the piece, as an `int`; for a bit that is not set both are as they
-- were. The states of our own pieces do not change.
pub handle_bitfield-IsNoted :
    (p connfd : ℕ) (bits : Bytes) (c : Client)
    → IsFitting c
    → p < c.next_peer
    → c.torrent.num_pieces ≤ 8 * length bits
    → IsNoted p bits c (handle_bitfield connfd p bits (pos (length bits)) c)
unfolding handle_bitfield
handle_bitfield-IsNoted p connfd bits c fit h enough = notes_of p bits c _ fit h (
    (Does-bitfield_loop p connfd bits c.torrent.num_pieces 0 (omega arith)).run c record {
      peers_long = let a = fit.peers p h in omega arith;
      nums_long = let a = fit.nums in omega arith;
      states_long = let a = fit.states in omega arith;
    })
