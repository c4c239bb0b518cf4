-- ===== src/Wire/Messages/Release.antt =====
-- The for loop at error_disconnect: what it leaves of the arrays.
use simpletorrent_nju.Base.{
  ℕ, zero, suc, ◌+◌, ◌<◌, ◌≤◌, ◌==◌, if◌then◌else◌, Bool, true, false, ◌&&◌, ◌≡◌, ◌≢◌, refl, sym,
  ap, ◌∙◌, List, Option, some, ℤ, pos, ◌-ℤ◌, i32, ltb_ℤ, leb_ℤ, eqb_ℤ, get_elem?, get_elem?-lt, set,
  length, length-set, get_elem?-set_self, get_elem?-set_ne, arith, ℕ_discrete,
}
use simpletorrent_nju.Client.{
  Client, ok, access, when, bind_ok, ◌>>=◌, unlock_piece, piece_requesting, piece_havnt, peer_havnt,
  peer_be_requested,
}
use simpletorrent_nju.Pool.{get_peer_piece_state}
use simpletorrent_nju.Wire.Messages.{
  one_less, give_back, give_back_requested, release_by, release_piece, release_pieces,
}

-- What is left of the number of peers that have a piece, and of the state of the piece, by the state
-- that it has at the peer.
abbrev pub num_left : ℤ → ℤ → ℤ
num_left s v = if ltb_ℤ peer_havnt s then i32 (v -ℤ pos 1) else v

abbrev gives_back : ℤ → ℕ → Bool
gives_back s t = eqb_ℤ s peer_be_requested && t == piece_requesting

abbrev pub state_left : ℤ → ℕ → ℕ
state_left s t = if gives_back s t then piece_havnt else t

-- The state behind the round for piece `i`.
abbrev num_released : ℕ → Bool → ℤ → Client → Client
num_released i b v c = record c {
  pieces_num_in_peers =
      if b then set c.pieces_num_in_peers i (i32 (v -ℤ pos 1)) else c.pieces_num_in_peers;
}

abbrev state_released : ℕ → Bool → Client → Client
state_released i b c = record c {
  pieces_state_arr = if b then set c.pieces_state_arr i piece_havnt else c.pieces_state_arr;
  pieces_requesting = if b then i32 (c.pieces_requesting -ℤ pos 1) else c.pieces_requesting;
  pieces_locked = if b && leb_ℤ (pos 5) c.pieces_requesting then false else c.pieces_locked;
}

one_less_lem :
    (i : ℕ) (b : Bool) (v : ℤ) (c : Client)
    → get_elem? c.pieces_num_in_peers i ≡ some v
    → when b (one_less i) c ≡ ok tt (num_released i b v c)
unfolding one_less
one_less_lem i true v c e = rw (one_less, e) refl
one_less_lem i false v c e = refl

give_back_lem :
    (i : ℕ) (b : Bool) (c : Client) → when b (give_back i) c ≡ ok tt (state_released i b c)
unfolding give_back unlock_piece
give_back_lem i true c = refl
give_back_lem i false c = refl

give_back_requested_lem :
    (i : ℕ) (b : Bool) (t : ℕ) (c : Client)
    → get_elem? c.pieces_state_arr i ≡ some t
    → when b (give_back_requested i) c ≡ ok tt (state_released i (b && t == piece_requesting) c)
unfolding give_back_requested
give_back_requested_lem i true t c e =
    ap (λ (o : Option ℕ). (do ours ← access o; when (ours == piece_requesting) (give_back i)) c) e
    ∙ give_back_lem i (t == piece_requesting) c
give_back_requested_lem i false t c e = refl

-- The state behind the round for piece `i`.
abbrev released : ℕ → ℤ → ℤ → ℕ → Client → Client
released i s v t c = state_released i (gives_back s t) (num_released i (ltb_ℤ peer_havnt s) v c)

release_piece_lem :
    (p i : ℕ) (s v : ℤ) (t : ℕ) (c : Client)
    → get_elem? (c.heap p).peer_pieces_state i ≡ some s
    → get_elem? c.pieces_num_in_peers i ≡ some v
    → get_elem? c.pieces_state_arr i ≡ some t
    → release_piece p i c ≡ ok tt (released i s v t c)
unfolding release_piece get_peer_piece_state release_by
release_piece_lem p i s v t c es ev et =
    ap (λ (o : Option ℤ). (access o >>= release_by i) c) es
    ∙ bind_ok (when (ltb_ℤ peer_havnt s) (one_less i))
        (λ u. when (eqb_ℤ s peer_be_requested) (give_back_requested i)) c
        (one_less_lem i (ltb_ℤ peer_havnt s) v c ev)
    ∙ give_back_requested_lem i (eqb_ℤ s peer_be_requested) t
        (num_released i (ltb_ℤ peer_havnt s) v c) et

-- The states of the pieces at the peer, and what the rounds for `n` pieces from `i` on leave of the
-- two arrays.
pub record Left (peer : List ℤ) (i n : ℕ) (c : Client) (nums : List ℤ) (states : List ℕ)
    : Type 0 where
  pub num_at :
      (j : ℕ) (s v : ℤ)
      → i ≤ j
      → j < i + n
      → get_elem? peer j ≡ some s
      → get_elem? c.pieces_num_in_peers j ≡ some v
      → get_elem? nums j ≡ some (num_left s v)
  pub state_at :
      (j : ℕ) (s : ℤ) (t : ℕ)
      → i ≤ j
      → j < i + n
      → get_elem? peer j ≡ some s
      → get_elem? c.pieces_state_arr j ≡ some t
      → get_elem? states j ≡ some (state_left s t)
  pub num_before : (j : ℕ) → j < i → get_elem? nums j ≡ get_elem? c.pieces_num_in_peers j
  pub state_before : (j : ℕ) → j < i → get_elem? states j ≡ get_elem? c.pieces_state_arr j

-- Those fields of the state that the rounds change.
abbrev pub with_left : List ℤ → List ℕ → ℤ → Bool → Client → Client
with_left nums states requesting locked c = record c {
  pieces_num_in_peers = nums;
  pieces_state_arr = states;
  pieces_requesting = requesting;
  pieces_locked = locked;
}

module _ {A : Type 0} (b : Bool) (xs : List A) (i : ℕ) (w : A) where
  -- A write that is made where `b` holds.
  abbrev written : List A
  written = if b then set xs i w else xs

module _ {A : Type 0} where
  length-written : (b : Bool) (xs : List A) (i : ℕ) (w : A) → length (written b xs i w) ≡ length xs
  length-written true xs i w = length-set xs i w
  length-written false xs i w = refl

  written_self :
      (b : Bool) (xs : List A) (i : ℕ) (w v : A)
      → i < length xs
      → get_elem? xs i ≡ some v
      → get_elem? (written b xs i w) i ≡ some (if b then w else v)
  written_self true xs i w v l e = get_elem?-set_self xs i w l
  written_self false xs i w v l e = e

  written_ne :
      (b : Bool) (xs : List A) (i j : ℕ) (w : A)
      → i ≢ j
      → get_elem? (written b xs i w) j ≡ get_elem? xs j
  written_ne true xs i j w ne = get_elem?-set_ne xs i j w ne
  written_ne false xs i j w ne = refl

some_inj : {A : Type 0} {a b : A} → some a ≡ some b → a ≡ b
some_inj e = cc e

same_entry :
    {A : Type 0} (xs : List A) (i j : ℕ) (a b : A)
    → i ≡ j
    → get_elem? xs i ≡ some a
    → get_elem? xs j ≡ some b
    → a ≡ b
same_entry xs i j a b e f g = some_inj (sym f ∙ ap (λ (k : ℕ). get_elem? xs k) e ∙ g)

-- The round for piece `i`, and then those behind it.
Left-cons :
    (peer : List ℤ) (i n : ℕ) (s v : ℤ) (t : ℕ) (c : Client) (nums : List ℤ) (states : List ℕ)
    → i < length c.pieces_num_in_peers
    → i < length c.pieces_state_arr
    → get_elem? peer i ≡ some s
    → get_elem? c.pieces_num_in_peers i ≡ some v
    → get_elem? c.pieces_state_arr i ≡ some t
    → Left peer (i + 1) n (released i s v t c) nums states
    → Left peer i (suc n) c nums states
Left-cons peer i n s v t c nums states ln ls es ev et left = record {
  num_at = λ j s' v' l k e f. elim (ℕ_discrete i j) [
    | yes same ↦
        ap (λ (k : ℕ). get_elem? nums k) (sym same)
        ∙ left.num_before i (omega arith)
        ∙ written_self (ltb_ℤ peer_havnt s) c.pieces_num_in_peers i (i32 (v -ℤ pos 1)) v ln ev
        ∙ ap (λ (z : ℤ). some (num_left z v)) (same_entry peer i j s s' same es e)
        ∙ ap (λ (z : ℤ). some (num_left s' z)) (same_entry c.pieces_num_in_peers i j v v' same ev f)
    | no other ↦
        left.num_at j s' v' (omega arith) (omega arith) e
          (written_ne (ltb_ℤ peer_havnt s) c.pieces_num_in_peers i j (i32 (v -ℤ pos 1)) other ∙ f)
  ];
  state_at = λ j s' t' l k e f. elim (ℕ_discrete i j) [
    | yes same ↦
        ap (λ (k : ℕ). get_elem? states k) (sym same)
        ∙ left.state_before i (omega arith)
        ∙ written_self (gives_back s t) c.pieces_state_arr i piece_havnt t ls et
        ∙ ap (λ (z : ℤ). some (state_left z t)) (same_entry peer i j s s' same es e)
        ∙ ap (λ (z : ℕ). some (state_left s' z)) (same_entry c.pieces_state_arr i j t t' same et f)
    | no other ↦
        left.state_at j s' t' (omega arith) (omega arith) e
          (written_ne (gives_back s t) c.pieces_state_arr i j piece_havnt other ∙ f)
  ];
  num_before = λ j l.
      left.num_before j (omega arith)
      ∙ written_ne (ltb_ℤ peer_havnt s) c.pieces_num_in_peers i j (i32 (v -ℤ pos 1)) (omega arith);
  state_before = λ j l.
      left.state_before j (omega arith)
      ∙ written_ne (gives_back s t) c.pieces_state_arr i j piece_havnt (omega arith);
}

pub release_pieces_lem :
    (p n i : ℕ) (c : Client)
    → i + n ≤ length (c.heap p).peer_pieces_state
    → i + n ≤ length c.pieces_num_in_peers
    → i + n ≤ length c.pieces_state_arr
    → (nums : List ℤ) × (states : List ℕ) × (requesting : ℤ) × (locked : Bool) × (release_pieces n p
          i c
        ≡ ok tt (with_left nums states requesting locked c))
      × Left (c.heap p).peer_pieces_state i n c nums states
unfolding release_pieces
release_pieces_lem p zero i c a b d = (
  c.pieces_num_in_peers,
  c.pieces_state_arr,
  c.pieces_requesting,
  c.pieces_locked,
  refl,
  record {
    num_at = λ j s v l k. absurd (omega arith);
    state_at = λ j s t l k. absurd (omega arith);
    num_before = λ j l. refl;
    state_before = λ j l. refl;
  },
)
release_pieces_lem p (suc n) i c a b d =
    let (s, es) = get_elem?-lt (c.heap p).peer_pieces_state i (omega arith) in
    let (v, ev) = get_elem?-lt c.pieces_num_in_peers i (omega arith) in
    let (t, et) = get_elem?-lt c.pieces_state_arr i (omega arith) in
    let c₁ = released i s v t c in
    let (nums, states, r, l, f, left) =
      release_pieces_lem p n (i + 1) c₁ (omega arith)
        (omega
          (arith, length-written (ltb_ℤ peer_havnt s) c.pieces_num_in_peers i (i32 (v -ℤ pos 1))))
        (omega (arith, length-written (gives_back s t) c.pieces_state_arr i piece_havnt)) in
    (
      nums,
      states,
      r,
      l,
      bind_ok (release_piece p i) (λ u. release_pieces n p (i + 1)) c
            (release_piece_lem p i s v t c es ev et)
          ∙ f,
      Left-cons (c.heap p).peer_pieces_state i n s v t c nums states (omega arith) (omega arith) es
          ev et left,
    )
