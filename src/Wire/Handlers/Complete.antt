-- ===== src/Wire/Handlers/Complete.antt =====
-- `complete_piece`: what follows where the whole piece is there.
use simpletorrent_nju.Base.{
  ℕ, zero, suc, ◌+◌, dec_lt, ◌<◌, ◌≤◌, lt→ltb, if◌then◌else◌, Bool, true, false, not, Bool-cases,
  ◌≡◌, ◌↔◌, inl, inr, refl, sym, subst, ◌∙◌, List, [], ◌∷◌, some, Bytes, ℤ, pos, eqb_ℤ, All,
  get_elem?-lt, set, length, ◌+ℤ◌, ◌-ℤ◌, i32, leb_ℤ, arith,
}
use simpletorrent_nju.Bitfield.{get_bit_at_index}
use simpletorrent_nju.Socket.{SendEvent}
use simpletorrent_nju.Client.{
  Client, Peer, ok, send, bind_ok, after_send, update, piece_completed, peer_have, unlock_piece,
  pure, when, ◌>>◌,
}
use simpletorrent_nju.Wire.Send.{have_loop, have_message, send_have}
use simpletorrent_nju.Wire.Handlers.{all_set, piece_done, complete_piece}

-- The connection has an entry for the piece.
abbrev pub Knows : (ℕ → Peer) → ℕ → ℕ → Type 0
Knows heap index p = index < length (heap p).peer_pieces_state

-- A message that is sent where `b` does not hold.
unless_sent :
    (b : Bool) (connfd : ℕ) (bytes : Bytes) (c : Client)
    → (o : List SendEvent) × (s : List (ℕ × Bytes)) × (when
          (not b)
          (do send connfd bytes; pure tt)
          c
        ≡ ok tt (after_send o s c))
unfolding send
unless_sent true connfd bytes c = (c.outbox, c.sent, refl)
unless_sent false connfd bytes c = (_, _, refl)

pub seed_flag : (b s : Bool) → s ≡ false → (if b then true else s) ≡ true → b ≡ true
seed_flag true s e h = refl
seed_flag false s e h = cc (sym e ∙ h)

-- Where the bits are those of `test`, the loop over them finds out whether all are set.
pub all_set_lem :
    (bits : Bytes) (len : ℤ) (test : ℕ → Bool) (n i : ℕ)
    → ((j : ℕ)
        → j < i + n
        → get_bit_at_index bits (pos j) len ≡ some (if test j then pos 1 else pos 0))
    → (b : Bool) × (all_set n bits len i ≡ some b)
      × ((b ≡ true) ↔ ((j : ℕ) → i ≤ j → j < i + n → test j ≡ true))
unfolding all_set
all_set_lem bits len test zero i h = (true, refl, ((λ e j l k. absurd (omega arith)), (λ f. refl)))
all_set_lem bits len test (suc n) i h =
    let (b, e, whole) = all_set_lem bits len test n (i + 1) (λ j k. h j (omega arith)) in
    elim (Bool-cases (test i)) [
      | inl t ↦ (
        b,
        rw (all_set, h i (omega arith), t, e) refl,
        (
          (λ eq j l k. elim (dec_lt i j) [
            | yes lt ↦ whole.0 eq j (omega arith) (omega arith)
            | no ge ↦ subst (λ v. test v ≡ true) (omega arith) t
          ]),
          (λ f. whole.1 λ j l k. f j (omega arith) (omega arith)),
        ),
      )
      | inr t ↦ (
        false,
        rw (all_set, h i (omega arith), t) refl,
        ((λ eq. cc eq), (λ f. cc (sym t ∙ f i (omega arith) (omega arith)))),
      )
    ]

module _ (index : ℕ) where
  -- The walk along the pool changes only what was sent.
  pub have_loop_lem :
      (nodes : List ℕ) (c : Client)
      → All (Knows c.heap index) nodes
      → (o : List SendEvent) × (s : List (ℕ × Bytes)) × (have_loop (pos index) nodes c
          ≡ ok tt (after_send o s c))
  unfolding have_loop
  have_loop_lem [] c h = (c.outbox, c.sent, refl)
  have_loop_lem (p ∷ nodes) c h =
      let (state, e) = get_elem?-lt (c.heap p).peer_pieces_state index (h.0) in
      let (o, s, f) =
        unless_sent (eqb_ℤ state peer_have) (c.heap p).connfd (have_message (pos index)) c in
      let (o', s', g) = have_loop_lem nodes (after_send o s c) (h.1) in
      (
        o',
        s',
        rw e (
            bind_ok
              (when (not (eqb_ℤ state peer_have))
                (do send (c.heap p).connfd (have_message (pos index)); pure tt))
              (λ u. have_loop (pos index) nodes) c f
            ∙ g),
      )

  -- The state behind `piece_done`, by whether all pieces are there.
  abbrev pub done_state : ℕ → Bool → Client → Client
  done_state p b c = record c {
    have_pieces_num = i32 (c.have_pieces_num +ℤ pos 1);
    heap = update c.heap p (record (c.heap p) {
      peer_pieces_state = set (c.heap p).peer_pieces_state index peer_have;
    });
    pieces_requesting = i32 (c.pieces_requesting -ℤ pos 1);
    pieces_locked = if leb_ℤ (pos 5) c.pieces_requesting then false else c.pieces_locked;
    isseed = if b then true else c.isseed;
  }

  piece_done_lem :
      (p : ℕ) (len : ℤ) (c : Client) (b : Bool)
      → Knows c.heap index p
      → all_set c.torrent.num_pieces c.bitfield len 0 ≡ some b
      → piece_done p (pos index) len c ≡ ok (pos 1) (done_state p b c)
  unfolding piece_done unlock_piece
  piece_done_lem p len c true h e = rw (piece_done, lt→ltb _ _ h, e) refl
  piece_done_lem p len c false h e = rw (piece_done, lt→ltb _ _ h, e) refl

  -- Where the piece is complete.
  abbrev pub completed : List SendEvent → List (ℕ × Bytes) → ℕ → Bool → Client → Client
  completed o s p b c = done_state p b (
      after_send o s (record c { pieces_state_arr = set c.pieces_state_arr index piece_completed }))

  pub complete_piece_lem :
      (p : ℕ) (len : ℤ) (c : Client) (b : Bool)
      → index < length c.pieces_state_arr
      → All (Knows c.heap index) c.pool
      → Knows c.heap index p
      → all_set c.torrent.num_pieces c.bitfield len 0 ≡ some b
      → (o : List SendEvent) × (s : List (ℕ × Bytes)) × (complete_piece p (pos index) len c
          ≡ ok (pos 1) (completed o s p b c))
  unfolding complete_piece send_have
  complete_piece_lem p len c b lt h k e =
      let c₁ = record c { pieces_state_arr = set c.pieces_state_arr index piece_completed } in
      let (o, s, f) = have_loop_lem c.pool c₁ h in
      (
        o,
        s,
        rw (lt→ltb _ _ lt) (
            bind_ok (send_have (pos index)) (λ r. piece_done p (pos index) len) c₁
              (bind_ok (have_loop (pos index) c.pool) (λ u. pure (pos 1)) c₁ f)
            ∙ piece_done_lem p len (after_send o s c₁) b k e),
      )
