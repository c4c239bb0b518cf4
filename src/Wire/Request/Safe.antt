-- ===== src/Wire/Request/Safe.antt =====
-- The thread `request_file` never reads or writes outside an array.
use simpletorrent_nju.Base.{
  All, Bool-cases, ◌==◌, ◌≡◌, refl, sym, ap, inl, inr, ℕ, ◌<◌, Bool, true, false, not, ◌&&◌,
  if◌then◌else◌, List, some, ℤ, pos, negsuc, zero, suc, subst, arith, [], ◌∷◌, All-IsIn, length,
  put_at, get_elem?, i32, ◌-ℤ◌, ◌+ℤ◌, ltb_ℤ, leb_ℤ,
}
use simpletorrent_nju.Client.{
  Client, ok, bind_ok, M, modify, pure, ◌>>=◌, ◌>>◌, modify_peer, lock_piece, peer_be_requested,
}
use simpletorrent_nju.Client.Frame.{
  IsAlike-refl, IsAlike-peer, After, comes_back, After-access, After-alike, After-if, After-bind,
  After-mutex, After-total, lock_piece-Keeps, length-put_at,
}
use simpletorrent_nju.Pool.Shape.{
  IsShaped, IsShaped-IsAlike, IsShaped-pool, same_pool, same_next, same_num,
}
use simpletorrent_nju.Wire.Choose.{which_piece_to_request, find_peer_have_piece}
use simpletorrent_nju.Wire.Choose.Rarest.{which_piece_to_request-IsRarest}
use simpletorrent_nju.Wire.Choose.Source.{find_peer_have_piece_least}
use simpletorrent_nju.Wire.Request.{
  Stage, downloading, waits_with, draining, end_game, end_game_waits_with, returned, min_rest_num,
  request_a_piece, request_from, locked, request_chosen, request_round, request_everywhere,
  request_from_one, walks, walk_step, nodes_behind, end_game_round, take_lock, request_file_step,
}
use simpletorrent_nju.Wire.Request.Frame.{
  request_a_piece-After, request_from_one-After, put_at_inside, known_still, states_still,
}

-- What the thread has chosen: a piece of the torrent, and peers that malloc has given out.
abbrev pub IsChosen : ℕ → ℕ → Stage → Type 0
IsChosen next_peer num_pieces downloading = Unit {0}
IsChosen next_peer num_pieces (waits_with p index) = (p < next_peer) × (index < num_pieces)
IsChosen next_peer num_pieces draining = Unit {0}
IsChosen next_peer num_pieces end_game = Unit {0}
IsChosen next_peer num_pieces (end_game_waits_with index) = index < num_pieces
IsChosen next_peer num_pieces (walks index nodes) =
    (index < num_pieces) × All (λ q. q < next_peer) nodes
IsChosen next_peer num_pieces returned = Unit {0}

-- What a step that began at `c` comes to, without a fault.
abbrev Steps : Client → Client → M Stage → Type 0
Steps c₀ c m = After ⊥ (IsChosen c₀.next_peer c₀.torrent.num_pieces) c (m c)

Steps-pure :
    (c₀ c : Client) (stage : Stage)
    → IsChosen c₀.next_peer c₀.torrent.num_pieces stage
    → Steps c₀ c (pure stage)
Steps-pure c₀ c stage h = comes_back IsAlike-refl h

module _ (c₀ : Client) (index : ℕ) where
  request_from-Steps :
      (p : ℕ) (c : Client)
      → index < length c.pieces_state_arr
      → index < length (c.heap p).peer_pieces_state
      → Steps c₀ c (request_from p index)
  unfolding request_from
  request_from-Steps p c h k =
      After-bind (request_a_piece (c.heap p).connfd p index c.torrent.piece_len)
        (request_a_piece-After (c.heap p).connfd p index c.torrent.piece_len c h)
        λ _ c' a _.
          After-access (put_at (c'.heap p).peer_pieces_state (pos index) peer_be_requested)
            (λ states. do
              modify_peer p λ r. record r {
                peer_pieces_state = states;
                pieces_num_downloaded_from_it = i32 (r.pieces_num_downloaded_from_it +ℤ pos 1);
              }
              modify λ c. record c { rest_pieces_num = i32 (c.rest_pieces_num -ℤ pos 1) }
              pure downloading)
            (put_at_inside (c'.heap p).peer_pieces_state index peer_be_requested
              (rw (known_still a p) k))
            λ states e.
              After-alike
                (IsAlike-peer {c = c'} p
                  (record (c'.heap p) {
                    peer_pieces_state = states;
                    pieces_num_downloaded_from_it =
                        i32 ((c'.heap p).pieces_num_downloaded_from_it +ℤ pos 1);
                  })
                  (ap (λ n. ((c'.heap p).peer_ip, (c'.heap p).connfd, n))
                    (length-put_at (c'.heap p).peer_pieces_state (pos index) _ states e)))
                (comes_back (record { same_frame = refl; same_peers = λ q. refl }) tt)

  request_everywhere-Steps :
      (c : Client)
      → index < c₀.torrent.num_pieces
      → All (λ q. q < c₀.next_peer) c.pool
      → Steps c₀ c (request_everywhere index)
  unfolding request_everywhere
  request_everywhere-Steps c l given = Steps-pure c₀ c (walks index c.pool) (l, given)

  -- behind LOCK_PIECE, which has been got or not, and behind a wait for the mutex
  locked-Steps :
      (b : Bool) (go : M Stage) (wait : Stage) (c : Client)
      → Steps c₀ c go
      → IsChosen c₀.next_peer c₀.torrent.num_pieces wait
      → Steps c₀ c (locked go wait b)
  unfolding locked
  locked-Steps true go wait c h k = h
  locked-Steps false go wait c h k = Steps-pure c₀ c wait k

  take_lock-Steps :
      (go : M Stage) (wait : Stage) (c : Client)
      → Steps c₀ (record c { pieces_locked = true }) go
      → IsChosen c₀.next_peer c₀.torrent.num_pieces wait
      → Steps c₀ c (take_lock go wait)
  unfolding take_lock
  take_lock-Steps go wait c h k =
      After-mutex c.pieces_locked (Steps-pure c₀ c wait k)
        (After-alike (record { same_frame = refl; same_peers = λ q. refl }) h)

All-nodes_behind :
    (k p : ℕ) (pool nodes : List ℕ)
    → All (λ q. q < k) pool
    → All (λ q. q < k) nodes
    → All (λ q. q < k) (nodes_behind p pool nodes)
unfolding nodes_behind
All-nodes_behind k p [] nodes h l = l
All-nodes_behind k p (q ∷ pool) nodes h l = elim (Bool-cases (p == q)) [
  | inl e ↦ rw e (h.1)
  | inr e ↦ rw e (All-nodes_behind k p pool nodes (h.1) l)
]

below : {A : Type 0} {a : A} (xs : List A) (i : ℕ) → get_elem? xs i ≡ some a → i < length xs
below [] i e = cc
below (x ∷ xs) zero e = omega arith
below (x ∷ xs) (suc i) e = omega (arith, below xs i e)

After-ok :
    {A B : Type 0} {R : B → Type 0} (m : M A) (f : A → M B) (c : Client) {a : A}
    → m c ≡ ok a c
    → After ⊥ R c (f a c)
    → After ⊥ R c ((m >>= f) c)
After-ok {A} {B} {R} m f c e h = subst (After ⊥ R c) (sym (bind_ok m f c e)) h

over_or_draining : (b : Bool) (n k : ℕ) → IsChosen n k (if b then returned else draining)
over_or_draining true n k = tt
over_or_draining false n k = tt

module _ (c : Client) (h : IsShaped c) where
  request_chosen-Steps :
      (index p : ℕ)
      → index < c.torrent.num_pieces
      → p < c.next_peer
      → Steps c c (request_chosen index (some p))
  unfolding request_chosen
  request_chosen-Steps index p l k = After-bind lock_piece (lock_piece-Keeps.run c) λ b c' a _.
      locked-Steps c index b (request_from p index) (waits_with p index) c'
        (request_from-Steps c index p c' (rw (states_still a) (rw h.fits.states l))
          (rw (known_still a p) (rw (h.fits.peers p k) l)))
        (k, l)

  request_round-Steps :
      (index : ℕ) → index < c.torrent.num_pieces → Steps c c (request_round (pos index))
  unfolding request_round request_chosen
  request_round-Steps index l =
      elim (find_peer_have_piece_least c index (IsShaped-pool c index h l)) [
        | inl (e, _) ↦
            After-ok (find_peer_have_piece index) (request_chosen index) c e
              (Steps-pure c c downloading tt)
        | inr (p, e, i, _, _) ↦ After-ok (find_peer_have_piece index) (request_chosen index) c e (
            request_chosen-Steps index p l
              (All-IsIn (λ q. q < c.next_peer) p c.pool h.proper.given_out i))
      ]

  end_game_round-Steps :
      (index : ℕ) → index < c.torrent.num_pieces → Steps c c (end_game_round (pos index))
  unfolding end_game_round
  end_game_round-Steps index l = After-bind lock_piece (lock_piece-Keeps.run c) λ b c' a _.
      locked-Steps c index b (request_everywhere index) (end_game_waits_with index) c'
        (request_everywhere-Steps c index c' l (rw (same_pool a) h.proper.given_out)) l

  walk_step-Steps :
      (index : ℕ) (nodes : List ℕ)
      → index < c.torrent.num_pieces
      → All (λ q. q < c.next_peer) nodes
      → Steps c c (walk_step index nodes)
  unfolding walk_step
  walk_step-Steps index [] l k = Steps-pure c c end_game tt
  walk_step-Steps index (p ∷ nodes) l k =
      After-bind (request_from_one index p)
        (request_from_one-After index p c (rw h.fits.states l) (rw (h.fits.peers p (k.0)) l))
        λ _ c' a _. Steps-pure c c' (walks index (nodes_behind p c'.pool nodes)) (
          l,
          All-nodes_behind c.next_peer p c'.pool nodes (rw (same_pool a) h.proper.given_out) (k.1),
        )

  -- a round with the piece that is chosen, where there is one
  with_piece :
      (f : ℤ → M Stage)
      → ((k : ℕ) → Steps c c (f (negsuc k)))
      → ((index : ℕ) → index < c.torrent.num_pieces → Steps c c (f (pos index)))
      → Steps c c (which_piece_to_request >>= f)
  with_piece f none_left some_left =
      elim (which_piece_to_request-IsRarest c h.fits.states h.fits.nums) [
        | inl (e, _) ↦ After-ok which_piece_to_request f c e (none_left 0)
        | inr (m, e, r) ↦
            After-ok which_piece_to_request f c e (
              some_left m (rw (sym h.fits.states) (below c.pieces_state_arr m r.can_be_had.lacked)))
      ]

  step-Steps :
      (stage : Stage)
      → IsChosen c.next_peer c.torrent.num_pieces stage
      → Steps c c (request_file_step stage)
  unfolding request_file_step request_round end_game_round walk_step
  step-Steps downloading k =
      After-if (not c.isseed && ltb_ℤ min_rest_num c.rest_pieces_num)
        (do index ← which_piece_to_request; request_round index)
        (pure (if leb_ℤ c.rest_pieces_num (pos 0) then returned else draining))
        (λ _. with_piece request_round (λ n. Steps-pure c c downloading tt) request_round-Steps)
        (λ _. Steps-pure c c _ (over_or_draining (leb_ℤ c.rest_pieces_num (pos 0)) _ _))
  step-Steps (waits_with p index) k =
      take_lock-Steps c index (request_from p index) (waits_with p index) c
        (request_from-Steps c index p (record c { pieces_locked = true }) (rw h.fits.states (k.1))
          (rw (h.fits.peers p (k.0)) (k.1)))
        k
  step-Steps draining k =
      After-if _ (pure draining) (do modify λ c. record c { is_end_game = true }; pure end_game)
        (λ _. Steps-pure c c draining tt)
        (λ _. comes_back (record { same_frame = refl; same_peers = λ q. refl }) tt)
  step-Steps end_game k =
      After-if c.isseed (pure returned) (do index ← which_piece_to_request; end_game_round index)
        (λ _. Steps-pure c c returned tt)
        (λ _. with_piece end_game_round (λ n. Steps-pure c c end_game tt) end_game_round-Steps)
  step-Steps (end_game_waits_with index) k =
      take_lock-Steps c index (request_everywhere index) (end_game_waits_with index) c
        (request_everywhere-Steps c index (record c { pieces_locked = true }) k h.proper.given_out)
        k
  step-Steps (walks index nodes) k = walk_step-Steps index nodes (k.0) (k.1)
  step-Steps returned k = Steps-pure c c returned tt

-- Wherever the thread `request_file` stands, with a piece of the torrent and peers that malloc has given out
-- where it has chosen them, and where the arrays fit the torrent: its next step comes back without
-- an access outside an array. The arrays fit then too, and what the thread has chosen is such again.
pub request_file_step-IsShaped :
    (c : Client) (stage : Stage)
    → IsShaped c
    → IsChosen c.next_peer c.torrent.num_pieces stage
    → (stage' : Stage) × (c' : Client) × (request_file_step stage c ≡ ok stage' c')
      × IsShaped c'
      × IsChosen c'.next_peer c'.torrent.num_pieces stage'
request_file_step-IsShaped c stage h k =
    let (stage', c', e, a, q) = After-total (step-Steps c h stage k) in
    (stage', c', e, IsShaped-IsAlike a h, rw (same_next a) (rw (same_num a) q))
