-- ===== src/Wire/Request/Frame.antt =====
-- `request_a_piece` and the walk along the pool stay inside the arrays.
use simpletorrent_nju.Base.{
  ◌≡◌, refl, ap, ℕ, ◌<◌, lt→ltb, ◌/◌, List, [], ◌∷◌, none, some, ℤ, pos, All, length, set, put_at,
  get_elem?, get_elem?-lt, eqb_ℤ,
}
use simpletorrent_nju.Client.{
  Client, M, get, modify, access, pure, ◌>>=◌, ◌>>◌, when, modify_peer, update, piece_requesting,
  peer_have, peer_be_requested,
}
use simpletorrent_nju.Client.Frame.{
  IsAlike, IsAlike-refl, IsAlike-states, IsAlike-peer, After, comes_back, Anything, Keeps,
  After-access, After-alike, After-if, After-bind, Keeps-bind, Keeps-pure, length-put_at,
}
use simpletorrent_nju.Pool.{get_peer_piece_state}
use simpletorrent_nju.Wire.Send.{send_interested}
use simpletorrent_nju.Wire.Send.Frame.{send_interested-Keeps, send_request-Keeps}
use simpletorrent_nju.Wire.Request.{request_blocks, request_a_piece, sub_requests, request_from_one}

request_blocks-Keeps :
    {F : Type 0} (connfd index : ℕ) (blocks : List (ℕ × ℕ))
    → Keeps F (request_blocks connfd index blocks)
unfolding request_blocks
request_blocks-Keeps connfd index [] = Keeps-pure tt
request_blocks-Keeps connfd index ((begin, len) ∷ blocks) =
    Keeps-bind (send_request-Keeps connfd _ _ _) λ _. request_blocks-Keeps connfd index blocks

pub put_at_inside :
    {A : Type 0} (xs : List A) (i : ℕ) (v : A) → i < length xs → put_at xs (pos i) v ≡ none → ⊥
put_at_inside xs i v h e =
    let some_put : put_at xs (pos i) v ≡ some (set xs i v) = rw (lt→ltb i (length xs) h) refl in
    cc (e, some_put)

pub request_a_piece-After :
    (connfd p index len : ℕ) (c : Client)
    → index < length c.pieces_state_arr
    → After ⊥ Anything c (request_a_piece connfd p index len c)
unfolding request_a_piece
request_a_piece-After connfd p index len c h =
    After-access (put_at c.pieces_state_arr (pos index) piece_requesting)
      (λ states. do
        modify λ c. record c { pieces_state_arr = states }
        send_interested connfd p
        request_blocks connfd index (sub_requests 4 c.torrent.size index len 0 (len / 4)))
      (put_at_inside c.pieces_state_arr index piece_requesting h)
      λ states e.
        After-alike
          (IsAlike-states states (length-put_at c.pieces_state_arr (pos index) _ states e))
          ((Keeps-bind (send_interested-Keeps connfd p)
              λ _. request_blocks-Keeps connfd index _).run
            (record c { pieces_state_arr = states }))

-- The state behind the write to the array of a peer.
abbrev with_states : ℕ → List ℤ → Client → Client
with_states p states c = record c {
  heap = update c.heap p (record (c.heap p) { peer_pieces_state = states });
}

pub IsAlike-with_states :
    {c : Client} (p : ℕ) (states : List ℤ)
    → length states ≡ length (c.heap p).peer_pieces_state
    → IsAlike c (with_states p states c)
IsAlike-with_states {c} p states e =
    IsAlike-peer p (record (c.heap p) { peer_pieces_state = states })
      (ap (λ n. ((c.heap p).peer_ip, (c.heap p).connfd, n)) e)

-- Connections whose arrays have an entry for the piece.
abbrev pub Known : ℕ → Client → List ℕ → Type 0
Known index c nodes = All (λ p. index < length (c.heap p).peer_pieces_state) nodes

pub known_still :
    {c c' : Client}
    → IsAlike c c'
    → (p : ℕ) → length (c'.heap p).peer_pieces_state ≡ length (c.heap p).peer_pieces_state
known_still a p = ap (λ r. r.2) (a.same_peers p)

pub states_still :
    {c c' : Client} → IsAlike c c' → length c'.pieces_state_arr ≡ length c.pieces_state_arr
states_still a = ap (λ f. f.3) a.same_frame

Known-IsAlike :
    (index : ℕ) {c c' : Client}
    → IsAlike c c'
    → (nodes : List ℕ) → Known index c nodes
    → Known index c' nodes
Known-IsAlike index a [] h = tt
Known-IsAlike index a (p ∷ nodes) h =
    (rw (known_still a p) (h.0), Known-IsAlike index a nodes (h.1))

inside : {A : Type 0} (xs : List A) (i : ℕ) → i < length xs → get_elem? xs i ≡ none → ⊥
inside xs i h e = let (a, f) = get_elem?-lt xs i h in cc (e, f)

-- what is asked of one connection of the pool
ask : ℕ → ℕ → M (Unit {0})
ask index p = do
  c ← get
  request_a_piece (c.heap p).connfd p index c.torrent.piece_len
  c ← get
  states ← access (put_at (c.heap p).peer_pieces_state (pos index) peer_be_requested)
  modify_peer p λ r. record r { peer_pieces_state = states }

ask-After :
    (index p : ℕ) (c : Client)
    → index < length c.pieces_state_arr
    → index < length (c.heap p).peer_pieces_state
    → After ⊥ Anything c (ask index p c)
unfolding ask
ask-After index p c h k =
    After-bind (request_a_piece (c.heap p).connfd p index c.torrent.piece_len)
      (request_a_piece-After (c.heap p).connfd p index c.torrent.piece_len c h)
      λ _ c' a _.
        After-access (put_at (c'.heap p).peer_pieces_state (pos index) peer_be_requested)
          (λ states. modify_peer p λ r. record r { peer_pieces_state = states })
          (put_at_inside (c'.heap p).peer_pieces_state index peer_be_requested
            (rw (known_still a p) k))
          λ states e.
            comes_back
              (IsAlike-with_states p states
                (length-put_at (c'.heap p).peer_pieces_state (pos index) _ states e))
              tt

pub request_from_one-After :
    (index p : ℕ) (c : Client)
    → index < length c.pieces_state_arr
    → index < length (c.heap p).peer_pieces_state
    → After ⊥ Anything c (request_from_one index p c)
unfolding request_from_one get_peer_piece_state ask
request_from_one-After index p c h k =
    After-access (get_elem? (c.heap p).peer_pieces_state index)
      (λ state. when (eqb_ℤ state peer_have) (ask index p))
      (inside (c.heap p).peer_pieces_state index k)
      λ state e.
        After-if (eqb_ℤ state peer_have) (ask index p) (pure tt) (λ _. ask-After index p c h k)
          (λ _. comes_back IsAlike-refl tt)
