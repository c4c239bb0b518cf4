-- ===== src/Wire/Handlers/Quiet.antt =====
-- What a handler does to the arrays that a bitfield message is about, and the calls that leave them alone.
use simpletorrent_nju.Base.{
  ◌≡◌, refl, sym, ap, subst, ℕ, ◌==◌, Bool, true, false, not, List, [], ◌∷◌, ◌++◌, Bytes, ℤ, pos,
  ==_refl,
}
use simpletorrent_nju.Client.{
  Client, Peer, Torrent, Outcome, ok, fault, M, get, pure, ◌>>=◌, when, modify_peer, send, is_neg,
}
use simpletorrent_nju.Wire.Send.{
  send_flag, send_unchoke, send_interested, net_int, sent_ok, unchoke, interested,
}
use simpletorrent_nju.Wire.Handlers.{open_up}

-- The four things that a round reads or writes: the array of the peer, the numbers of peers, the states
-- of our pieces and the torrent.
pub record View : Type 0 where
  pub peer : List ℤ
  pub nums : List ℤ
  pub states : List ℕ
  pub torrent : Torrent

abbrev pub Anywhere : View → Type 0
Anywhere v = Unit {0}

abbrev pub Untouched : View → View
Untouched v = v

module _ (p : ℕ) where
  abbrev pub view : Client → View
  view c = record {
    peer = (c.heap p).peer_pieces_state;
    nums = c.pieces_num_in_peers;
    states = c.pieces_state_arr;
    torrent = c.torrent;
  }

  -- The call comes back, and then this is the view.
  pub data Shows {A : Type 0} (v : View) : Outcome A → Type 0 where
    shows : {a : A} {c : Client} → view c ≡ v → Shows v (ok a c)

  -- The call comes back from each state where `I` holds, with this change of the view.
  pub record Does {A : Type 0} (I : View → Type 0) (g : View → View) (m : M A) : Type 0 where
    pub run : (c : Client) → I (view c) → Shows (g (view c)) (m c)

  abbrev pub Quiet : {A : Type 0} → M A → Type 0
  Quiet m = Does Anywhere Untouched m

  go_on :
      {A B : Type 0} {v w : View} {f : A → M B} (o : Outcome A)
      → Shows v o
      → ((a : A) (c : Client) → view c ≡ v → Shows w (f a c))
      → Shows w (elim o [ ok a c ↦ f a c | fault ↦ fault ])
  go_on (ok a c) (shows e) k = k a c e
  go_on fault h k = elim h [ ]

  pub Does-bind :
      {A B : Type 0} {I J : View → Type 0} {g h : View → View} {m : M A} {f : A → M B}
      → Does I g m
      → ((v : View) → I v → J (g v))
      → ((a : A) → Does J h (f a))
      → Does I (λ v. h (g v)) (m >>= f)
  Does-bind {A} {B} {I} {J} {g} {h} {m} {f} d keep k = record {
    run = λ c i.
        go_on (m c) (d.run c i)
          λ a c' e. subst (λ v. Shows (h v) (f a c')) e ((k a).run c' (subst J (sym e) (keep _ i)));
  }

  pub Does-weaken :
      {A : Type 0} {I J : View → Type 0} {g : View → View} {m : M A}
      → ((v : View) → I v → J v)
      → Does J g m
      → Does I g m
  Does-weaken k d = record { run = λ c i. d.run c (k _ i) }

  pub Quiet-bind :
      {A B : Type 0} {m : M A} {f : A → M B} → Quiet m → ((a : A) → Quiet (f a)) → Quiet (m >>= f)
  Quiet-bind d k = Does-bind d (λ v i. tt) k

  pub Quiet-pure : {A : Type 0} (a : A) → Quiet (pure a)
  Quiet-pure a = record { run = λ c i. shows refl }

  pub Quiet-get : {A : Type 0} {f : Client → M A} → ((c : Client) → Quiet (f c)) → Quiet (get >>= f)
  Quiet-get h = record { run = λ c i. (h c).run c i }

  pub Quiet-when : (b : Bool) {m : M (Unit {0})} → Quiet m → Quiet (when b m)
  Quiet-when true h = h
  Quiet-when false h = Quiet-pure tt

  Quiet-send : (fd : ℕ) (bytes : Bytes) → Quiet (send fd bytes)
  unfolding send
  Quiet-send fd bytes = record { run = λ c i. shows refl }

  -- a flag is not in the view
  Quiet-flag :
      (f : Peer → Peer)
      → ((r : Peer) → (f r).peer_pieces_state ≡ r.peer_pieces_state)
      → Quiet (modify_peer p f)
  Quiet-flag f h = record {
    run = λ c i. shows (rw (==_refl p) (ap (λ s. record (view c) { peer = s }) (h (c.heap p))));
  }

  Quiet-send_flag :
      (connfd : ℕ) (buffer : Bytes) (f : Peer → Peer)
      → ((r : Peer) → (f r).peer_pieces_state ≡ r.peer_pieces_state)
      → Quiet (send_flag connfd buffer (modify_peer p f))
  unfolding send_flag
  Quiet-send_flag connfd buffer f h =
      Quiet-bind (Quiet-send connfd buffer)
        λ r. Quiet-bind (Quiet-when (not (is_neg r)) (Quiet-flag f h)) λ _. Quiet-pure (sent_ok r)

  Quiet-send_unchoke : (connfd : ℕ) → Quiet (send_unchoke connfd p)
  unfolding send_unchoke
  Quiet-send_unchoke connfd =
      Quiet-send_flag connfd (net_int (pos 1) ++ unchoke ∷ []) (λ r. record r { peer_choking = 0 })
        λ r. refl

  pub Quiet-send_interested : (connfd : ℕ) → Quiet (send_interested connfd p)
  unfolding send_interested
  Quiet-send_interested connfd =
      Quiet-send_flag connfd (net_int (pos 1) ++ interested ∷ [])
        (λ r. record r { peer_interested = 1 }) λ r. refl

  pub Quiet-open_up : (connfd : ℕ) → Quiet (open_up connfd p)
  unfolding open_up
  Quiet-open_up connfd = Quiet-get λ c.
      Quiet-bind
        (Quiet-when ((c.heap p).peer_choking == 1)
          (Quiet-bind (Quiet-send_unchoke connfd) λ _. Quiet-pure tt))
        λ _. Quiet-get λ c.
          Quiet-when ((c.heap p).peer_interested == 0)
            (Quiet-bind (Quiet-send_interested connfd) λ _. Quiet-pure tt)
