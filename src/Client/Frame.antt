-- ===== src/Client/Frame.antt =====
-- What the functions on the shared state leave alone, and how this follows the binds of the monad.
use simpletorrent_nju.Base.{
  ◌≡◌, refl, sym, ap, ◌∙◌, ℕ, ◌==◌, Bool, true, false, Bool-cases, inl, inr, if◌then◌else◌, List,
  Option, none, some, Bytes, length, length-set, set, ltb, put_at, ltb_ℤ, i32, ◌+ℤ◌, ℤ, pos, negsuc,
  ==_iff,
}
use simpletorrent_nju.Client.{
  Client, Peer, Torrent, Outcome, ok, fault, M, get, modify, access, pure, ◌>>=◌, when, update,
  take_mutex, lock_piece,
}

-- The torrent, the pool, the next peer of malloc and the lengths of the two arrays.
abbrev pub frame : Client → Torrent × List ℕ × ℕ × ℕ × ℕ
frame c = (c.torrent, c.pool, c.next_peer, length c.pieces_state_arr, length c.pieces_num_in_peers)

-- The address and the socket of a peer, and the length of its array.
abbrev pub peer_frame : Peer → Bytes × ℕ × ℕ
peer_frame r = (r.peer_ip, r.connfd, length r.peer_pieces_state)

-- `c'` has the frame of `c`, and each peer has its frame.
pub record IsAlike (c c' : Client) : Type 0 where
  pub same_frame : frame c' ≡ frame c
  pub same_peers : (q : ℕ) → peer_frame (c'.heap q) ≡ peer_frame (c.heap q)

pub IsAlike-refl : {c : Client} → IsAlike c c
IsAlike-refl = record { same_frame = refl; same_peers = λ q. refl }

pub IsAlike-trans : {a b c : Client} → IsAlike a b → IsAlike b c → IsAlike a c
IsAlike-trans h k = record {
  same_frame = k.same_frame ∙ h.same_frame;
  same_peers = λ q. k.same_peers q ∙ h.same_peers q;
}

-- an array of states, of numbers, and a peer that are replaced by such of the same frame
pub IsAlike-states :
    {c : Client} (states : List ℕ)
    → length states ≡ length c.pieces_state_arr
    → IsAlike c (record c { pieces_state_arr = states })
IsAlike-states {c} states e = record {
  same_frame = ap (λ n. (c.torrent, c.pool, c.next_peer, n, length c.pieces_num_in_peers)) e;
  same_peers = λ q. refl;
}

pub IsAlike-nums :
    {c : Client} (nums : List ℤ)
    → length nums ≡ length c.pieces_num_in_peers
    → IsAlike c (record c { pieces_num_in_peers = nums })
IsAlike-nums {c} nums e = record {
  same_frame = ap (λ n. (c.torrent, c.pool, c.next_peer, length c.pieces_state_arr, n)) e;
  same_peers = λ q. refl;
}

update_frame :
    (heap : ℕ → Peer) (p q : ℕ) (r : Peer)
    → peer_frame r ≡ peer_frame (heap p)
    → peer_frame (update heap p r q) ≡ peer_frame (heap q)
update_frame heap p q r e = elim (Bool-cases (p == q)) [
  | inl b ↦ rw b (e ∙ ap (λ v. peer_frame (heap v)) ((==_iff p q).0 b))
  | inr b ↦ rw b refl
]

pub IsAlike-peer :
    {c : Client} (p : ℕ) (r : Peer)
    → peer_frame r ≡ peer_frame (c.heap p)
    → IsAlike c (record c { heap = update c.heap p r })
IsAlike-peer {c} p r e = record { same_frame = refl; same_peers = λ q. update_frame c.heap p q r e }

-- What a call that began at `c` has come to: a state alike with a result of which `Q` holds, or a
-- fault, and `F` then.
pub data After {A : Type 0} (F : Type 0) (Q : A → Type 0) (c : Client) : Outcome A → Type 0 where
  comes_back : {a : A} {c' : Client} → IsAlike c c' → Q a → After F Q c (ok a c')
  faults : F → After F Q c fault

-- Nothing is known of the result.
abbrev pub Anything : {A : Type 0} → A → Type 0
Anything a = Unit {0}

-- The function leaves the frame alone wherever it is called.
pub record Keeps {A : Type 0} (F : Type 0) (m : M A) : Type 0 where
  pub run : (c : Client) → After F Anything c (m c)

module _ {F : Type 0} {B : Type 0} {R : B → Type 0} where
  pub After-alike : {c c' : Client} {o : Outcome B} → IsAlike c c' → After F R c' o → After F R c o
  After-alike h (comes_back k r) = comes_back (IsAlike-trans h k) r
  After-alike h (faults f) = faults f

  pub After-access :
      {A : Type 0} (o : Option A) (f : A → M B) {c : Client}
      → (o ≡ none → F)
      → ((a : A) → o ≡ some a → After F R c (f a c))
      → After F R c ((access o >>= f) c)
  After-access none f h k = faults (h refl)
  After-access (some a) f h k = k a refl

  pub After-if :
      (b : Bool) (m n : M B) {c : Client}
      → (b ≡ true → After F R c (m c))
      → (b ≡ false → After F R c (n c))
      → After F R c ((if b then m else n) c)
  After-if true m n h k = h refl
  After-if false m n h k = k refl

  then_run :
      {A : Type 0} {Q : A → Type 0} {f : A → M B} {c : Client} (o : Outcome A)
      → After F Q c o
      → ((a : A) (c' : Client) → IsAlike c c' → Q a → After F R c' (f a c'))
      → After F R c (elim o [ ok a c' ↦ f a c' | fault ↦ fault ])
  then_run (ok a c') (comes_back h q) k = After-alike h (k a c' h q)
  then_run fault (faults h) k = faults h

  pub After-bind :
      {A : Type 0} {Q : A → Type 0} (m : M A) {f : A → M B} {c : Client}
      → After F Q c (m c)
      → ((a : A) (c' : Client) → IsAlike c c' → Q a → After F R c' (f a c'))
      → After F R c ((m >>= f) c)
  After-bind m {f} {c} h k = then_run (m c) h k

module _ {F : Type 0} {A : Type 0} where
  pub Keeps-pure : (a : A) → Keeps F (pure a)
  Keeps-pure a = record { run = λ c. comes_back IsAlike-refl tt }

  pub Keeps-if : (b : Bool) {m n : M A} → Keeps F m → Keeps F n → Keeps F (if b then m else n)
  Keeps-if true h k = h
  Keeps-if false h k = k

  pub Keeps-bind :
      {B : Type 0} {m : M A} {f : A → M B}
      → Keeps F m
      → ((a : A) → Keeps F (f a))
      → Keeps F (m >>= f)
  Keeps-bind {B} {m} h k = record { run = λ c. After-bind m (h.run c) (λ a c' _ _. (k a).run c') }

  -- whatever the state that was read
  pub Keeps-get : {f : Client → M A} → ((c : Client) → Keeps F (f c)) → Keeps F (get >>= f)
  Keeps-get h = record { run = λ c. (h c).run c }

-- a step that changes nothing of the frame
pub Keeps-step :
    {F : Type 0} (g : Client → Client) → ((c : Client) → IsAlike c (g c)) → Keeps F (modify g)
Keeps-step g h = record { run = λ c. comes_back (h c) tt }

-- the value, or a fault
pub access-Keeps : {A : Type 0} (o : Option A) → Keeps (Unit {0}) (access o)
access-Keeps none = record { run = λ c. faults tt }
access-Keeps (some a) = record { run = λ c. comes_back IsAlike-refl tt }

pub Keeps-when : {F : Type 0} (b : Bool) {m : M (Unit {0})} → Keeps F m → Keeps F (when b m)
Keeps-when true h = h
Keeps-when false h = Keeps-pure tt

module _ {A : Type 0} where
  length_put :
      (b : Bool) (xs : List A) (i : ℕ) (v : A) (ys : List A)
      → (if b then some (set xs i v) else none) ≡ some ys
      → length ys ≡ length xs
  length_put true xs i v ys e = let same : set xs i v ≡ ys = cc in rw (sym same) (length-set xs i v)
  length_put false xs i v ys e = cc

  pub length-put_at :
      (xs : List A) (i : ℤ) (v : A) (ys : List A) → put_at xs i v ≡ some ys → length ys ≡ length xs
  length-put_at xs (negsuc k) v ys e = cc
  length-put_at xs (pos i) v ys e = length_put (ltb i (length xs)) xs i v ys e

-- where the value is there
pub access-After :
    {F A : Type 0} (o : Option A) {c : Client}
    → (o ≡ none → F)
    → After F (λ a. o ≡ some a) c (access o c)
access-After none h = faults (h refl)
access-After (some a) h = comes_back IsAlike-refl refl

-- the mutex is free and taken, or not free
pub After-mutex :
    {F : Type 0} {A : Type 0} {Q : A → Type 0} (b : Bool) {c : Client} {o o' : Outcome A}
    → After F Q c o
    → After F Q c o'
    → After F Q c (if b then o else o')
After-mutex true h k = h
After-mutex false h k = k

take_mutex-Keeps : {F : Type 0} → Keeps F take_mutex
unfolding take_mutex
take_mutex-Keeps = record {
  run = λ c.
      After-mutex c.pieces_locked (comes_back IsAlike-refl tt)
        (comes_back (record { same_frame = refl; same_peers = λ q. refl }) tt);
}

pub lock_piece-Keeps : {F : Type 0} → Keeps F lock_piece
unfolding lock_piece
lock_piece-Keeps =
    Keeps-bind
      (Keeps-step (λ c. record c { pieces_requesting = i32 (c.pieces_requesting +ℤ pos 1) })
        λ c. record { same_frame = refl; same_peers = λ q. refl })
      λ _.
        Keeps-get
          λ c. Keeps-if (ltb_ℤ c.pieces_requesting (pos 5)) (Keeps-pure true) take_mutex-Keeps

-- a call that cannot fault comes back
pub After-total :
    {A : Type 0} {Q : A → Type 0} {c : Client} {o : Outcome A}
    → After ⊥ Q c o
    → (a : A) × (c' : Client) × (o ≡ ok a c') × IsAlike c c' × Q a
After-total (comes_back {a} {c'} h q) = (a, c', refl, h, q)
After-total (faults f) = absurd f
