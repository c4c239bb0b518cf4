-- ===== src/Main/Rounds.antt =====
-- The main loop as a step relation on the program's state.
use simpletorrent_nju.Base.{
  ◌≡◌, refl, subst, ◌⊎◌, inl, inr, ℕ, ◌≤◌, Bool, if◌then◌else◌, true, false, List, ℤ, pos, negsuc,
  arith,
}
use simpletorrent_nju.Socket.{RecvEvent}
use simpletorrent_nju.Client.{Client, Extern, Outcome}
use simpletorrent_nju.Wire.Handshake.{peer_connect}
use simpletorrent_nju.Tracker.Run.{Run, ok, exits, aborts, fault, goes_on, ◌>>=◌, access}
use simpletorrent_nju.Tracker.Response.{TrackerData}
use simpletorrent_nju.Main.{
  Program, after_request, told, with_client, create_request_file_thread, exchange, main_round,
}
use simpletorrent_nju.Main.Prepare.{prepare}

-- Before the loop, with the client as it is then.
abbrev pub start : Client → ℤ → Program
start c port = record {
  client = c;
  event = pos 0;
  port = port;
  uploaded = pos 0;
  arrays = false;
  created = false;
  request_threads = 0;
}

infix 40 ◌⟶◌ ◌⟶*◌
-- A step is a round of the loop that comes to its end, or what other threads do to the client.
pub data ◌⟶◌ : Program → Program → Type 0 where
  round :
      {p q : Program} (x : Extern) (f : ℕ) (sent : Bool) (inbox : List RecvEvent) (spawned : Bool)
      → main_round x f sent inbox spawned p ≡ ok q
      → p ⟶ q
  others : {p : Program} (c : Client) → p ⟶ record p { client = c }

pub data ◌⟶*◌ : Program → Program → Type 0 where
  here : {p : Program} → p ⟶* p
  next : {p q r : Program} → p ⟶ q → q ⟶* r → p ⟶* r

-- what a step ends with comes from what its parts end with
bind_inversion :
    {A B : Type 0} (m : Run A) (f : A → Run B) {b : B}
    → (m >>= f) ≡ ok b
    → (a : A) × (m ≡ ok a) × (f a ≡ ok b)
bind_inversion (ok a) f e = (a, refl, e)
bind_inversion (exits z) f e = cc
bind_inversion aborts f e = cc
bind_inversion fault f e = cc
bind_inversion goes_on f e = cc

ok_inj : {A : Type 0} {a b : A} → ok a ≡ ok b → a ≡ b
ok_inj e = cc

-- What the loop keeps: at most one thread sends requests, and none before `created` is set; the event
-- is BT_STARTED or none.
pub record IsOrderly (p : Program) : Type 0 where
  pub single : p.request_threads ≤ 1
  pub counted : p.created ≡ false → p.request_threads ≡ 0
  pub event : (p.event ≡ pos 0) ⊎ (p.event ≡ negsuc 0)

with_client-IsOrderly :
    {A : Type 0} (p : Program) (o : Outcome A) {q : Program}
    → IsOrderly p
    → with_client p o ≡ ok q
    → IsOrderly q
with_client-IsOrderly p (Outcome.ok a c) h e =
    subst IsOrderly (ok_inj e) (record { single = h.single; counted = h.counted; event = h.event })
with_client-IsOrderly p Outcome.fault h e = cc

if-IsOrderly :
    (b : Bool) {p q : Program}
    → IsOrderly p
    → (b ≡ false → IsOrderly q)
    → IsOrderly (if b then p else q)
if-IsOrderly true h k = h
if-IsOrderly false h k = k refl

create-IsOrderly :
    (spawned : Bool) (p : Program) → IsOrderly p → IsOrderly (create_request_file_thread spawned p)
unfolding create_request_file_thread
create-IsOrderly spawned p h = if-IsOrderly p.created h λ e. record {
  single = (let none_yet = h.counted e in ground arith);
  counted = λ contrary. cc contrary;
  event = h.event;
}

exchange-IsOrderly :
    (x : Extern) (spawned : Bool) (td : TrackerData) (p : Program) {q : Program}
    → IsOrderly p
    → exchange x spawned td p ≡ ok q
    → IsOrderly q
unfolding exchange
exchange-IsOrderly x spawned td p h e =
    let (peers, _, e') = bind_inversion (access td.peers) _ e in
    let (prepared, first, e'') =
      bind_inversion (with_client p (prepare x p.arrays peers p.client)) _ e' in
    let before = with_client-IsOrderly p (prepare x p.arrays peers p.client) h first in
    let q = create_request_file_thread spawned (record prepared { arrays = true }) in
    let created =
      create-IsOrderly spawned (record prepared { arrays = true })
        (record { single = before.single; counted = before.counted; event = before.event }) in
    with_client-IsOrderly q (peer_connect x q.client) created e''

main_round-IsOrderly :
    (x : Extern) (f : ℕ) (sent : Bool) (inbox : List RecvEvent) (spawned : Bool) (p : Program)
    {q : Program}
    → IsOrderly p
    → main_round x f sent inbox spawned p ≡ ok q
    → IsOrderly q
unfolding main_round after_request
main_round-IsOrderly x f false inbox spawned p h e =
    subst IsOrderly (ok_inj e) (record { single = h.single; counted = h.counted; event = inr refl })
main_round-IsOrderly x f true inbox spawned p h e =
    let (td, _, e') = bind_inversion (told x f inbox) _ e in
    exchange-IsOrderly x spawned td (after_request p)
      (record { single = h.single; counted = h.counted; event = inr refl }) e'

step-IsOrderly : {p q : Program} → p ⟶ q → IsOrderly p → IsOrderly q
step-IsOrderly (round {p} x f sent inbox spawned e) h =
    main_round-IsOrderly x f sent inbox spawned p h e
step-IsOrderly (others c) h = record { single = h.single; counted = h.counted; event = h.event }

run-IsOrderly : {p q : Program} → p ⟶* q → IsOrderly p → IsOrderly q
run-IsOrderly here h = h
run-IsOrderly (next s more) h = run-IsOrderly more (step-IsOrderly s h)

-- In every state that the main loop reaches from the start of the program, by any rounds and anything
-- that the other threads do to the client in between, at most one thread runs `request_file`, none
-- does before `created` is set, and the event of the next request is BT_STARTED or none.
pub start-IsOrderly : (c : Client) (port : ℤ) {q : Program} → start c port ⟶* q → IsOrderly q
start-IsOrderly c port run =
    run-IsOrderly run (record { single = omega arith; counted = λ e. refl; event = inl refl })
