-- ===== src/Main.antt =====
-- mytorrent.c: the loop of the main thread, which asks the tracker again and again. A socket to the
-- tracker is what send answers and what arrives on it.
pub mod Prepare
pub mod Rounds
pub mod Shape
pub mod Setup
use simpletorrent_nju.Base.{
  ℕ, suc, ◌+◌, if◌then◌else◌, Bool, true, false, List, Option, none, some, Bytes, ℤ, pos, negsuc,
  map, bits32, take,
}
use simpletorrent_nju.Socket.{RecvEvent}
use simpletorrent_nju.Client.{Client, Extern, Outcome}
use simpletorrent_nju.Main.Prepare.{prepare}
use simpletorrent_nju.Wire.Handshake.{peer_connect}
use simpletorrent_nju.Tracker.Run.{Run, ok, fault, pure, ◌>>=◌, access}
use simpletorrent_nju.Tracker.Request.{HttpRequest, make_tracker_request}
use simpletorrent_nju.Tracker.Http.{TrackerResponse, preprocess_tracker_response}
use simpletorrent_nju.Tracker.Response.{Entry, TrackerData, get_tracker_data}

-- The client and what belongs to the main thread: the event of the next request, g_peer_port and
-- g_uploaded, whether the arrays of the pieces are there, the static `created`, and the number of
-- threads that run `request_file`.
pub record Program : Type 0 where
  pub client : Client
  pub event : ℤ
  pub port : ℤ
  pub uploaded : ℤ
  pub arrays : Bool
  pub created : Bool
  pub request_threads : ℕ

-- The request of a round; the event is given up before it is sent.
unfoldable pub request_of : Program → HttpRequest
request_of p = make_tracker_request p.event p.client p.port p.uploaded

unfoldable pub after_request : Program → Program
after_request p = record p { event = negsuc 0 }

-- The copy of the data without the zero behind it, decoded.
abbrev pub decode_copy : Extern → ℕ → ℤ → Bytes → Run TrackerData
decode_copy x f (pos n) bytes = get_tracker_data x f (take n bytes) (pos n)
decode_copy x f (negsuc k) bytes = fault

unfoldable pub decode_response : Extern → ℕ → TrackerResponse → Run TrackerData
decode_response x f r = decode_copy x f r.size r.data_bytes

-- What the tracker says. NULL is followed.
unfoldable pub told : Extern → ℕ → List RecvEvent → Run TrackerData
told x f inbox = do
  found ← preprocess_tracker_response inbox
  response ← access found
  decode_response x f response

abbrev pub with_client : {A : Type 0} → Program → Outcome A → Run Program
with_client p (Outcome.ok a c) = ok (record p { client = c })
with_client p Outcome.fault = fault

-- pthread_create never returns a negative number: `created` is set where it fails too.
unfoldable pub create_request_file_thread : Bool → Program → Program
create_request_file_thread spawned p = if p.created then p else record p {
  created = true;
  request_threads = if spawned then suc p.request_threads else p.request_threads;
}

-- The rest of a round behind the tracker's data; a list that was not assigned is followed.
unfoldable pub exchange : Extern → Bool → TrackerData → Program → Run Program
exchange x spawned td p = do
  peers ← access td.peers
  prepared ← with_client p (prepare x p.arrays peers p.client)
  let q = create_request_file_thread spawned (record prepared { arrays = true })
  with_client q (peer_connect x q.client)

-- A round: `sent` is whether send succeeds, `spawned` whether a thread can be created.
unfoldable pub main_round : Extern → ℕ → Bool → List RecvEvent → Bool → Program → Run Program
main_round x f false inbox spawned p = pure (after_request p)
main_round x f true inbox spawned p = do
  td ← told x f inbox
  exchange x spawned td (after_request p)
