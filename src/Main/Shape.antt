-- ===== src/Main/Shape.antt =====
-- What the main thread stores of the tracker's answer sets the arrays up the first time, and keeps the
-- shape of the client later on.
use simpletorrent_nju.Base.{◌+◌, refl, true, false, List, none, ℕ, Option, map}
use simpletorrent_nju.Client.{Client, Extern}
use simpletorrent_nju.Client.Frame.{Keeps, Keeps-bind, Keeps-pure, Keeps-get, Keeps-step}
use simpletorrent_nju.Client.Preserves.{Leaves, Leaves-bind}
use simpletorrent_nju.Pool.Shape.{IsShaped}
use simpletorrent_nju.Start.Shape.{
  IsFresh, init_pieces_state_arr-HasStates, init_pieces_num_in_peers-IsShaped,
}
use simpletorrent_nju.Start.{init_pieces_state_arr, init_pieces_num_in_peers}
use simpletorrent_nju.Main.Prepare.{peer_data, prepare}
use simpletorrent_nju.Tracker.Response.{Entry}

pub prepare-Keeps : (x : Extern) (peers : List Entry) → Keeps (Unit {0}) (prepare x true peers)
unfolding prepare init_pieces_state_arr init_pieces_num_in_peers
prepare-Keeps x peers =
    Keeps-bind
      (Keeps-step
        (λ c. record c {
          tracker_answers = c.tracker_answers + 1;
          tracker_peers = map peer_data peers;
        })
        λ c. record { same_frame = refl; same_peers = λ q. refl })
      λ _. Keeps-get λ c. Keeps-bind (Keeps-pure {A = Option (List ℕ)} none) λ _. Keeps-pure none

-- The first time the arrays are set up, where there is no connection yet.
pub prepare-IsShaped :
    (x : Extern) (peers : List Entry) (c : Client)
    → IsFresh c
    → Leaves IsShaped (prepare x false peers c)
unfolding prepare
prepare-IsShaped x peers c h =
    Leaves-bind (init_pieces_state_arr x none)
      (init_pieces_state_arr-HasStates x
        (record c { tracker_answers = c.tracker_answers + 1; tracker_peers = map peer_data peers })
        h)
      λ _ c' k. init_pieces_num_in_peers-IsShaped c' k
