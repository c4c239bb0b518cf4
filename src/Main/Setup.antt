-- ===== src/Main/Setup.antt =====
-- mytorrent.c, `main` up to its loop: from the arguments and the metainfo file to the client and the
-- address of the tracker.
use simpletorrent_nju.Base.{
  ℕ, ◌==◌, if◌then◌else◌, Bool, false, not, List, [], ◌∷◌, ◌++◌, Option, none, some, Bytes, ℤ, pos,
  negsuc, eqb_ℤ,
}
use simpletorrent_nju.Words.{int_bytes}
use simpletorrent_nju.Socket.{SendEvent}
use simpletorrent_nju.Decimal.{atoi}
use simpletorrent_nju.Client.{Client, Torrent, Peer, Extern, Outcome}
use simpletorrent_nju.FileIo.Create.{createfile}
use simpletorrent_nju.Wire.Send.{refresh_bitfield}
use simpletorrent_nju.Metainfo.{Meta, parsetorrentfile}
use simpletorrent_nju.Tracker.Run.{Run, ok, exits, fault, pure, ◌>>=◌, access}
use simpletorrent_nju.Tracker.Announce.{parse_announce_url}
use simpletorrent_nju.Main.{Program}

-- What the program finds on the machine: its arguments, the address that get_local_ip writes, the
-- numbers of rand, the files (`torrent_file` for the metainfo, `none` where fopen fails), whether creat
-- and fopen succeed, the listening socket that make_listen_port gives or 0, whether its thread can be
-- created, the address that gethostbyname finds for a name, what the network will do with what is
-- sent, and what stands in memory that malloc has not given out.
pub record Host : Type 0 where
  pub argv : List Bytes
  pub local_ip : Bytes
  pub random : ℕ → ℤ
  pub torrent_file : Bytes → Option Bytes
  pub disk : Bytes → Option Bytes
  pub can_create : Bool
  pub can_open : Bool
  pub listen_port : ℤ → ℕ
  pub can_listen : Bool
  pub gethostbyname : Bytes → Option Bytes
  pub network : List SendEvent
  pub memory : ℕ → Peer

-- The program before its loop, with g_tracker_ip, g_tracker_port and listenfd.
pub record Started : Type 0 where
  pub program : Program
  pub tracker_ip : Bytes
  pub tracker_port : ℤ
  pub listenfd : ℕ

-- The torrent as the exchange reads it. The sizes of a torrent are not negative there; `none` else.
unfoldable pub torrent_of : Meta → Option Torrent
torrent_of m = elim m.piece_len [
  | negsuc k ↦ none
  | pos piece_len ↦ elim m.num_pieces [
    | negsuc k ↦ none
    | pos num_pieces ↦ elim m.begin_index [
      | negsuc k ↦ none
      | pos begin_index ↦ elim m.size [
        | negsuc k ↦ none
        | pos size ↦ some (record {
          info_hash = m.info_hash;
          piece_len = piece_len;
          num_pieces = num_pieces;
          pieces = m.pieces;
          begin_index = begin_index;
          size = size;
        })
      ]
    ]
  ]
]

-- Five numbers of rand.
unfoldable pub my_id : (ℕ → ℤ) → Bytes
my_id random =
    int_bytes (random 0)
    ++ (int_bytes (random 1)
        ++ (int_bytes (random 2) ++ (int_bytes (random 3) ++ int_bytes (random 4))))

-- The global variables behind createfile: what is not assigned is zero or NULL.
unfoldable pub first_client : Host → ℤ → Torrent → Bytes → Client
unfolding my_id
first_client h isseed t file = record {
  torrent = t;
  my_ip = h.local_ip;
  my_id = my_id h.random;
  file = file;
  downloaded = pos 0;
  bitfield = [];
  pieces_state_arr = [];
  pieces_num_in_peers = [];
  rest_pieces_num = pos 0;
  isseed = not (eqb_ℤ isseed (pos 0));
  tracker_answers = 0;
  tracker_peers = [];
  pool = [];
  heap = h.memory;
  next_peer = 0;
  is_end_game = false;
  have_pieces_num = pos 0;
  pieces_requesting = pos 0;
  pieces_locked = false;
  outbox = h.network;
  sent = [];
  closed = [];
  threads = [];
}

abbrev pub default_port : ℤ
default_port = pos 8530

-- The program with this client, at the loop.
abbrev pub at_loop : Client → Program
at_loop c = record {
  client = c;
  event = pos 0;
  port = default_port;
  uploaded = pos 0;
  arrays = false;
  created = false;
  request_threads = 0;
}

-- `globalInfo.bitfield = gen_bitfield(...)`.
unfoldable pub with_bitfield : Outcome (Unit {0}) → Run Client
with_bitfield (Outcome.ok u c) = ok c
with_bitfield Outcome.fault = fault

-- The value, or the end of the program with this status.
abbrev pub or_exit : {A : Type 0} → Option A → ℤ → Run A
or_exit none status = exits status
or_exit (some a) status = ok a

module _ (x : Extern) (h : Host) where
  -- From the name of the tracker on.
  unfoldable pub find_tracker : ℕ → Meta → Client → Run (Option Started)
  find_tracker listenfd m c = do
    url ← parse_announce_url x m.announce
    ip ← or_exit (h.gethostbyname url.hostname) (pos 1)
    pure (
        some (record {
          program = at_loop c;
          tracker_ip = ip;
          tracker_port = url.port;
          listenfd = listenfd;
        }))

  -- The listening socket and its thread. The result of `return -1` is that of exit(-1).
  unfoldable pub listen : Meta → Client → Run (Option Started)
  listen m c =
      let listenfd = h.listen_port default_port in
      if listenfd == 0
      then exits (negsuc 0)
      else if h.can_listen
      then find_tracker listenfd m c
      else exits (negsuc 0)

  -- The file, and the bitfield of what is in it. gen_bitfield reads a file that is NULL.
  unfoldable pub open_file : ℤ → Meta → Torrent → Run (Option Started)
  open_file isseed m t = do
    file ← access (createfile h.can_create h.can_open (h.disk m.filename) (pos t.size))
    c ← with_bitfield (refresh_bitfield x (first_client h isseed t file))
    listen m c

  -- What follows the parser; `none` where the sizes of the torrent are not followed.
  unfoldable pub with_meta : ℤ → Meta → Run (Option Started)
  with_meta isseed m = elim (torrent_of m) [ none ↦ pure none | some t ↦ open_file isseed m t ]

  -- The arguments have the zero at their end; a metainfo file that cannot be opened is followed.
  unfoldable pub with_args : ℕ → Bytes → Bytes → Run (Option Started)
  with_args f seed path = do
    isseed ← access (atoi seed)
    bytes ← access (h.torrent_file path)
    found ← parsetorrentfile x f bytes
    m ← or_exit found (negsuc 0)
    with_meta isseed m

  -- `f` is the fuel of the decoder.
  unfoldable pub setup : ℕ → Run (Option Started)
  setup f = elim h.argv [ name ∷ seed ∷ path ∷ more ↦ with_args f seed path | _ ↦ exits (negsuc 0) ]
