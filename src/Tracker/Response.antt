-- ===== src/Tracker/Response.antt =====
-- process_tracker_response.c: what the bencoded answer of the tracker says.
pub mod Compact
use simpletorrent_nju.Base.{
  ℕ, zero, suc, ◌+◌, ◌*◌, ◌/◌, ltb, leb, ◌==◌, if◌then◌else◌, Bool, true, false, List, [], ◌∷◌,
  ◌++◌, Option, none, some, Bytes, ℤ, pos, negsuc, i32, eqb_ℤ, length, take, replicate,
  tabulate_from,
}
use simpletorrent_nju.Words.{int_at}
use simpletorrent_nju.Client.{Extern}
use simpletorrent_nju.Pool.{strncmp_eq}
use simpletorrent_nju.Decimal.{decimal}
use simpletorrent_nju.Text.{until_zero}
use simpletorrent_nju.Wire.Handshake.{codes}
use simpletorrent_nju.Bencode.{
  Node, Items, Fields, null, be_str, be_int, be_list, be_dict, no_items, item, no_fields, field,
  be_decoden, Result, returns, faults, goes_on,
}
use simpletorrent_nju.Bencode.Free.{be_str_len}
use simpletorrent_nju.Tracker.Run.{Run, ok, exits, aborts, fault, pure, ◌>>=◌, access}

-- `peerdata`, with the C types of its fields; the arrays are their bytes up to the last that was
-- written.
pub record Entry : Type 0 where
  pub id : Bytes
  pub port : ℤ
  pub ip : Bytes
  pub state : ℤ

-- `tracker_data`: `numpeers` is the length of `peers`, and `none` is a list that was not assigned.
pub record TrackerData : Type 0 where
  pub interval : ℤ
  pub peers : Option (List Entry)

-- `sprintf(ip, "%d.%d.%d.%d", ...)`.
unfoldable pub ip_text : ℕ → ℕ → ℕ → ℕ → Bytes
ip_text a b c d = decimal a ++ 46 ∷ (decimal b ++ 46 ∷ (decimal c ++ 46 ∷ decimal d))

-- The entry of six bytes of the compact form; `state` is not assigned.
unfoldable pub compact_entry : Extern → ℕ → ℕ → ℕ → ℕ → ℕ → ℕ → Entry
compact_entry x a b c d e f = record {
  id = replicate 21 0;
  port = pos (e * 256 + f);
  ip = ip_text a b c d;
  state = x.junk_int 0;
}

-- The for loop over the compact form, with `n` rounds left.
unfoldable pub compact : Extern → ℕ → Bytes → Run (List Entry)
compact x zero s = pure []
compact x (suc n) (a ∷ b ∷ c ∷ d ∷ e ∷ f ∷ s) = do
  more ← compact x n s
  pure (compact_entry x a b c d e f ∷ more)
compact x (suc n) s = fault

-- `val.s` of a node that was made as a string.
abbrev pub text_of : Node → Option Bytes
text_of (be_str s) = s
text_of v = none

-- `(int)val.i`; of a node that is no number, some part of another member of the union.
abbrev pub number_of : Extern → Node → ℤ
number_of x (be_int z) = i32 z
number_of x v = x.junk_int 0

-- `memcpy(peer->id, s, 20); peer->id[20] = '\0';` from a string with a zero behind it.
unfoldable pub copy_id : Bytes → Run Bytes
copy_id s = if leb 20 (length s + 1) then pure (take 20 (s ++ 0 ∷ []) ++ 0 ∷ []) else fault

-- `strcpy(peer->ip, s)` into 16 bytes.
unfoldable pub copy_ip : Bytes → Run Bytes
unfolding until_zero
copy_ip s = if ltb (length (until_zero s)) 16 then pure (until_zero s ++ 0 ∷ []) else fault

set_id : Bytes → Node → Entry → Run Entry
unfolding strncmp_eq copy_id
set_id key v p =
    if strncmp_eq 7 key (codes "peer id")
    then (do s ← access (text_of v); id ← copy_id s; pure (record p { id = id }))
    else pure p

set_ip : Bytes → Node → Entry → Run Entry
unfolding strncmp_eq copy_ip
set_ip key v p =
    if strncmp_eq 2 key (codes "ip")
    then (do s ← access (text_of v); ip ← copy_ip s; pure (record p { ip = ip }))
    else pure p

set_port : Extern → Bytes → Node → Entry → Run Entry
unfolding strncmp_eq
set_port x key v p =
    if strncmp_eq 4 key (codes "port") then pure (record p { port = number_of x v }) else pure p

-- The loop over the keys of a peer's dictionary; it ends at the first value of NULL.
unfoldable pub peer_fields : Extern → Fields → Entry → Run Entry
unfolding set_id set_ip set_port
peer_fields x no_fields p = pure (record p { state = pos 0 })
peer_fields x (field key null vs) p = pure (record p { state = pos 0 })
peer_fields x (field none v vs) p = fault
peer_fields x (field (some key) v vs) p = do
  with_id ← set_id key v p
  with_ip ← set_ip key v with_id
  with_port ← set_port x key v with_ip
  peer_fields x vs with_port

unfoldable pub get_peer_data : Extern → Node → Entry → Run Entry
unfolding peer_fields
get_peer_data x null p = fault
get_peer_data x (be_dict vs) p = peer_fields x vs p
get_peer_data x v p = exits (negsuc 11)

-- The branch for a dictionary reads the array of pairs as an array of nodes, and so the text of the
-- first key as a node, its first four bytes as the type. With a first key of NULL there is no peer.
unfoldable pub peers_of_dict : Extern → Fields → Run (List Entry)
unfolding int_at
peers_of_dict x no_fields = fault
peers_of_dict x (field none v vs) = pure []
peers_of_dict x (field (some key) v vs) =
    if eqb_ℤ (int_at (take 4 (key ++ 0 ∷ tabulate_from 0 4 x.junk))) (pos 3)
    then fault
    else exits (negsuc 11)

unfoldable pub get_peers : Extern → Node → Run (List Entry)
unfolding compact be_str_len peers_of_dict
get_peers x null = fault
get_peers x (be_str none) = pure []
get_peers x (be_str (some s)) = compact x (be_str_len (some s) / 6) s
get_peers x (be_dict vs) = peers_of_dict x vs
get_peers x v = aborts

set_interval : Extern → Bytes → Node → TrackerData → TrackerData
unfolding strncmp_eq
set_interval x key v td =
    if strncmp_eq 8 key (codes "interval") then record td { interval = number_of x v } else td

set_peers : Extern → Bytes → Node → TrackerData → Run TrackerData
unfolding strncmp_eq
set_peers x key v td =
    if strncmp_eq 5 key (codes "peers")
    then (do peers ← get_peers x v; pure (record td { peers = some peers }))
    else pure td

-- The loop over the keys of the answer.
unfoldable pub tracker_fields : Extern → Fields → TrackerData → Run TrackerData
unfolding strncmp_eq set_interval set_peers
tracker_fields x no_fields td = pure td
tracker_fields x (field key null vs) td = pure td
tracker_fields x (field none v vs) td = fault
tracker_fields x (field (some key) v vs) td =
    if strncmp_eq 14 key (codes "failure reason")
    then exits (negsuc 11)
    else (do td' ← set_peers x key v (set_interval x key v td); tracker_fields x vs td')

-- What follows the decoder. The values of fresh memory are those of `x`.
unfoldable pub tracker_data_of : Extern → Result → Run TrackerData
unfolding tracker_fields
tracker_data_of x (returns null) = fault
tracker_data_of x (returns (be_dict vs)) =
    tracker_fields x vs (record { interval = x.junk_int 0; peers = none })
tracker_data_of x (returns v) = exits (negsuc 11)
tracker_data_of x faults = fault
tracker_data_of x goes_on = Run.goes_on

-- `f` is the fuel of the decoder.
unfoldable pub get_tracker_data : Extern → ℕ → Bytes → ℤ → Run TrackerData
unfolding be_decoden tracker_data_of
get_tracker_data x f bytes len = tracker_data_of x (be_decoden f bytes len)
