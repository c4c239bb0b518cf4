-- ===== src/Tracker/Http.antt =====
-- process_tracker_response.c: how the HTTP answer of the tracker is read from the socket.
pub mod Reading
pub mod Header
pub mod Answer
use simpletorrent_nju.Base.{
  ℕ, zero, suc, ◌+◌, ◌-◌, ltb, leb, ◌==◌, if◌then◌else◌, Bool, true, false, ◌||◌, ◌&&◌, List, [],
  ◌∷◌, ◌++◌, Option, none, some, Bytes, ℤ, pos, negsuc, eqb_ℤ, length, take, drop, replicate,
}
use simpletorrent_nju.Socket.{RecvEvent, Received, requeue, recv_once, segment, interrupted, broken}
use simpletorrent_nju.Client.{is_neg}
use simpletorrent_nju.Pool.{strncmp_eq}
use simpletorrent_nju.Decimal.{atoi}
use simpletorrent_nju.Text.{starts_with, strstr}
use simpletorrent_nju.Wire.Handshake.{codes}
use simpletorrent_nju.Tracker.Run.{Run, ok, fault, pure, ◌>>=◌, access}

abbrev pub max_line : ℕ
max_line = 4096

-- The while loop of `readn`, with `cnt` bytes of `len` to come. Behind the last event recv returns 0.
unfoldable pub readn_loop : List RecvEvent → ℕ → ℕ → Received
readn_loop events zero len = record { result = pos len; bytes = []; rest = events }
readn_loop [] (suc cnt) len = record { result = pos (len - suc cnt); bytes = []; rest = [] }
readn_loop (interrupted ∷ events) (suc cnt) len = readn_loop events (suc cnt) len
readn_loop (broken ∷ events) (suc cnt) len = record { result = negsuc 0; bytes = []; rest = events }
readn_loop (segment b bs ∷ events) (suc cnt) len =
    let more = readn_loop events (cnt - length bs) len in
    if ltb cnt (length bs)
    then record { result = pos len; bytes = b ∷ take cnt bs; rest = requeue (drop cnt bs) events }
    else record more { bytes = b ∷ (bs ++ more.bytes) }

-- `readn(fd, bp, len)`; a negative `len` comes back through `size_t`.
unfoldable pub readn : List RecvEvent → ℤ → Received
unfolding readn_loop
readn events (pos len) = readn_loop events len len
readn events (negsuc k) = record { result = negsuc k; bytes = []; rest = events }

-- The four bytes from a carriage return on; what did not come is zero.
abbrev pub four_bytes : Received → Bytes
four_bytes r = take 4 (13 ∷ (r.bytes ++ replicate 3 0))

abbrev pub with_front : Bytes → Bytes × List RecvEvent → Bytes × List RecvEvent
with_front front (more, rest) = (front ++ more, rest)

-- What has been read of the header, and what is still to come.
abbrev pub Header : Type 0
Header = Bytes × List RecvEvent

-- Behind a byte that is no carriage return, where there was room for it.
unfoldable pub plain_byte :
    Bool → ℕ → List RecvEvent → ℕ → (ℕ → List RecvEvent → Run Header) → Run Header
plain_byte false c rest room again = fault
plain_byte true c rest room again = do more ← again (room - 1) rest; pure (with_front (c ∷ []) more)

-- Behind a carriage return and three more bytes; the header ends where they are an empty line.
unfoldable pub line_end : Bool → Received → ℕ → (ℕ → List RecvEvent → Run Header) → Run Header
line_end true r room again = pure (four_bytes r, r.rest)
line_end false r room again = do
  more ← again (room - 4) r.rest
  pure (with_front (four_bytes r) more)

unfoldable pub four_read : Bool → Received → ℕ → (ℕ → List RecvEvent → Run Header) → Run Header
four_read false r room again = fault
four_read true r room again = line_end (strncmp_eq 4 (four_bytes r) (codes "\r\n\r\n")) r room again

unfoldable pub at_return :
    Bool → ℕ → List RecvEvent → ℕ → (ℕ → List RecvEvent → Run Header) → Run Header
at_return false c rest room again = plain_byte (leb 1 room) c rest room again
at_return true c rest room again = four_read (leb 4 room) (readn rest (pos 3)) room again

unfoldable pub header_round : Received → ℕ → (ℕ → List RecvEvent → Run Header) → Run Header
header_round r room again = elim r.bytes [
  | [] ↦ pure ([], r.rest)
  | c ∷ none_left ↦ at_return (c == 13) c r.rest room again
]

-- The loop that reads the header, with `room` bytes left of `recvline` and `f` rounds: each takes a
-- byte at least.
unfoldable pub read_header : ℕ → ℕ → List RecvEvent → Run Header
read_header zero room inbox = fault
read_header (suc f) room inbox = header_round (readn inbox (pos 1)) room (read_header f)

-- The number in a line `Content-Length: ...`, by way of `lenfield`, an array of 20.
unfoldable pub content_length : Bytes → Run ℤ
content_length line =
    let field = drop 16 line in
    if leb 16 (length line) && leb (length field) 20
    then access (atoi (field ++ replicate (20 - length field) 0))
    else fault

unfoldable pub is_ok_line : Bytes → Bool
is_ok_line line =
    starts_with (codes "HTTP/1.1 200 OK") line || starts_with (codes "HTTP/1.0 200 OK") line

-- The first line; `none` where NULL is returned.
unfoldable pub status_line : Bool → ℤ → (ℤ → Run (Option ℤ)) → Run (Option ℤ)
status_line true len again = again len
status_line false len again = pure none

-- Another line, by whether it begins with `Content-Length`.
unfoldable pub other_line : Bool → Bytes → ℤ → (ℤ → Run (Option ℤ)) → Run (Option ℤ)
other_line true line len again = do n ← content_length line; again n
other_line false line len again = again len

-- A line, by whether it fits into the 80 bytes of `buf` and is the first one.
unfoldable pub in_buffer : Bool → Bool → Bytes → ℤ → (ℤ → Run (Option ℤ)) → Run (Option ℤ)
in_buffer false first line len again = fault
in_buffer true true line len again = status_line (is_ok_line line) len again
in_buffer true false line len again =
    other_line (starts_with (codes "Content-Length") line) line len again

unfoldable pub parse_round :
    Option (Bytes × Bytes) → Bool → ℤ → (Bytes → ℤ → Run (Option ℤ)) → Run (Option ℤ)
parse_round none first len again = pure (some len)
parse_round (some ([], found)) first len again = pure (some len)
parse_round (some (c ∷ line, found)) first len again =
    in_buffer (leb (length (c ∷ line)) 80) first (c ∷ line) len (again (drop 2 found))

-- The loop over the lines from `begin` on: the length, or `none` where NULL is returned. Each round
-- takes two bytes at least of the `f` that there are.
unfoldable pub parse_header : ℕ → Bool → Bytes → ℤ → Run (Option ℤ)
parse_header zero first s len = pure (some len)
parse_header (suc f) first s len =
    parse_round (strstr s (codes "\r\n")) first len (parse_header f false)

-- `tracker_response`: behind the `size` bytes of `data` there is a zero.
pub record TrackerResponse : Type 0 where
  pub size : ℤ
  pub data_bytes : Bytes

-- The `n` bytes of the content, of which some may not have come: what did not is zero.
abbrev pub full_content : ℕ → Bytes → Run (Option TrackerResponse)
full_content n bytes =
    if leb n max_line
    then pure (some (record { size = pos n; data_bytes = bytes ++ replicate (n - length bytes) 0 }))
    else fault

abbrev pub with_length : ℤ → Received → Run (Option TrackerResponse)
with_length (negsuc k) r = pure none
with_length (pos n) r = if is_neg r.result then pure none else full_content n r.bytes

abbrev pub without_length : Received → Run (Option TrackerResponse)
without_length r =
    if is_neg r.result
    then pure none
    else pure (some (record { size = r.result; data_bytes = r.bytes }))

-- The content, with a length and without.
unfoldable pub read_content : List RecvEvent → ℤ → Run (Option TrackerResponse)
read_content inbox len =
    if eqb_ℤ len (negsuc 0)
    then without_length (recv_once inbox max_line)
    else with_length len (readn inbox len)

unfoldable pub preprocess_tracker_response : List RecvEvent → Run (Option TrackerResponse)
preprocess_tracker_response inbox = do
  header ← read_header (max_line + 1) max_line inbox
  found ← parse_header (length header.0) true header.0 (negsuc 0)
  elim found [ none ↦ pure none | some len ↦ read_content header.1 len ]
