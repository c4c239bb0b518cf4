-- ===== src/Socket.antt =====
-- The loops `Recv` and `Send` of peer_wire.c around the socket calls recv and send. What the network
-- does is a list of events: the results of the system calls in the order in which they are made.
pub mod Stream
pub mod Line
pub mod Takes
use simpletorrent_nju.Base.{
  ℕ, zero, suc, ◌+◌, ◌-◌, leb, if◌then◌else◌, List, [], ◌∷◌, ◌++◌, Bytes, length, take, drop, ℤ,
  pos, negsuc,
}

-- What waits at a socket for recv: some bytes, a signal (EINTR) or an error. A call takes as many
-- bytes of a segment as it asked for, and leaves the others. Behind the last event the peer has
-- closed the connection, and recv returns 0.
pub data RecvEvent : Type 0 where
  segment : ℕ → Bytes → RecvEvent
  interrupted : RecvEvent
  broken : RecvEvent

-- What a call returns, the bytes that it has put into the buffer, and what still waits.
pub record Received : Type 0 where
  pub result : ℤ
  pub bytes : Bytes
  pub rest : List RecvEvent

abbrev pub requeue : Bytes → List RecvEvent → List RecvEvent
requeue [] events = events
requeue (b ∷ bs) events = segment b bs ∷ events

-- The while loop; `cnt` bytes of `len` are still to come.
unfoldable pub recv_loop : List RecvEvent → ℕ → ℕ → Received
recv_loop events zero len = record { result = pos len; bytes = []; rest = events }
recv_loop [] (suc cnt) len = record { result = pos (len - suc cnt); bytes = []; rest = [] }
recv_loop (interrupted ∷ events) (suc cnt) len = recv_loop events (suc cnt) len
recv_loop (broken ∷ events) (suc cnt) len = record { result = negsuc 0; bytes = []; rest = events }
recv_loop (segment b bs ∷ events) (suc cnt) len =
    let more = recv_loop events (cnt - length bs) len in
    if leb (length bs) cnt
    then record more { bytes = (b ∷ bs) ++ more.bytes }
    else record { result = pos len; bytes = b ∷ take cnt bs; rest = requeue (drop cnt bs) events }

-- `Recv(fd, bp, len)`: a negative `len` leaves the loop at once and comes back.
unfoldable pub recv_all : List RecvEvent → ℤ → Received
unfolding recv_loop
recv_all events (pos len) = recv_loop events len len
recv_all events (negsuc k) = record { result = negsuc k; bytes = []; rest = events }

-- One call of recv for `cnt` bytes, as `wait_first_handshake` makes it.
unfoldable pub recv_once : List RecvEvent → ℕ → Received
recv_once [] cnt = record { result = pos 0; bytes = []; rest = [] }
recv_once (interrupted ∷ events) cnt = record { result = negsuc 0; bytes = []; rest = events }
recv_once (broken ∷ events) cnt = record { result = negsuc 0; bytes = []; rest = events }
recv_once (segment b bs ∷ events) cnt =
    let found = take cnt (b ∷ bs) in
    record { result = pos (length found); bytes = found; rest = requeue (drop cnt (b ∷ bs)) events }

-- The results of send: a positive number of bytes, a signal, an error, or 0. Behind the last event
-- every call sends all that it is given.
pub data SendEvent : Type 0 where
  accepts_suc : ℕ → SendEvent
  interrupted : SendEvent
  broken : SendEvent
  accepts_none : SendEvent

-- What `Send` returns, the bytes that went out, and the events that are left.
pub record Sent : Type 0 where
  pub result : ℤ
  pub bytes : Bytes
  pub rest : List SendEvent

unfoldable pub send_loop : List SendEvent → Bytes → ℕ → Sent
send_loop events [] len = record { result = pos len; bytes = []; rest = events }
send_loop [] (b ∷ bs) len = record { result = pos len; bytes = b ∷ bs; rest = [] }
send_loop (interrupted ∷ events) (b ∷ bs) len = send_loop events (b ∷ bs) len
send_loop (broken ∷ events) (b ∷ bs) len = record { result = negsuc 0; bytes = []; rest = events }
send_loop (accepts_none ∷ events) (b ∷ bs) len = record {
  result = pos (len - length (b ∷ bs));
  bytes = [];
  rest = events;
}
send_loop (accepts_suc k ∷ events) (b ∷ bs) len =
    let more = send_loop events (drop k bs) len in
    record more { bytes = (b ∷ take k bs) ++ more.bytes }

-- `Send(fd, bp, len)` on a buffer of `len` bytes.
unfoldable pub send_all : List SendEvent → Bytes → Sent
unfolding send_loop
send_all events bytes = send_loop events bytes (length bytes)
