-- ===== src/Tracker/Http/Reading.antt =====
-- What `readn` of process_tracker_response.c reads.
use Prim.Native.Nat.{min}
use simpletorrent_nju.Socket.Stream.{stream, IsReliable, recv_all-stream}
use simpletorrent_nju.Base.{
  take, drop, ◌≡◌, refl, ℕ, zero, suc, ◌-◌, ltb, leb, Bool-cases, inl, inr, true, false, List, [],
  ◌∷◌, pos, length, arith,
}
use simpletorrent_nju.Socket.{RecvEvent, recv_loop, recv_all, segment, interrupted, broken}
use simpletorrent_nju.Tracker.Http.{readn_loop, readn}

within : (a b : ℕ) → leb a b ≡ true → ltb b a ≡ false
within a b h = ground arith

overshoot : (a b : ℕ) → leb a b ≡ false → ltb b a ≡ true
overshoot a b h = ground arith

readn_loop-recv_loop :
    (events : List RecvEvent) (cnt len : ℕ) → readn_loop events cnt len ≡ recv_loop events cnt len
unfolding readn_loop recv_loop
readn_loop-recv_loop events zero len = refl
readn_loop-recv_loop [] (suc cnt) len = refl
readn_loop-recv_loop (interrupted ∷ events) (suc cnt) len =
    readn_loop-recv_loop events (suc cnt) len
readn_loop-recv_loop (broken ∷ events) (suc cnt) len = refl
readn_loop-recv_loop (segment b bs ∷ events) (suc cnt) len =
    elim (Bool-cases (leb (length bs) cnt)) [
      | inl e ↦
          rw e
            (rw (within (length bs) cnt e) (rw (readn_loop-recv_loop events (cnt - length bs) len)))
      | inr e ↦ rw e (rw (overshoot (length bs) cnt e))
    ]

pub readn-recv_all :
    (events : List RecvEvent) (len : ℕ) → readn events (pos len) ≡ recv_all events (pos len)
unfolding readn recv_all
readn-recv_all events len = readn_loop-recv_loop events len len

-- On a connection where no recv fails, `readn` of `len` bytes returns the first `len` bytes of the
-- stream, or all of it where the tracker closes earlier, however the network cuts the stream up; its
-- result is their number, and the others stay for the next call.
pub readn-stream :
    (events : List RecvEvent) (len : ℕ)
    → IsReliable events
    → ((readn events (pos len)).bytes ≡ take len (stream events))
      × ((readn events (pos len)).result ≡ pos (min len (length (stream events))))
      × (stream (readn events (pos len)).rest ≡ drop len (stream events))
      × IsReliable (readn events (pos len)).rest
readn-stream events len h = rw (readn-recv_all events len) (recv_all-stream events len h)
