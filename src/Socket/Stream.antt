-- ===== src/Socket/Stream.antt =====
-- `Recv` and `Send` as operations on streams of bytes.
use Prim.Native.Nat.{min}
use mathlib.Core.List.{append-nil, append_assoc}
use simpletorrent_nju.Base.{
  ℕ, zero, suc, ◌-◌, ◌≤◌, ◌<◌, ◌⊎◌, ◌≡◌, refl, ap, sym, ◌∙◌, leb, Bool-cases, inl, inr, List, [],
  ◌∷◌, ◌++◌, Bytes, length, take, drop, pos, negsuc, arith, length-append, take-append-drop,
  length-drop,
}
use simpletorrent_nju.Socket.{
  RecvEvent, Received, recv_loop, recv_all, requeue, SendEvent, send_loop, send_all,
}

-- All the bytes that the peer sends before it closes the connection.
abbrev pub stream : List RecvEvent → Bytes
stream [] = []
stream (RecvEvent.segment b bs ∷ events) = b ∷ (bs ++ stream events)
stream (RecvEvent.interrupted ∷ events) = stream events
stream (RecvEvent.broken ∷ events) = stream events

-- No recv fails.
abbrev pub IsReliable : List RecvEvent → Type 0
IsReliable [] = Unit {0}
IsReliable (RecvEvent.segment b bs ∷ events) = IsReliable events
IsReliable (RecvEvent.interrupted ∷ events) = IsReliable events
IsReliable (RecvEvent.broken ∷ events) = ⊥

pub stream-requeue :
    (bs : Bytes) (events : List RecvEvent) → stream (requeue bs events) ≡ bs ++ stream events
stream-requeue [] events = refl
stream-requeue (b ∷ bs) events = refl

IsReliable-requeue :
    (bs : Bytes) (events : List RecvEvent) → IsReliable events → IsReliable (requeue bs events)
IsReliable-requeue [] events h = h
IsReliable-requeue (b ∷ bs) events h = h

suc-sub-suc : (a b : ℕ) → suc a - suc b ≡ a - b
suc-sub-suc a b = omega arith

module _ {ℓ} {A : Type ℓ} where
  pub take-append_le : (n : ℕ) (xs ys : List A) → n ≤ length xs → take n (xs ++ ys) ≡ take n xs
  take-append_le zero xs ys h = refl
  take-append_le (suc n) [] ys h = absurd (omega arith)
  take-append_le (suc n) (x ∷ xs) ys h = ap (◌∷◌ x) (take-append_le n xs ys (omega arith))

  pub drop-append_le :
      (n : ℕ) (xs ys : List A) → n ≤ length xs → drop n (xs ++ ys) ≡ drop n xs ++ ys
  drop-append_le zero xs ys h = refl
  drop-append_le (suc n) [] ys h = absurd (omega arith)
  drop-append_le (suc n) (x ∷ xs) ys h = drop-append_le n xs ys (omega arith)

  pub take-append_ge :
      (n : ℕ) (xs ys : List A) → length xs ≤ n → take n (xs ++ ys) ≡ xs ++ take (n - length xs) ys
  take-append_ge n [] ys h = let e : n - 0 ≡ n = omega arith in rw e
  take-append_ge zero (x ∷ xs) ys h = absurd (omega arith)
  take-append_ge (suc n) (x ∷ xs) ys h =
      rw suc-sub-suc (ap (◌∷◌ x) (take-append_ge n xs ys (omega arith)))

  pub drop-append_ge :
      (n : ℕ) (xs ys : List A) → length xs ≤ n → drop n (xs ++ ys) ≡ drop (n - length xs) ys
  drop-append_ge n [] ys h = let e : n - 0 ≡ n = omega arith in rw e
  drop-append_ge zero (x ∷ xs) ys h = absurd (omega arith)
  drop-append_ge (suc n) (x ∷ xs) ys h = rw suc-sub-suc (drop-append_ge n xs ys (omega arith))

-- What a reliable connection gives for a request of `cnt` bytes out of `len`.
record Reads (events : List RecvEvent) (cnt len : ℕ) (r : Received) : Type 0 where
  got : r.bytes ≡ take cnt (stream events)
  left : stream r.rest ≡ drop cnt (stream events)
  still : IsReliable r.rest
  count : r.result ≡ pos (len - (cnt - length (stream events)))

module _ (b : ℕ) (bs : Bytes) (events : List RecvEvent) (cnt len : ℕ) (le : suc cnt ≤ len) where
  Reads-whole :
      {r : Received}
      → length bs ≤ cnt
      → Reads events (cnt - length bs) len r
      → Reads
          (RecvEvent.segment b bs ∷ events)
          (suc cnt)
          len
          (record r { bytes = (b ∷ bs) ++ r.bytes })
  Reads-whole {r} fits v = record {
    got = ap (λ t. b ∷ (bs ++ t)) v.got ∙ ap (◌∷◌ b) (sym (take-append_ge cnt bs _ fits));
    left = v.left ∙ sym (drop-append_ge cnt bs _ fits);
    still = v.still;
    count = v.count ∙ ap pos (omega (arith, length-append bs (stream events)));
  }

  Reads-part :
      cnt < length bs
      → IsReliable events
      → Reads (RecvEvent.segment b bs ∷ events) (suc cnt) len (record {
        result = pos len;
        bytes = b ∷ take cnt bs;
        rest = requeue (drop cnt bs) events;
      })
  Reads-part more h = record {
    got = ap (◌∷◌ b) (sym (take-append_le cnt bs _ (omega arith)));
    left = stream-requeue (drop cnt bs) events ∙ sym (drop-append_le cnt bs _ (omega arith));
    still = IsReliable-requeue (drop cnt bs) events h;
    count = ap pos (omega (arith, length-append bs (stream events)));
  }

recv_loop-Reads :
    (events : List RecvEvent) (cnt len : ℕ)
    → IsReliable events
    → cnt ≤ len
    → Reads events cnt len (recv_loop events cnt len)
unfolding recv_loop
recv_loop-Reads events zero len h le = record {
  got = refl;
  left = refl;
  still = h;
  count = ap pos (omega arith);
}
recv_loop-Reads [] (suc cnt) len h le = record {
  got = refl;
  left = refl;
  still = tt;
  count = ap pos (omega arith);
}
recv_loop-Reads (RecvEvent.interrupted ∷ events) (suc cnt) len h le =
    let r = recv_loop-Reads events (suc cnt) len h le in
    record { got = r.got; left = r.left; still = r.still; count = r.count }
recv_loop-Reads (RecvEvent.broken ∷ events) (suc cnt) len h le = absurd h
recv_loop-Reads (RecvEvent.segment b bs ∷ events) (suc cnt) len h le =
    elim (Bool-cases (leb (length bs) cnt)) [
      | inl fits ↦ rw fits (
          Reads-whole b bs events cnt len le (ground arith)
            (recv_loop-Reads events (cnt - length bs) len h (omega arith)))
      | inr more ↦ rw more (Reads-part b bs events cnt len le (ground arith) h)
    ]

-- On a connection where no recv fails, `Recv` of `len` bytes returns the first `len` bytes of the
-- stream, or all of it where the peer closes earlier, however the network cuts the stream up; its
-- result is their number, and the others stay for the next call.
pub recv_all-stream :
    (events : List RecvEvent) (len : ℕ)
    → IsReliable events
    → ((recv_all events (pos len)).bytes ≡ take len (stream events))
      × ((recv_all events (pos len)).result ≡ pos (min len (length (stream events))))
      × (stream (recv_all events (pos len)).rest ≡ drop len (stream events))
      × IsReliable (recv_all events (pos len)).rest
unfolding recv_all
recv_all-stream events len h =
    let r = recv_loop-Reads events len len h (omega arith) in
    (r.got, r.count ∙ ap pos (omega arith), r.left, r.still)

send_loop-splits :
    (events : List SendEvent) (bytes : Bytes) (len : ℕ)
    → length bytes ≤ len
    → (unsent : Bytes) × (bytes ≡ (send_loop events bytes len).bytes ++ unsent)
      × (((send_loop events bytes len).result ≡ negsuc 0)
          ⊎ ((send_loop events bytes len).result ≡ pos (len - length unsent)))
unfolding send_loop
send_loop-splits events [] len h = ([], refl, inr (ap pos (omega arith)))
send_loop-splits [] (b ∷ bs) len h =
    ([], ap (◌∷◌ b) (sym (append-nil bs)), inr (ap pos (omega arith)))
send_loop-splits (SendEvent.interrupted ∷ events) (b ∷ bs) len h =
    send_loop-splits events (b ∷ bs) len h
send_loop-splits (SendEvent.broken ∷ events) (b ∷ bs) len h = (b ∷ bs, refl, inl refl)
send_loop-splits (SendEvent.accepts_none ∷ events) (b ∷ bs) len h = (b ∷ bs, refl, inr refl)
send_loop-splits (SendEvent.accepts_suc k ∷ events) (b ∷ bs) len h =
    let (unsent, e, r) =
      send_loop-splits events (drop k bs) len (omega (arith, length-drop k bs)) in
    (
      unsent,
      ap (◌∷◌ b) (
          sym (take-append-drop k bs)
          ∙ ap (◌++◌ (take k bs)) e
          ∙ sym (append_assoc (take k bs) _ unsent)),
      r,
    )

-- Whatever the results of send are, what `Send` puts on the wire is a prefix of the buffer, and the
-- result is -1 or the length of that prefix: so the whole buffer where it is the buffer's length.
pub send_all_prefix :
    (events : List SendEvent) (bytes : Bytes)
    → (unsent : Bytes) × (bytes ≡ (send_all events bytes).bytes ++ unsent)
      × (((send_all events bytes).result ≡ negsuc 0)
          ⊎ ((send_all events bytes).result ≡ pos (length (send_all events bytes).bytes)))
unfolding send_all
send_all_prefix events bytes =
    let (unsent, e, r) = send_loop-splits events bytes (length bytes) (omega arith) in
    (
      unsent,
      e,
      elim r [
        | inl failed ↦ inl failed
        | inr sent ↦ inr (
            sent
            ∙ ap pos (
                omega (
                  arith,
                  ap length e,
                  length-append (send_loop events bytes (length bytes)).bytes unsent,
                )))
      ],
    )
