-- ===== src/Socket/Takes.antt =====
-- What a call of `Recv` takes off a connection, whatever happens on it.
use simpletorrent_nju.Base.{
  ℕ, zero, suc, ◌+◌, ◌-◌, ◌<◌, ◌≤◌, leb, true, false, Bool-cases, ◌≡◌, inl, inr, ap, List, [], ◌∷◌,
  Bytes, pos, negsuc, length, drop, length-append, length-take, length-drop, arith,
}
use simpletorrent_nju.Socket.{RecvEvent, Received, recv_loop, recv_all}
use simpletorrent_nju.Socket.Stream.{stream, stream-requeue}

-- A call that had `before` bytes already: how many it takes off the connection, and how many it says
-- that it has.
pub record Takes (events : List RecvEvent) (before : ℕ) (r : Received) : Type 0 where
  pub taken : length r.bytes + length (stream r.rest) ≤ length (stream events)
  pub said : (n : ℕ) → r.result ≡ pos n → n ≤ before + length r.bytes

leb→le : (a b : ℕ) → leb a b ≡ true → a ≤ b
leb→le a b h = ground arith

leb→gt : (a b : ℕ) → leb a b ≡ false → b < a
leb→gt a b h = ground arith

pos_inj : (a b : ℕ) → pos a ≡ pos b → a ≡ b
pos_inj a b e = cc e

not_pos : (n : ℕ) {k : ℕ} → negsuc k ≡ pos n → ⊥
not_pos n e = cc e

Takes-part :
    (b : ℕ) (bs : Bytes) (events : List RecvEvent) (cnt len : ℕ)
    → cnt < len
    → leb (length bs) cnt ≡ true
    → Takes events (len - (cnt - length bs)) (recv_loop events (cnt - length bs) len)
    → Takes
        (RecvEvent.segment b bs ∷ events)
        (len - suc cnt)
        (recv_loop (RecvEvent.segment b bs ∷ events) (suc cnt) len)
unfolding recv_loop
Takes-part b bs events cnt len l e h =
    let more = recv_loop events (cnt - length bs) len in
    rw e (record {
      taken = omega (arith, h.taken, length-append bs more.bytes, length-append bs (stream events));
      said =
          λ n eq. omega (arith, h.said n eq, length-append bs more.bytes, leb→le (length bs) cnt e);
    })

Takes-whole :
    (b : ℕ) (bs : Bytes) (events : List RecvEvent) (cnt len : ℕ)
    → cnt < len
    → leb (length bs) cnt ≡ false
    → Takes
        (RecvEvent.segment b bs ∷ events)
        (len - suc cnt)
        (recv_loop (RecvEvent.segment b bs ∷ events) (suc cnt) len)
unfolding recv_loop
Takes-whole b bs events cnt len l e = rw e (record {
  taken = omega (
    arith,
    ap (λ (r : Bytes). length r) (stream-requeue (drop cnt bs) events),
    length-append (drop cnt bs) (stream events),
    length-append bs (stream events),
    length-take cnt bs,
    length-drop cnt bs,
  );
  said = λ n eq. omega (arith, pos_inj len n eq, length-take cnt bs, leb→gt (length bs) cnt e);
})

recv_loop-Takes :
    (events : List RecvEvent) (cnt len : ℕ)
    → cnt ≤ len
    → Takes events (len - cnt) (recv_loop events cnt len)
unfolding recv_loop
recv_loop-Takes events zero len l = record {
  taken = omega arith;
  said = λ n e. omega (arith, pos_inj len n e);
}
recv_loop-Takes [] (suc cnt) len l = record {
  taken = omega arith;
  said = λ n e. omega (arith, pos_inj (len - suc cnt) n e);
}
recv_loop-Takes (RecvEvent.interrupted ∷ events) (suc cnt) len l =
    let h = recv_loop-Takes events (suc cnt) len l in record { taken = h.taken; said = h.said }
recv_loop-Takes (RecvEvent.broken ∷ events) (suc cnt) len l = record {
  taken = omega arith;
  said = λ n e. absurd (not_pos n e);
}
recv_loop-Takes (RecvEvent.segment b bs ∷ events) (suc cnt) len l =
    elim (Bool-cases (leb (length bs) cnt)) [
      | inl e ↦
          Takes-part b bs events cnt len l e
            (recv_loop-Takes events (cnt - length bs) len (omega arith))
      | inr e ↦ Takes-whole b bs events cnt len l e
    ]

-- A call with a positive result leaves less on the connection, and none leaves more.
pub recv_all-shrinks :
    (events : List RecvEvent) (len n : ℕ)
    → (recv_all events (pos len)).result ≡ pos (suc n)
    → length (stream (recv_all events (pos len)).rest) < length (stream events)
unfolding recv_all
recv_all-shrinks events len n e =
    let h = recv_loop-Takes events len len (omega arith) in omega (arith, h.taken, h.said (suc n) e)
