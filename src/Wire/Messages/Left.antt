-- ===== src/Wire/Messages/Left.antt =====
-- A round of the loop over the messages leaves no more on the connection than there was.
use simpletorrent_nju.Base.{
  ℕ, zero, suc, ◌≤◌, ◌==◌, if◌then◌else◌, Bool, true, false, Bool-cases, ◌≡◌, inl, inr, refl, ap,
  List, [], ◌∷◌, Bytes, ℤ, pos, negsuc, length, arith, ltb_ℤ, tabulate_from,
}
use simpletorrent_nju.Words.{reverse_byte_orderi, int_at}
use simpletorrent_nju.Socket.{RecvEvent, Received, recv_all}
use simpletorrent_nju.Socket.Stream.{stream}
use simpletorrent_nju.Socket.Takes.{recv_all-shrinks}
use simpletorrent_nju.Client.{Client, Extern, Outcome, ok, fault, M, pure, is_nonpos, is_neg}
use simpletorrent_nju.Wire.Send.{
  choke, unchoke, interested, not_interested, have, bitfield_id, request, piece, cancel,
}
use simpletorrent_nju.Wire.Handlers.{handle_request, handle_cancel}
use simpletorrent_nju.Wire.Messages.{
  Next, go_on, error_disconnect, with_int, with_buffer, with_block, filled, and_go_on, unless_neg,
  case_have, case_bitfield, case_request, case_cancel, case_piece, switch_id, receive_id,
  handle_message,
}

-- A round goes on only with at most `n` bytes on the connection.
abbrev pub LeavesAtMost : ℕ → M Next → Type 0
LeavesAtMost n m =
    (c c' : Client) (later : List RecvEvent) → m c ≡ ok (go_on later) c' → length (stream later) ≤ n

LeavesAtMost-le : (a b : ℕ) (m : M Next) → a ≤ b → LeavesAtMost a m → LeavesAtMost b m
LeavesAtMost-le a b m l h c c' later e = omega (arith, h c c' later e)

-- What is left on the connection behind a round.
abbrev left_of : Outcome Next → List RecvEvent
left_of (ok (go_on inbox) c) = inbox
left_of (ok error_disconnect c) = []
left_of fault = []

not_ended :
    (c c' : Client) (later : List RecvEvent) → ok error_disconnect c ≡ ok (go_on later) c' → ⊥
not_ended c c' later e = cc e

not_fault : (c' : Client) (later : List RecvEvent) → fault ≡ ok (go_on later) c' → ⊥
not_fault c' later e = cc e

-- The two ways in which the cases end.
LeavesAtMost-end : (n : ℕ) → LeavesAtMost n (pure error_disconnect)
LeavesAtMost-end n c c' later e = absurd (not_ended c c' later e)

LeavesAtMost-pure :
    (inbox : List RecvEvent) → LeavesAtMost (length (stream inbox)) (pure (go_on inbox))
LeavesAtMost-pure inbox c c' later e = omega (arith, ap (λ o. length (stream (left_of o))) e)

LeavesAtMost-and_go_on :
    (m : M (Unit {0})) (inbox : List RecvEvent)
    → LeavesAtMost (length (stream inbox)) (and_go_on m inbox)
LeavesAtMost-and_go_on m inbox c c' later e = by (m c) e
  where
    by :
        (o : Outcome (Unit {0}))
        → (elim o [ ok u c₁ ↦ ok (go_on inbox) c₁ | fault ↦ fault ]) ≡ ok (go_on later) c'
        → length (stream later) ≤ length (stream inbox)
    by (ok u c₁) f = LeavesAtMost-pure inbox c₁ c' later f
    by fault f = absurd (not_fault c' later f)

LeavesAtMost-unless_neg :
    (m : M ℤ) (inbox : List RecvEvent) → LeavesAtMost (length (stream inbox)) (unless_neg m inbox)
LeavesAtMost-unless_neg m inbox c c' later e = by (m c) e
  where
    told :
        (b : Bool) (c₁ : Client)
        → ok (if b then error_disconnect else go_on inbox) c₁ ≡ ok (go_on later) c'
        → length (stream later) ≤ length (stream inbox)
    told true c₁ f = LeavesAtMost-end (length (stream inbox)) c₁ c' later f
    told false c₁ f = LeavesAtMost-pure inbox c₁ c' later f

    by :
        (o : Outcome ℤ)
        → (elim o [
          | ok r c₁ ↦ ok (if is_neg r then error_disconnect else go_on inbox) c₁
          | fault ↦ fault
        ])
          ≡ ok (go_on later) c'
        → length (stream later) ≤ length (stream inbox)
    by (ok r c₁) f = told (is_neg r) c₁ f
    by fault f = absurd (not_fault c' later f)

LeavesAtMost-if :
    (n : ℕ) (b : Bool) {m m' : M Next}
    → LeavesAtMost n m
    → LeavesAtMost n m'
    → LeavesAtMost n (if b then m else m')
LeavesAtMost-if n true h k = h
LeavesAtMost-if n false h k = k

pub is_nonpos-false : (z : ℤ) → is_nonpos z ≡ false → (n : ℕ) × (z ≡ pos (suc n))
is_nonpos-false (pos zero) e = cc e
is_nonpos-false (pos (suc n)) e = (n, refl)
is_nonpos-false (negsuc n) e = cc e

-- What follows a successful read leaves no more than the read did.
LeavesAtMost-read :
    (inbox : List RecvEvent) (len : ℕ) (m : M Next)
    → LeavesAtMost (length (stream (recv_all inbox (pos len)).rest)) m
    → LeavesAtMost
        (length (stream inbox))
        (if is_nonpos (recv_all inbox (pos len)).result then pure error_disconnect else m)
LeavesAtMost-read inbox len m h = elim (Bool-cases (is_nonpos (recv_all inbox (pos len)).result)) [
  | inl e ↦ rw e (LeavesAtMost-end (length (stream inbox)))
  | inr e ↦
      let (n, f) = is_nonpos-false (recv_all inbox (pos len)).result e in
      rw e (
        LeavesAtMost-le (length (stream (recv_all inbox (pos len)).rest)) (length (stream inbox)) m
          (omega (arith, recv_all-shrinks inbox len n f)) h)
]

module _ (x : Extern) where
  LeavesAtMost-with_int :
      (inbox : List RecvEvent) (k : ℤ → List RecvEvent → M Next)
      → ((i : ℤ) (rest : List RecvEvent) → LeavesAtMost (length (stream rest)) (k i rest))
      → LeavesAtMost (length (stream inbox)) (with_int x inbox k)
  unfolding with_int
  LeavesAtMost-with_int inbox k h =
      let r = recv_all inbox (pos 4) in
      let i = int_at (filled r (tabulate_from 0 4 x.junk)) in
      LeavesAtMost-read inbox 4 (k i r.rest) (h i r.rest)

  LeavesAtMost-with_buffer :
      (inbox : List RecvEvent) (len : ℤ) (k : Bytes → List RecvEvent → M Next)
      → ((bytes : Bytes) (rest : List RecvEvent)
          → LeavesAtMost (length (stream rest)) (k bytes rest))
      → LeavesAtMost (length (stream inbox)) (with_buffer x inbox len k)
  unfolding with_buffer
  LeavesAtMost-with_buffer inbox (negsuc n) k h = LeavesAtMost-end (length (stream inbox))
  LeavesAtMost-with_buffer inbox (pos n) k h =
      let r = recv_all inbox (pos n) in
      let bytes = filled r (tabulate_from 0 n x.junk) in
      LeavesAtMost-read inbox n (k bytes r.rest) (h bytes r.rest)

  module _ (connfd p : ℕ) where
    LeavesAtMost-with_block :
        (inbox : List RecvEvent) (k : ℤ → ℤ → ℤ → List RecvEvent → M Next)
        → ((i j l : ℤ) (rest : List RecvEvent) → LeavesAtMost (length (stream rest)) (k i j l rest))
        → LeavesAtMost (length (stream inbox)) (with_block x connfd p inbox k)
    unfolding with_block
    LeavesAtMost-with_block inbox k h = LeavesAtMost-with_int inbox _ λ i rest.
        LeavesAtMost-with_int rest _ λ j rest.
          LeavesAtMost-with_int rest _
            λ l rest. h (reverse_byte_orderi i) (reverse_byte_orderi j) (reverse_byte_orderi l) rest

    LeavesAtMost-case_piece :
        (len : ℤ) (inbox : List RecvEvent)
        → LeavesAtMost (length (stream inbox)) (case_piece x connfd p len inbox)
    unfolding case_piece
    LeavesAtMost-case_piece len inbox = LeavesAtMost-with_int inbox _ λ i rest.
        LeavesAtMost-with_int rest _
          λ j rest. LeavesAtMost-with_buffer rest _ _ λ block rest. LeavesAtMost-unless_neg _ rest

    -- The switch.
    LeavesAtMost-switch_id :
        (id : ℕ) (len : ℤ) (inbox : List RecvEvent)
        → LeavesAtMost (length (stream inbox)) (switch_id x connfd p id len inbox)
    unfolding switch_id case_have case_bitfield case_request case_cancel
    LeavesAtMost-switch_id id len inbox =
        let n = length (stream inbox) in
        let flag = λ (m : M (Unit {0})). LeavesAtMost-and_go_on m inbox in
        LeavesAtMost-if n (id == choke) (flag _) (
          LeavesAtMost-if n (id == unchoke) (flag _) (
            LeavesAtMost-if n (id == interested) (flag _) (
              LeavesAtMost-if n (id == not_interested) (flag _) (
                LeavesAtMost-if n (id == have)
                  (LeavesAtMost-with_int inbox _ λ i rest. LeavesAtMost-and_go_on _ rest)
                  (LeavesAtMost-if n (id == bitfield_id)
                    (LeavesAtMost-with_buffer inbox _ _ λ bits rest. LeavesAtMost-and_go_on _ rest)
                    (LeavesAtMost-if n (id == request)
                      (LeavesAtMost-with_block inbox _
                        λ i j l rest. LeavesAtMost-unless_neg (handle_request connfd p i j l) rest)
                      (LeavesAtMost-if n (id == piece) (LeavesAtMost-case_piece len inbox) (
                        LeavesAtMost-if n (id == cancel)
                          (LeavesAtMost-with_block inbox _
                            λ i j l rest. LeavesAtMost-and_go_on (handle_cancel connfd i j l) rest)
                          (LeavesAtMost-pure inbox)))))))))

    LeavesAtMost-receive_id :
        (len : ℤ) (r : Received)
        → LeavesAtMost (length (stream r.rest)) (receive_id x connfd p len r)
    unfolding receive_id
    LeavesAtMost-receive_id len r = by r.bytes
      where
        by :
            (bytes : Bytes)
            → LeavesAtMost (length (stream r.rest)) (elim bytes [
              | [] ↦ pure error_disconnect
              | id ∷ bytes ↦ switch_id x connfd p id len r.rest
            ])
        by [] = LeavesAtMost-end (length (stream r.rest))
        by (id ∷ bytes) = LeavesAtMost-switch_id id len r.rest

    pub LeavesAtMost-handle_message :
        (len : ℤ) (inbox : List RecvEvent)
        → LeavesAtMost (length (stream inbox)) (handle_message x connfd p len inbox)
    unfolding handle_message
    LeavesAtMost-handle_message len inbox =
        let r = recv_all inbox (pos 1) in
        LeavesAtMost-if (length (stream inbox)) (ltb_ℤ (pos 0) len)
          (LeavesAtMost-read inbox 1 (receive_id x connfd p len r) (LeavesAtMost-receive_id len r))
          (LeavesAtMost-pure inbox)
