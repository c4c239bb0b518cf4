-- ===== src/Socket/Line.antt =====
-- `recvline` of util.c, a line from a socket, byte by byte.
use mathlib.Core.List.{append-nil}
use simpletorrent_nju.Base.{
  ℕ, zero, suc, ◌+◌, ◌*◌, ◌<◌, ◌==◌, ltb, if◌then◌else◌, Bool, true, false, Bool-cases, inl, inr,
  ◌≡◌, ◌≢◌, refl, sym, ap, ◌∙◌, List, [], ◌∷◌, ◌++◌, Bytes, All, length, ℤ, pos, negsuc, arith,
  ==_false,
}
use simpletorrent_nju.Socket.{RecvEvent, Received, segment, interrupted, broken, recv_once, requeue}
use simpletorrent_nju.Socket.Stream.{stream, stream-requeue}
use simpletorrent_nju.Tracker.Run.{Run, ok, exits, aborts, fault, goes_on}

-- What `recvline` returns, the bytes that it has written to the line, and what still waits. A line
-- that has been freed has no bytes.
pub record Line : Type 0 where
  pub result : ℤ
  pub line : Bytes
  pub rest : List RecvEvent

abbrev pub in_front : ℤ → ℕ → Line → Line
in_front (pos n) c l = record l { line = c ∷ l.line }
in_front (negsuc n) c l = l

abbrev pub with_byte : ℕ → Run Line → Run Line
with_byte c (ok l) = ok (in_front l.result c l)
with_byte c (exits z) = exits z
with_byte c aborts = aborts
with_byte c fault = fault
with_byte c goes_on = goes_on

-- `lineSize` once `lineIndex` is `index`.
unfoldable pub line_size : ℕ → ℕ → ℕ
line_size size index = if ltb size index then size * 2 else size

-- Behind a byte at `index` of the line; it is a newline or not.
unfoldable pub line_byte :
    Bool → ℕ → List RecvEvent → ℕ → ℕ → (List RecvEvent → ℕ → ℕ → Run Line) → Run Line
line_byte true c rest index size again =
    ok (record { result = pos index; line = 0 ∷ []; rest = rest })
line_byte false c rest index size again =
    with_byte c (again rest (suc index) (line_size size (suc index)))

-- The byte is written to the line, which has `size` bytes.
unfoldable pub line_put :
    Bool → ℕ → List RecvEvent → ℕ → ℕ → (List RecvEvent → ℕ → ℕ → Run Line) → Run Line
unfolding line_byte
line_put false c rest index size again = fault
line_put true c rest index size again = line_byte (c == 10) c rest index size again

-- Behind the loop: -1 after an error, and the number of bytes where the peer has closed the
-- connection.
unfoldable pub line_over : Received → ℕ → Run Line
line_over r index = ok (record {
  result = elim r.result [ pos n ↦ pos index | negsuc n ↦ negsuc 0 ];
  line = [];
  rest = r.rest;
})

unfoldable pub line_round : Received → ℕ → ℕ → (List RecvEvent → ℕ → ℕ → Run Line) → Run Line
unfolding line_put line_over
line_round r index size again = elim r.bytes [
  | [] ↦ line_over r index
  | c ∷ none_left ↦ line_put (ltb index size) c r.rest index size again
]

-- The loop, with `f` rounds.
unfoldable pub recvline_loop : ℕ → List RecvEvent → ℕ → ℕ → Run Line
unfolding line_round
recvline_loop zero inbox index size = goes_on
recvline_loop (suc f) inbox index size = line_round (recv_once inbox 1) index size (recvline_loop f)

unfoldable pub recvline : ℕ → List RecvEvent → Run Line
unfolding recvline_loop
recvline f inbox = recvline_loop f inbox 0 128

-- No call of read fails or is interrupted.
abbrev pub IsSteady : List RecvEvent → Type 0
IsSteady [] = Unit {0}
IsSteady (segment b bs ∷ events) = IsSteady events
IsSteady (interrupted ∷ events) = ⊥
IsSteady (broken ∷ events) = ⊥

IsSteady-requeue :
    (bs : Bytes) (events : List RecvEvent) → IsSteady events → IsSteady (requeue bs events)
IsSteady-requeue [] events h = h
IsSteady-requeue (b ∷ bs) events h = h

head_eq : {b c : ℕ} {bs cs : Bytes} → ◌≡◌ {A = Bytes} (b ∷ bs) (c ∷ cs) → b ≡ c
head_eq e = cc

tail_eq : {b c : ℕ} {bs cs : Bytes} → ◌≡◌ {A = Bytes} (b ∷ bs) (c ∷ cs) → bs ≡ cs
tail_eq e = cc

-- a read of one byte takes the first byte of the stream
recv_once-stream :
    (events : List RecvEvent) (c : ℕ) (more : Bytes)
    → IsSteady events
    → stream events ≡ c ∷ more
    → (rest : List RecvEvent) × (recv_once events 1
        ≡ record { result = pos 1; bytes = c ∷ []; rest = rest })
      × (stream rest ≡ more)
      × IsSteady rest
unfolding recv_once
recv_once-stream [] c more h e = absurd (let no : [] ≡ c ∷ more = e in cc)
recv_once-stream (interrupted ∷ events) c more h e = absurd h
recv_once-stream (broken ∷ events) c more h e = absurd h
recv_once-stream (segment b bs ∷ events) c more h e = (
  requeue bs events,
  rw (head_eq e) refl,
  stream-requeue bs events ∙ tail_eq e,
  IsSteady-requeue bs events h,
)

-- What comes out for a line that starts at `index` of the 128 bytes.
abbrev pub line_from : ℕ → Bytes → List RecvEvent → Run Line
line_from index line rest =
    if ltb (index + length line) 128
    then ok (record { result = pos (index + length line); line = line ++ 0 ∷ []; rest = rest })
    else fault

with_byte-line_from :
    (index c : ℕ) (line : Bytes) (rest : List RecvEvent)
    → with_byte c (line_from (suc index) line rest) ≡ line_from index (c ∷ line) rest
with_byte-line_from index c line rest =
    let same : index + suc (length line) ≡ suc index + length line = omega arith in
    rw same (elim (Bool-cases (ltb (suc index + length line) 128)) [
      | inl b ↦ rw b refl
      | inr b ↦ rw b refl
    ])

-- where the 128 bytes are full the next byte is written behind them
line_from_full :
    (index : ℕ) (line : Bytes) (rest : List RecvEvent)
    → ltb index 128 ≡ false
    → line_from index line rest ≡ fault
line_from_full index line rest b =
    let far : ltb (index + length line) 128 ≡ false = ground arith in rw far refl

line_from_start :
    (line : Bytes) (rest : List RecvEvent)
    → line_from 0 line rest ≡ (
        if ltb (length line) 128
        then ok (record { result = pos (length line); line = line ++ 0 ∷ []; rest = rest })
        else fault)
line_from_start line rest = let same : 0 + length line ≡ length line = omega arith in rw same refl

unread : (more : Bytes) → stream (requeue more []) ≡ more
unread more = stream-requeue more [] ∙ append-nil more

recvline_loop-stream :
    (f : ℕ) (events : List RecvEvent) (line more : Bytes) (index : ℕ)
    → IsSteady events
    → stream events ≡ line ++ 10 ∷ more
    → All (λ c. c ≢ 10) line
    → length line < f
    → index < 129
    → (rest : List RecvEvent) × (recvline_loop f events index 128 ≡ line_from index line rest)
      × (stream rest ≡ more)
unfolding recvline_loop line_round line_put line_byte line_size
recvline_loop-stream zero events line more index h e plain enough small = absurd (omega arith)
recvline_loop-stream (suc f) events [] more index h e plain enough small =
    let (rest, r, s, _) = recv_once-stream events 10 more h e in
    let here : index + 0 ≡ index = omega arith in
    elim (Bool-cases (ltb index 128)) [
      | inl b ↦ (rest, rw r (rw b (rw here (rw b refl))), s)
      | inr b ↦ (rest, rw r (rw b (rw here (rw b refl))), s)
    ]
recvline_loop-stream (suc f) events (c ∷ line) more index h e plain enough small =
    let (rest, r, s, steady) = recv_once-stream events c (line ++ 10 ∷ more) h e in
    elim (Bool-cases (ltb index 128)) [
      | inl b ↦
          (let (last, g, t) =
              recvline_loop-stream f rest line more (suc index) steady s (plain.1) (omega arith)
                (ground arith) in
            let room : ltb 128 (suc index) ≡ false = ground arith in
            (
              last,
              rw r (
                  rw b (
                    rw (==_false c 10 (plain.0))
                      (rw room (ap (with_byte c) g ∙ with_byte-line_from index c line last)))),
              t,
            ))
      | inr b ↦ (
        requeue more [],
        rw r (rw b (sym (line_from_full index (c ∷ line) (requeue more []) b))),
        unread more,
      )
    ]

-- For a line without a newline in it, which the peer sends with a newline behind it, in segments of
-- any sizes and with no read that fails, and for more rounds than the line has bytes: where the line
-- is shorter than 128 bytes, `recvline` returns its length, has written it with a zero behind it, and
-- leaves exactly what is behind the newline; a line of 128 bytes or more ends in a write behind
-- the array.
pub recvline-stream :
    (f : ℕ) (events : List RecvEvent) (line more : Bytes)
    → IsSteady events
    → stream events ≡ line ++ 10 ∷ more
    → All (λ c. c ≢ 10) line
    → length line < f
    → (rest : List RecvEvent) × (stream rest ≡ more)
      × (recvline f events ≡ (
          if ltb (length line) 128
          then ok (record { result = pos (length line); line = line ++ 0 ∷ []; rest = rest })
          else fault))
unfolding recvline
recvline-stream f events line more h e plain enough =
    let (rest, g, s) = recvline_loop-stream f events line more 0 h e plain enough (omega arith) in
    (rest, s, g ∙ line_from_start line rest)
