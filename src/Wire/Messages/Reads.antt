-- ===== src/Wire/Messages/Reads.antt =====
-- Reading the parts of a message from a connection whose next bytes are known.
use mathlib.Core.List.{append-nil}
use simpletorrent_nju.Base.{
  ℕ, ◌≡◌, refl, ap, ◌∙◌, List, ◌∷◌, ◌++◌, Bytes, ℤ, pos, length, take, drop, take-append,
  drop-append, length-append, drop-tabulate_from, arith, tabulate_from,
}
use simpletorrent_nju.Words.{reverse_byte_orderi, int_at, int_bytes}
use simpletorrent_nju.Words.Order.{int_at-int_bytes, reverse-IsInt}
use simpletorrent_nju.Socket.{RecvEvent, Received, recv_all}
use simpletorrent_nju.Socket.Stream.{stream, IsReliable, recv_all-stream}
use simpletorrent_nju.Client.{Extern, M}
use simpletorrent_nju.Wire.Send.{net_int}
use simpletorrent_nju.Wire.Messages.{Next, with_int, with_buffer, filled}

-- `Recv` on a connection whose next bytes are `bytes`, and these are as many as it asks for.
pub record ReadsAll (bytes rest : Bytes) (r : Received) : Type 0 where
  pub result : r.result ≡ pos (length bytes)
  pub got : r.bytes ≡ bytes
  pub left : stream r.rest ≡ rest
  pub still : IsReliable r.rest

pub recv_all-ReadsAll :
    (inbox : List RecvEvent) (bytes rest : Bytes)
    → IsReliable inbox
    → stream inbox ≡ bytes ++ rest
    → ReadsAll bytes rest (recv_all inbox (pos (length bytes)))
recv_all-ReadsAll inbox bytes rest h e =
    let (got, result, left, still) = recv_all-stream inbox (length bytes) h in
    record {
      result = result ∙ ap pos (omega (arith, ap length e, length-append bytes rest));
      got = got ∙ ap (take (length bytes)) e ∙ take-append bytes rest;
      left = left ∙ ap (drop (length bytes)) e ∙ drop-append bytes rest;
      still = still;
    }

-- Reading an `int` that was reversed before it was sent.
pub recv_int :
    (inbox : List RecvEvent) (i : ℤ) (rest old : Bytes)
    → IsReliable inbox
    → stream inbox ≡ net_int i ++ rest
    → ReadsAll (net_int i) rest (recv_all inbox (pos 4))
      × (int_at (filled (recv_all inbox (pos 4)) old) ≡ reverse_byte_orderi i)
unfolding int_bytes
recv_int inbox i rest old h e =
    let r = recv_all-ReadsAll inbox (net_int i) rest h e in
    (r, rw r.got (int_at-int_bytes (reverse_byte_orderi i) (drop 4 old) (reverse-IsInt i)))

module _ (x : Extern) where
  -- The rest of the connection behind a part that was read.
  pub record Behind (rest : Bytes) : Type 0 where
    pub inbox : List RecvEvent
    pub same : stream inbox ≡ rest
    pub still : IsReliable inbox

  pub with_int_lem :
      (inbox : List RecvEvent) (i : ℤ) (rest : Bytes) (k : ℤ → List RecvEvent → M Next)
      → IsReliable inbox
      → stream inbox ≡ net_int i ++ rest
      → (b : Behind rest) × (with_int x inbox k ≡ k (reverse_byte_orderi i) b.inbox)
  unfolding with_int int_bytes
  with_int_lem inbox i rest k h e =
      let (r, at) = recv_int inbox i rest (tabulate_from 0 4 x.junk) h e in
      (
        record { inbox = (recv_all inbox (pos 4)).rest; same = r.left; still = r.still },
        rw (r.result, at) refl,
      )

  pub with_buffer_lem :
      (inbox : List RecvEvent) (b : ℕ) (bytes rest : Bytes) (k : Bytes → List RecvEvent → M Next)
      → IsReliable inbox
      → stream inbox ≡ (b ∷ bytes) ++ rest
      → (a : Behind rest) × (with_buffer x inbox (pos (length (b ∷ bytes))) k
          ≡ k (b ∷ bytes) a.inbox)
  unfolding with_buffer
  with_buffer_lem inbox b bytes rest k h e =
      let r = recv_all-ReadsAll inbox (b ∷ bytes) rest h e in
      (
        record {
          inbox = (recv_all inbox (pos (length (b ∷ bytes)))).rest;
          same = r.left;
          still = r.still;
        },
        rw (r.result, r.got, drop-tabulate_from 1 (length bytes) x.junk, append-nil) refl,
      )
