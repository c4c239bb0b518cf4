-- ===== src/Wire/Messages/Fuel.antt =====
-- `message_handler` comes to the end of every connection.
use simpletorrent_nju.Base.{
  ℕ, zero, suc, ◌<◌, true, Bool-cases, ◌≡◌, ◌⊎◌, inl, inr, refl, ap, ◌∙◌, List, Bytes, ℤ, pos,
  length, arith,
}
use simpletorrent_nju.Words.{reverse_byte_orderi, int_at, int_bytes}
use simpletorrent_nju.Socket.{RecvEvent, recv_all}
use simpletorrent_nju.Socket.Stream.{stream}
use simpletorrent_nju.Socket.Takes.{recv_all-shrinks}
use simpletorrent_nju.Client.{Client, Extern, Outcome, ok, fault, is_nonpos, ◌>>=◌}
use simpletorrent_nju.Wire.Messages.Frames.{then_loop, message_loop_step}
use simpletorrent_nju.Wire.Messages.{
  Ended, ended, Next, go_on, error_disconnect, filled, handle_message, message_loop,
}
use simpletorrent_nju.Wire.Messages.Left.{is_nonpos-false, LeavesAtMost-handle_message}

module _ (x : Extern) (connfd p : ℕ) where
  message_loop_stops :
      (fuel : ℕ) (old : Bytes) (inbox : List RecvEvent) (c : Client)
      → is_nonpos (recv_all inbox (pos 4)).result ≡ true
      → message_loop x connfd p (suc fuel) old inbox c ≡ ok ended c
  unfolding message_loop
  message_loop_stops fuel old inbox c e = rw e refl

  -- The loop comes to its end, or a handler faults.
  abbrev pub Ends : ℕ → Bytes → List RecvEvent → Client → Type 0
  Ends fuel old inbox c =
      (message_loop x connfd p fuel old inbox c ≡ fault)
      ⊎ ((c' : Client) × (message_loop x connfd p fuel old inbox c ≡ ok ended c'))

  -- A round whose result is `o`, where the rounds behind it come to their end.
  Ends-round :
      (fuel : ℕ) (len : ℤ) (old : Bytes) (inbox rest : List RecvEvent) (c : Client)
      (o : Outcome Next)
      → ((later : List RecvEvent) (c₁ : Client)
          → length (stream later) < fuel
          → Ends fuel (int_bytes len) later c₁)
      → length (stream rest) < fuel
      → message_loop x connfd p (suc fuel) old inbox c
        ≡ (handle_message x connfd p len rest >>= then_loop x connfd p fuel len) c
      → handle_message x connfd p len rest c ≡ o
      → Ends (suc fuel) old inbox c
  Ends-round fuel len old inbox rest c o ih l step h = by o h (step ∙ ap then_outcome h)
    where
      then_outcome : Outcome Next → Outcome Ended
      then_outcome o = elim o [ ok next c₁ ↦ then_loop x connfd p fuel len next c₁ | fault ↦ fault ]

      by :
          (o : Outcome Next)
          → handle_message x connfd p len rest c ≡ o
          → message_loop x connfd p (suc fuel) old inbox c ≡ then_outcome o
          → Ends (suc fuel) old inbox c
      by fault h run = inl run
      by (ok error_disconnect c₁) h run = inr (c₁, run)
      by (ok (go_on later) c₁) h run =
          elim (ih later c₁
            (omega (arith, LeavesAtMost-handle_message x connfd p len rest c c₁ later h))) [
              | inl f ↦ inl (run ∙ f)
              | inr (c', f) ↦ inr (c', run ∙ f)
            ]

  -- One unit of fuel more than there are bytes on the connection is enough, whatever these are
  -- and however they come in, and even where recv fails: the loop over the messages comes to its
  -- end or a handler faults; it never runs out of fuel.
  pub message_loop-Ends :
      (fuel : ℕ) (old : Bytes) (inbox : List RecvEvent) (c : Client)
      → length (stream inbox) < fuel
      → (message_loop x connfd p fuel old inbox c ≡ fault)
        ⊎ ((c' : Client) × (message_loop x connfd p fuel old inbox c ≡ ok ended c'))
  message_loop-Ends zero old inbox c l = absurd (omega arith)
  message_loop-Ends (suc fuel) old inbox c l =
      let r = recv_all inbox (pos 4) in
      let len = reverse_byte_orderi (int_at (filled r old)) in
      elim (Bool-cases (is_nonpos r.result)) [
        | inl e ↦ inr (c, message_loop_stops fuel old inbox c e)
        | inr e ↦
            let (n, f) = is_nonpos-false r.result e in
            Ends-round fuel len old inbox r.rest c (handle_message x connfd p len r.rest c)
              (λ later c₁ k. message_loop-Ends fuel (int_bytes len) later c₁ k)
              (omega (arith, recv_all-shrinks inbox 4 n f))
              (message_loop_step x connfd p fuel old inbox c e) refl
      ]
