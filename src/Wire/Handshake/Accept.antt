-- ===== src/Wire/Handshake/Accept.antt =====
-- What a handshake does to the pool of peers.
use simpletorrent_nju.Base.{
  ℕ, ◌==◌, if◌then◌else◌, Bool, true, false, Bool-cases, ◌≡◌, ◌≢◌, ◌⊎◌, inl, inr, refl, ap, ◌∙◌,
  List, ◌++◌, All, ==_refl, ==_iff, subst, sym, [], ◌∷◌, Option, none, some, Bytes, ℤ, pos, negsuc,
  take,
}
use simpletorrent_nju.Socket.{SendEvent}
use simpletorrent_nju.Client.{
  Client, Extern, Thread, message_handler, after_send, ok, fault, Outcome, send, modify, ◌>>◌,
  ◌>>=◌, is_nonpos, pure,
}
use simpletorrent_nju.Pool.{
  pool_add_peer, find_peer_from_tracker, find_from, tracker_list, new_peer, strncpy,
}
use simpletorrent_nju.Pool.Nodes.{IsPool, address, find_peernode_lem, with_peer, with_peer-IsPool}
use simpletorrent_nju.Wire.Handshake.{
  send_handshake, pointer, hash_matches, sha1_hash, build_connection, answer, create_thread, join,
  known_hash, shake, handshake_handler,
}

answer_lem :
    (flag connfd : ℕ) (c : Client)
    → (r : ℤ) × (o : List SendEvent) × (s : List (ℕ × Bytes)) × (answer flag connfd c
        ≡ ok r (after_send o s c))
unfolding answer send_handshake send
answer_lem flag connfd c = answered (flag == 1) refl
  where
    answered :
        (b : Bool)
        → (flag == 1) ≡ b
        → (r : ℤ) × (o : List SendEvent) × (s : List (ℕ × Bytes)) × (answer flag connfd c
            ≡ ok r (after_send o s c))
    answered true e =
        (_, _, _, ap (λ (b : Bool). (if b then send_handshake connfd else pure (pos 1)) c) e)
    answered false e = (
      pos 1,
      c.outbox,
      c.sent,
      ap (λ (b : Bool). (if b then send_handshake connfd else pure (pos 1)) c) e,
    )

-- The thread is there where the system can create it.
abbrev with_thread : Bool → Thread → Client → Client
with_thread b t c = record c { threads = if b then c.threads ++ t ∷ [] else c.threads }

create_thread_lem :
    (x : Extern) (connfd : ℕ) (t : Thread) (c : Client)
    → create_thread x connfd t c ≡ ok (x.can_spawn connfd) (with_thread (x.can_spawn connfd) t c)
create_thread_lem x connfd t c = created (x.can_spawn connfd)
  where
    created :
        (b : Bool)
        → (if b
              then (do modify λ c. record c { threads = c.threads ++ t ∷ [] }; pure true)
              else pure false)
            c
          ≡ ok b (with_thread b t c)
    created true = refl
    created false = refl

found_lem :
    (peer_ip : Bytes) (c : Client)
    → ((c.tracker_answers ≡ 0) × (find_peer_from_tracker peer_ip c ≡ fault))
      ⊎ ((entry : Option ℕ) × (find_peer_from_tracker peer_ip c ≡ ok entry c))
unfolding find_peer_from_tracker tracker_list
found_lem peer_ip c = by_test (c.tracker_answers == 0) refl
  where
    search : Bool → Outcome (Option ℕ)
    search b =
        ((λ c'. if b then fault else ok c'.tracker_peers c') >>= λ peers.
        pure (find_from 0 peers peer_ip))
          c

    by_test :
        (b : Bool)
        → (c.tracker_answers == 0) ≡ b
        → ((c.tracker_answers ≡ 0) × (find_peer_from_tracker peer_ip c ≡ fault))
          ⊎ ((entry : Option ℕ) × (find_peer_from_tracker peer_ip c ≡ ok entry c))
    by_test true e = inl ((==_iff c.tracker_answers 0).0 e, ap search e)
    by_test false e = inr (_, ap search e)

-- What follows the search in the tracker's list.
abbrev behind : Extern → ℕ → ℕ → Outcome (Option ℕ) → Outcome ℤ
behind x connfd peer (ok entry c) =
    (do
      b ← create_thread x connfd (message_handler connfd peer (pointer c entry))
      pure (if b then pos 1 else negsuc 0))
      c
behind x connfd peer fault = fault

-- The call faults since g_tracker_response is NULL, or it adds the peer.
build_connection_lem :
    (x : Extern) (connfd : ℕ) (peer_ip : Bytes) (c : Client)
    → ((c.tracker_answers ≡ 0) × (build_connection x connfd peer_ip c ≡ fault))
      ⊎ ((r : ℤ) × (t : List Thread) × (build_connection x connfd peer_ip c
            ≡ ok r (record (with_peer x connfd peer_ip c) { threads = t })))
unfolding build_connection pool_add_peer
build_connection_lem x connfd peer_ip c =
    let peer = with_peer x connfd peer_ip c in
    elim (found_lem peer_ip peer) [
      | inl (z, e) ↦ inl (z, ap (behind x connfd c.next_peer) e)
      | inr (entry, e) ↦ inr (
        _,
        _,
        ap (behind x connfd c.next_peer) e
            ∙ ap
                (λ (o : Outcome Bool). elim o [
                  | ok b c' ↦ ok (if b then pos 1 else negsuc 0) c'
                  | fault ↦ fault
                ])
                (create_thread_lem x connfd
                  (message_handler connfd c.next_peer (pointer peer entry)) peer),
      )
    ]

-- What the handler does to a proper pool: nothing, and the result is not 1; or one more connection.
abbrev pub Admits : ℕ → Client → ℤ → Client → Type 0
Admits connfd c r c' =
    ((c'.pool ≡ c.pool) × (r ≢ pos 1))
    ⊎ ((c'.pool ≡ c.next_peer ∷ c.pool) × ((c'.heap c.next_peer).connfd ≡ connfd))

-- The call comes back so, or it follows g_tracker_response while this is NULL.
pub data Handled (connfd : ℕ) (c : Client) : Outcome ℤ → Type 0 where
  handled : {r : ℤ} {c' : Client} → IsPool c' → Admits connfd c r c' → Handled connfd c (ok r c')
  null_list : c.tracker_answers ≡ 0 → Handled connfd c fault

join_lem :
    (x : Extern) (flag connfd : ℕ) (peer_ip : Bytes) (c : Client)
    → IsPool c
    → All (λ q. strncpy 16 peer_ip ≢ address c.heap q) c.pool
    → Handled connfd c (join x flag connfd peer_ip none c)
unfolding join new_peer
join_lem x flag connfd peer_ip c h new =
    let (r, o, s, f) = answer_lem flag connfd c in
    let c₁ = after_send o s c in
    let v = with_peer-IsPool x connfd peer_ip c h new in
    let run =
      ap
        (λ m. (elim m [
          | ok r c' ↦
              (if is_nonpos r then pure (negsuc 0) else build_connection x connfd peer_ip) c'
          | fault ↦ fault
        ]))
        f in
    let at = λ (m : Outcome ℤ) (e : join x flag connfd peer_ip none c ≡ m) (k : Handled connfd c m).
      subst (Handled connfd c) (sym e) k in
    elim (Bool-cases (is_nonpos r)) [
      | inl n ↦ at (ok (negsuc 0) c₁) (run ∙ rw n refl) (
          handled (record { given_out = h.given_out; distinct = h.distinct })
            (inl (refl, λ e. cc e)))
      | inr n ↦ elim (build_connection_lem x connfd peer_ip c₁) [
        | inl (z, g) ↦ at fault (run ∙ rw n g) (null_list z)
        | inr (r', t, g) ↦
            at (ok r' (record (with_peer x connfd peer_ip c₁) { threads = t })) (run ∙ rw n g) (
              handled (record { given_out = v.given_out; distinct = v.distinct })
                (inr (refl, rw (==_refl c.next_peer) refl)))
      ]
    ]

shake_lem :
    (x : Extern) (flag connfd : ℕ) (peer_ip : Bytes) (c : Client)
    → IsPool c
    → Handled connfd c (shake x flag connfd peer_ip c)
unfolding shake join
shake_lem x flag connfd peer_ip c h =
    let at = λ (o : Option ℕ). Handled connfd c (join x flag connfd peer_ip o c) in
    elim (find_peernode_lem c.heap c.pool peer_ip) [
      | inr (node, e, i, a) ↦ subst at (sym e) (handled h (inl (refl, λ eq. cc eq)))
      | inl (e, new) ↦ subst at (sym e) (join_lem x flag connfd peer_ip c h new)
    ]

-- Whatever segment comes in, first handshake or second, on any socket, with a pool of peers that malloc
-- gave out, no two of one address. Either `handshake_handler` comes back and the pool is such a pool
-- again: what it was, and the result is not 1, or that pool with one more connection at its head, a new
-- one on this socket. Or it faults, which it does only before the first answer of the tracker, where
-- g_tracker_response is NULL.
pub handshake_handler-IsPool :
    (x : Extern) (seg : Bytes) (flag connfd : ℕ) (c : Client)
    → IsPool c
    → Handled connfd c (handshake_handler x seg flag connfd c)
unfolding handshake_handler known_hash
handshake_handler-IsPool x seg flag connfd c h =
    by_hash (hash_matches (take 5 c.torrent.info_hash) (sha1_hash seg)) (x.get_ip_by_socket connfd)
  where
    by_hash :
        (b : Bool) (o : Option Bytes)
        → Handled connfd c ((if b then known_hash x flag connfd o else pure (negsuc 0)) c)
    by_hash false o = handled h (inl (refl, λ e. cc e))
    by_hash true none = handled h (inl (refl, λ e. cc e))
    by_hash true (some peer_ip) = shake_lem x flag connfd peer_ip c h
