-- ===== src/Wire/Handshake/Hash.antt =====
-- The segment of a handshake, as one client writes it and another one reads it.
use simpletorrent_nju.Base.{
  ◌*◌, subst, length-append, length-take, Bool, true, ◌&&◌, ◌≡◌, ◌↔◌, refl, sym, ap, ◌∙◌, List, [],
  ◌∷◌, ◌++◌, ℤ, IsInt, All, length, take, take-append, eqb_ℤ, arith,
}
use simpletorrent_nju.Words.{reverse_byte_orderi, int_bytes}
use simpletorrent_nju.Words.Order.{int_at-int_bytes, reverse-reverse, reverse-IsInt}
use simpletorrent_nju.Client.{Client}
use simpletorrent_nju.Pool.{strncmp_eq, strncpy}
use simpletorrent_nju.Wire.Handshake.{
  net_hash, handshake_seg, is_handshake, hash_matches, sha1_hash,
}

eqb_ℤ_iff : (a b : ℤ) → (eqb_ℤ a b ≡ true) ↔ (a ≡ b)
eqb_ℤ_iff a b = ground arith

word_iff :
    (ours theirs : ℤ)
    → IsInt ours
    → IsInt theirs
    → (eqb_ℤ (reverse_byte_orderi theirs) (reverse_byte_orderi ours) ≡ true) ↔ (theirs ≡ ours)
word_iff ours theirs h k = (
  (λ e.
      sym (reverse-reverse theirs k)
      ∙ ap reverse_byte_orderi ((eqb_ℤ_iff _ _).0 e)
      ∙ reverse-reverse ours h),
  (λ e. (eqb_ℤ_iff _ _).1 (ap reverse_byte_orderi e)),
)

cons_iff :
    (ours theirs : ℤ) (os ts : List ℤ) (a b : Bool)
    → (a ≡ true) ↔ (theirs ≡ ours)
    → (b ≡ true) ↔ (ts ≡ os)
    → ((a && b) ≡ true) ↔ (theirs ∷ ts ≡ ours ∷ os)
cons_iff ours theirs os ts a b h k = ground arith

-- The loop over the words finds exactly the hash that was written.
hash_matches-net_hash :
    (ours theirs : List ℤ)
    → length ours ≡ length theirs
    → All IsInt ours
    → All IsInt theirs
    → (hash_matches ours (net_hash theirs) ≡ true) ↔ (theirs ≡ ours)
unfolding hash_matches net_hash int_bytes
hash_matches-net_hash [] [] e h k = (λ m. refl, λ m. refl)
hash_matches-net_hash [] (t ∷ theirs) e h k = cc e
hash_matches-net_hash (o ∷ ours) [] e h k = cc e
hash_matches-net_hash (o ∷ ours) (t ∷ theirs) e h k =
    let ih = hash_matches-net_hash ours theirs (omega arith) (h.1) (k.1) in
    rw (int_at-int_bytes (reverse_byte_orderi t) (net_hash theirs) (reverse-IsInt t))
      (cons_iff o t ours theirs _ _ (word_iff o t (h.0) (k.0)) ih)

length-net_hash : (hs : List ℤ) → length (net_hash hs) ≡ 4 * length hs
unfolding net_hash int_bytes
length-net_hash [] = refl
length-net_hash (h ∷ hs) = omega (arith, length-net_hash hs)

-- The info hash of a client: five words of type `int`.
pub record IsHash (words : List ℤ) : Type 0 where
  pub five : length words ≡ 5
  pub ints : All IsInt words

take_five : (words : List ℤ) → length words ≡ 5 → take 5 words ≡ words
take_five words e = subst (λ n. take n words ≡ words) e (take-length words)
  where
    take-length : (ws : List ℤ) → take (length ws) ws ≡ ws
    take-length [] = refl
    take-length (w ∷ ws) = ap (◌∷◌ w) (take-length ws)

-- The hash field of the segment is the info hash, reversed word by word.
sha1_hash-handshake_seg :
    (a : Client)
    → IsHash a.torrent.info_hash
    → sha1_hash (handshake_seg a) ≡ net_hash a.torrent.info_hash
unfolding handshake_seg strncpy
sha1_hash-handshake_seg a h =
    let hash = net_hash a.torrent.info_hash in
    let e : length hash ≡ 20 = omega (arith, length-net_hash a.torrent.info_hash, h.five) in
    ap (λ words. take 20 (net_hash words ++ take 20 a.my_id)) (take_five a.torrent.info_hash h.five)
    ∙ subst (λ n. take n (hash ++ take 20 a.my_id) ≡ hash) e (take-append hash (take 20 a.my_id))

-- The handshake that one client sends to another, where both info hashes are five words of
-- type `int` and the sender's id has 20 bytes: it has 68 bytes, the receiver takes it for a
-- handshake, and finds its own hash in it exactly where the two clients have the same info
-- hash.
pub handshake_seg-accepted :
    (a b : Client)
    → IsHash a.torrent.info_hash
    → IsHash b.torrent.info_hash
    → length a.my_id ≡ 20
    → (length (handshake_seg a) ≡ 68)
      × (is_handshake (handshake_seg a) ≡ true)
      × ((hash_matches (take 5 b.torrent.info_hash) (sha1_hash (handshake_seg a)) ≡ true)
          ↔ (a.torrent.info_hash ≡ b.torrent.info_hash))
unfolding handshake_seg is_handshake strncmp_eq strncpy
handshake_seg-accepted a b h k i = (
  omega (
    arith,
    length-append (net_hash (take 5 a.torrent.info_hash)) (take 20 a.my_id),
    length-net_hash (take 5 a.torrent.info_hash),
    length-take 5 a.torrent.info_hash,
    length-take 20 a.my_id,
    h.five,
    i,
  ),
  refl,
  rw (take_five b.torrent.info_hash k.five, sha1_hash-handshake_seg a h)
      (hash_matches-net_hash b.torrent.info_hash a.torrent.info_hash (k.five ∙ sym h.five) k.ints
        h.ints),
)
