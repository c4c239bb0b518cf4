-- ===== src/Pool/Nodes.antt =====
-- The pool as a set of connections, one for each address.
use simpletorrent_nju.Base.{
  ℕ, suc, ◌<◌, ==_refl, ==_false, Bool, true, false, Bool-cases, ◌≡◌, ◌≢◌, ◌⊎◌, ◌↔◌, inl, inr, refl,
  sym, ap, subst, ◌∙◌, List, [], ◌∷◌, none, some, Bytes, IsIn, All, All-IsIn, arith,
}
use simpletorrent_nju.Client.{Client, Peer, Extern, ok, update}
use simpletorrent_nju.Pool.{
  strncmp_eq, strncpy, find_peernode, new_peer, remove_node, peerpool_remove_node,
}
use simpletorrent_nju.Pool.Names.{strncmp_eq-strncpy, strncpy-strncmp_eq, strncpy-strncpy}

-- What the comparisons see of the address of a connection.
abbrev pub address : (ℕ → Peer) → ℕ → Bytes
address heap p = strncpy 16 (heap p).peer_ip

module _ (heap : ℕ → Peer) where
  -- No two nodes have the same address.
  abbrev pub AreDistinct : List ℕ → Type 0
  AreDistinct [] = Unit {0}
  AreDistinct (p ∷ nodes) = All (λ q. address heap p ≢ address heap q) nodes × AreDistinct nodes

  differ : {b : Bool} → false ≡ b → b ≡ true → ⊥
  differ e f = cc (e ∙ f)

  -- `find_peernode` finds a node of the pool with this address where there is one, and NULL else.
  pub find_peernode_lem :
      (nodes : List ℕ) (ip : Bytes)
      → ((find_peernode heap nodes ip ≡ none) × All (λ q. strncpy 16 ip ≢ address heap q) nodes)
        ⊎ ((p : ℕ) × (find_peernode heap nodes ip ≡ some p)
            × IsIn p nodes
            × (address heap p ≡ strncpy 16 ip))
  unfolding find_peernode
  find_peernode_lem [] ip = inl (refl, tt)
  find_peernode_lem (q ∷ nodes) ip = elim (Bool-cases (strncmp_eq 16 (heap q).peer_ip ip)) [
    | inl e ↦ inr (q, rw e refl, inl refl, strncmp_eq-strncpy 16 _ _ e)
    | inr e ↦ elim (find_peernode_lem nodes ip) [
      | inl (f, all) ↦
          inl (rw e f, (λ same. differ (sym e) (strncpy-strncmp_eq 16 _ _ (sym same)), all))
      | inr (p, f, i, a) ↦ inr (p, rw e f, inr i, a)
    ]
  ]

  remove_node_keeps :
      (P : ℕ → Type 0) (nodes : List ℕ) (ip : Bytes)
      → All P nodes
      → All P (remove_node heap nodes ip)
  unfolding remove_node
  remove_node_keeps P [] ip h = tt
  remove_node_keeps P (q ∷ nodes) ip h = elim (Bool-cases (strncmp_eq 16 ip (heap q).peer_ip)) [
    | inl e ↦ rw e (h.1)
    | inr e ↦ rw e (h.0, remove_node_keeps P nodes ip (h.1))
  ]

  remove_node-AreDistinct :
      (nodes : List ℕ) (ip : Bytes) → AreDistinct nodes → AreDistinct (remove_node heap nodes ip)
  unfolding remove_node
  remove_node-AreDistinct [] ip h = tt
  remove_node-AreDistinct (q ∷ nodes) ip h = elim (Bool-cases (strncmp_eq 16 ip (heap q).peer_ip)) [
    | inl e ↦ rw e (h.1)
    | inr e ↦ rw e (remove_node_keeps _ nodes ip (h.0), remove_node-AreDistinct nodes ip (h.1))
  ]

  -- A node has the address of none behind it.
  not_behind : (p : ℕ) (nodes : List ℕ) → AreDistinct (p ∷ nodes) → ¬ IsIn p nodes
  not_behind p nodes h i = All-IsIn (λ q. address heap p ≢ address heap q) p nodes (h.0) i refl

  same_node :
      (r p : ℕ) (nodes : List ℕ)
      → AreDistinct (r ∷ nodes)
      → IsIn p (r ∷ nodes)
      → address heap p ≡ address heap r
      → p ≡ r
  same_node r p nodes h (inl e) a = e
  same_node r p nodes h (inr i) a =
      absurd (All-IsIn (λ q. address heap r ≢ address heap q) p nodes (h.0) i (sym a))

  -- Among nodes of distinct addresses, the one that is removed is the node itself.
  pub remove_node-IsIn :
      (nodes : List ℕ) (p q : ℕ)
      → AreDistinct nodes
      → IsIn p nodes
      → IsIn q (remove_node heap nodes (heap p).peer_ip) ↔ (IsIn q nodes × (q ≢ p))
  unfolding remove_node
  remove_node-IsIn [] p q h i = elim i [ ]
  remove_node-IsIn (r ∷ nodes) p q h i =
      elim (Bool-cases (strncmp_eq 16 (heap p).peer_ip (heap r).peer_ip)) [
        | inl e ↦
            (let s = same_node r p nodes h i (strncmp_eq-strncpy 16 _ _ e) in
              rw e (
                (λ j. (inr j, λ o. not_behind r nodes h (subst (λ v. IsIn v nodes) (o ∙ s) j))),
                (λ j. elim (j.0) [ inl o ↦ absurd (j.1 (o ∙ sym s)) | inr t ↦ t ]),
              ))
        | inr e ↦
            (let other : p ≢ r =
                λ o. differ (sym e) (strncpy-strncmp_eq 16 _ _ (ap (address heap) o)) in
              let k : IsIn p nodes = elim i [ inl o ↦ absurd (other o) | inr k ↦ k ] in
              let ih = remove_node-IsIn nodes p q (h.1) k in
              rw e (
                (λ j. elim j [
                  | inl o ↦ (inl o, λ o'. other (sym o' ∙ o))
                  | inr t ↦ (inr (ih.0 t).0, (ih.0 t).1)
                ]),
                (λ j. elim (j.0) [ inl o ↦ inl o | inr t ↦ inr (ih.1 (t, j.1)) ]),
              ))
      ]

-- The nodes of the pool were given out by malloc before, and no two have the same address.
pub record IsPool (c : Client) : Type 0 where
  pub given_out : All (λ p. p < c.next_peer) c.pool
  pub distinct : AreDistinct c.heap c.pool

-- Taking a connection of the pool away, where malloc gave out the peers of the pool and no two
-- of them have one address: only the pool changes, it stays such a pool, and exactly this
-- connection is gone from it.
pub peerpool_remove_node-IsPool :
    (c : Client) (p : ℕ)
    → IsPool c
    → IsIn p c.pool
    → (nodes : List ℕ) × (peerpool_remove_node p c ≡ ok tt (record c { pool = nodes }))
      × IsPool (record c { pool = nodes })
      × ((q : ℕ) → IsIn q nodes ↔ (IsIn q c.pool × (q ≢ p)))
unfolding peerpool_remove_node
peerpool_remove_node-IsPool c p h i = (
  remove_node c.heap c.pool (c.heap p).peer_ip,
  refl,
  record {
    given_out = remove_node_keeps c.heap _ c.pool (c.heap p).peer_ip h.given_out;
    distinct = remove_node-AreDistinct c.heap c.pool (c.heap p).peer_ip h.distinct;
  },
  λ q. remove_node-IsIn c.heap c.pool p q h.distinct i,
)

module _ (heap : ℕ → Peer) (p : ℕ) (v : Peer) where
  update_self : update heap p v p ≡ v
  update_self = rw (==_refl p) refl

  update_other : (q : ℕ) → q < p → update heap p v q ≡ heap q
  update_other q h = rw (==_false p q (omega arith)) refl

  All-update :
      (a : Bytes) (nodes : List ℕ)
      → All (λ q. q < p) nodes
      → All (λ q. a ≢ address heap q) nodes
      → All (λ q. a ≢ address (update heap p v) q) nodes
  All-update a [] l h = tt
  All-update a (q ∷ nodes) l h = (rw (update_other q (l.0)) (h.0), All-update a nodes (l.1) (h.1))

  AreDistinct-update :
      (nodes : List ℕ)
      → All (λ q. q < p) nodes
      → AreDistinct heap nodes
      → AreDistinct (update heap p v) nodes
  AreDistinct-update [] l h = tt
  AreDistinct-update (q ∷ nodes) l h = (
    rw (update_other q (l.0)) (All-update (address heap q) nodes (l.1) (h.0)),
    AreDistinct-update nodes (l.1) (h.1),
  )

All-suc : (n : ℕ) (nodes : List ℕ) → All (λ p. p < n) nodes → All (λ p. p < suc n) nodes
All-suc n [] h = tt
All-suc n (p ∷ nodes) h = (omega (arith, h.0), All-suc n nodes (h.1))

-- The state behind `pool_add_peer`.
abbrev pub with_peer : Extern → ℕ → Bytes → Client → Client
with_peer x connfd peer_ip c = record c {
  heap = update c.heap c.next_peer (new_peer x c.torrent connfd peer_ip);
  pool = c.next_peer ∷ c.pool;
  next_peer = suc c.next_peer;
}

pub with_peer-IsPool :
    (x : Extern) (connfd : ℕ) (peer_ip : Bytes) (c : Client)
    → IsPool c
    → All (λ q. strncpy 16 peer_ip ≢ address c.heap q) c.pool
    → IsPool (with_peer x connfd peer_ip c)
unfolding new_peer
with_peer-IsPool x connfd peer_ip c h new =
    let v = new_peer x c.torrent connfd peer_ip in
    let same : address (update c.heap c.next_peer v) c.next_peer ≡ strncpy 16 peer_ip =
      rw (update_self c.heap c.next_peer v) (strncpy-strncpy 16 peer_ip) in
    record {
      given_out = (omega arith, All-suc c.next_peer c.pool h.given_out);
      distinct = (
        rw same (All-update c.heap c.next_peer v (strncpy 16 peer_ip) c.pool h.given_out new),
        AreDistinct-update c.heap c.next_peer v c.pool h.given_out h.distinct,
      );
    }
