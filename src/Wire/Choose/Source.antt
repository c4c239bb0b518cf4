-- ===== src/Wire/Choose/Source.antt =====
-- `find_peer_have_piece` chooses, among the connections to peers that have a piece, one from which
-- the fewest pieces were requested.
use simpletorrent_nju.Base.{
  ℕ, ◌≡◌, ◌⊎◌, inl, inr, refl, ap, subst, ◌∙◌, true, false, Bool-cases, List, [], ◌∷◌, Option, none,
  some, ℤ, pos, ltb_ℤ, ◌≤ℤ◌, get_elem?-lt, length, ◌<◌, arith, All, IsIn, All-IsIn,
}
use simpletorrent_nju.Client.{Client, Peer, ok}
use simpletorrent_nju.Wire.Choose.{has_piece, first_having, least_loaded, find_peer_have_piece}

module _ (heap : ℕ → Peer) (index : ℕ) where
  -- The peer has an entry for the piece.
  abbrev pub Knows : ℕ → Type 0
  Knows p = index < length (heap p).peer_pieces_state

  -- Its entry says that it has the piece.
  abbrev pub Has : ℕ → Type 0
  Has p = has_piece heap index p ≡ some true

  abbrev load : ℕ → ℤ
  load p = (heap p).pieces_num_downloaded_from_it

  has_piece-cases : (p : ℕ) → Knows p → Has p ⊎ (has_piece heap index p ≡ some false)
  unfolding has_piece
  has_piece-cases p h =
      let (s, e) = get_elem?-lt (heap p).peer_pieces_state index h in
      elim (Bool-cases (ltb_ℤ (pos 0) s)) [
        | inl t ↦ inl (rw (e, has_piece, t) refl)
        | inr f ↦ inr (rw (e, has_piece, f) refl)
      ]

  -- What the first loop finds among the nodes.
  data FoundIn (nodes : List ℕ) (o : Option (List ℕ)) : Type 0 where
    no_one : o ≡ some [] → ((q : ℕ) → IsIn q nodes → Has q → ⊥) → FoundIn nodes o
    some_one :
        (p : ℕ) (rest : List ℕ)
        → o ≡ some (p ∷ rest)
        → Has p
        → IsIn p nodes
        → All Knows rest
        → ((q : ℕ) → IsIn q rest → IsIn q nodes)
        → ((q : ℕ) → IsIn q nodes → Has q → (q ≡ p) ⊎ IsIn q rest)
        → FoundIn nodes o

  Has-false : (p q : ℕ) → has_piece heap index p ≡ some false → q ≡ p → Has q → ⊥
  Has-false p q e at has = cc (e, has, ap (has_piece heap index) at)

  FoundIn-skip :
      (p : ℕ) (nodes : List ℕ)
      → has_piece heap index p ≡ some false
      → FoundIn nodes (first_having heap index nodes)
      → FoundIn (p ∷ nodes) (first_having heap index (p ∷ nodes))
  unfolding first_having
  FoundIn-skip p nodes e (no_one eq none_has) =
      no_one (rw (e, first_having) eq)
        λ q i has. elim i [ inl at ↦ Has-false p q e at has | inr i' ↦ none_has q i' has ]
  FoundIn-skip p nodes e (some_one r rest eq has_r in_r known up down) =
      some_one r rest (rw (e, first_having) eq) has_r (inr in_r) known (λ q i. inr (up q i))
        λ q i has. elim i [ inl at ↦ absurd (Has-false p q e at has) | inr i' ↦ down q i' has ]

  first_having-FoundIn :
      (nodes : List ℕ) → All Knows nodes → FoundIn nodes (first_having heap index nodes)
  unfolding first_having
  first_having-FoundIn [] h = no_one refl λ q i _. i
  first_having-FoundIn (p ∷ nodes) h = elim (has_piece-cases p h.0) [
    | inl e ↦
        some_one p nodes (rw (e, first_having) refl) e (inl refl) h.1 (λ q i. inr i) (λ q i _. i)
    | inr e ↦ FoundIn-skip p nodes e (first_having-FoundIn nodes h.1)
  ]

  -- `r` has the piece and is no more loaded than `chosen` and any of the nodes that has it.
  record IsLeast (nodes : List ℕ) (chosen r : ℕ) : Type 0 where
    source : (r ≡ chosen) ⊎ IsIn r nodes
    has : Has r
    le_chosen : load r ≤ℤ load chosen
    le_nodes : (q : ℕ) → IsIn q nodes → Has q → load r ≤ℤ load q

  IsLeast-cons :
      (p : ℕ) (nodes : List ℕ) (chosen next r : ℕ)
      → (next ≡ chosen) ⊎ (next ≡ p)
      → load next ≤ℤ load chosen
      → (Has p → load next ≤ℤ load p)
      → IsLeast nodes next r
      → IsLeast (p ∷ nodes) chosen r
  IsLeast-cons p nodes chosen next r origin le le_p v = record {
    source = from v.source origin;
    has = v.has;
    le_chosen = omega (arith, v.le_chosen);
    le_nodes = λ q i has. elim i [
      | inl at ↦ rw at (omega (arith, v.le_chosen, le_p (subst (λ z. Has z) at has)))
      | inr i' ↦ v.le_nodes q i' has
    ];
  }
    where
      from :
          (r ≡ next) ⊎ IsIn r nodes
          → (next ≡ chosen) ⊎ (next ≡ p)
          → (r ≡ chosen) ⊎ IsIn r (p ∷ nodes)
      from (inl e) (inl f) = inl (e ∙ f)
      from (inl e) (inr f) = inr (inl (e ∙ f))
      from (inr i) _ = inr (inr i)

  least_loaded-IsLeast :
      (nodes : List ℕ) (chosen : ℕ)
      → All Knows nodes
      → Has chosen
      → (r : ℕ) × (least_loaded heap index nodes chosen ≡ some r) × IsLeast nodes chosen r
  unfolding least_loaded
  least_loaded-IsLeast [] chosen h c = (
    chosen,
    refl,
    record { source = inl refl; has = c; le_chosen = omega arith; le_nodes = λ q i _. absurd i },
  )
  least_loaded-IsLeast (p ∷ nodes) chosen h c = elim (has_piece-cases p h.0) [
    | inl e ↦ elim (Bool-cases (ltb_ℤ (load p) (load chosen))) [
      | inl lighter ↦
          let (r, eq, v) = least_loaded-IsLeast nodes p h.1 e in
          (
            r,
            rw (e, least_loaded, lighter) eq,
            IsLeast-cons p nodes chosen p r (inr refl) (ground arith) (λ _. omega arith) v,
          )
      | inr heavier ↦
          let (r, eq, v) = least_loaded-IsLeast nodes chosen h.1 c in
          (
            r,
            rw (e, least_loaded, heavier) eq,
            IsLeast-cons p nodes chosen chosen r (inl refl) (omega arith) (λ _. ground arith) v,
          )
    ]
    | inr e ↦
        let (r, eq, v) = least_loaded-IsLeast nodes chosen h.1 c in
        (
          r,
          rw (e, least_loaded) eq,
          IsLeast-cons p nodes chosen chosen r (inl refl) (omega arith)
              (λ has. absurd (Has-false p p e refl has)) v,
        )
  ]

-- Where every connection in the pool has an entry for the piece, `find_peer_have_piece` changes
-- nothing and returns NULL exactly when no connection in the pool is marked as having the piece;
-- otherwise it returns one in the pool that is, and from none that is were fewer pieces requested.
pub find_peer_have_piece_least :
    (c : Client) (index : ℕ)
    → All (Knows c.heap index) c.pool
    → ((find_peer_have_piece index c ≡ ok none c)
        × ((q : ℕ) → IsIn q c.pool → ¬ Has c.heap index q))
      ⊎ ((p : ℕ) × (find_peer_have_piece index c ≡ ok (some p) c)
          × IsIn p c.pool
          × Has c.heap index p
          × ((q : ℕ)
              → IsIn q c.pool
              → Has c.heap index q
              → (c.heap p).pieces_num_downloaded_from_it
                ≤ℤ (c.heap q).pieces_num_downloaded_from_it))
unfolding find_peer_have_piece
find_peer_have_piece_least c index h = chosen (first_having-FoundIn c.heap index c.pool h)
  where
    chosen :
        FoundIn c.heap index c.pool (first_having c.heap index c.pool)
        → ((find_peer_have_piece index c ≡ ok none c)
            × ((q : ℕ) → IsIn q c.pool → ¬ Has c.heap index q))
          ⊎ ((p : ℕ) × (find_peer_have_piece index c ≡ ok (some p) c)
              × IsIn p c.pool
              × Has c.heap index p
              × ((q : ℕ)
                  → IsIn q c.pool
                  → Has c.heap index q
                  → (c.heap p).pieces_num_downloaded_from_it
                    ≤ℤ (c.heap q).pieces_num_downloaded_from_it))
    chosen (no_one e none_has) = inl (ground (arith, e), none_has)
    chosen (some_one p rest e has in_p known up down) =
        let (r, eq, v) =
          least_loaded-IsLeast c.heap index (p ∷ rest) p
            (All-IsIn (Knows c.heap index) p c.pool h in_p, known) has in
        inr (
          r,
          ground (arith, e, eq),
          elim v.source [
            | inl at ↦ rw at in_p
            | inr i ↦ elim i [ inl at ↦ rw at in_p | inr i' ↦ up r i' ]
          ],
          v.has,
          λ q i has_q. elim (down q i has_q) [
            | inl at ↦ rw at v.le_chosen
            | inr i' ↦ v.le_nodes q (inr i') has_q
          ],
        )
