-- ===== src/Wire/Choose/Loops.antt =====
-- What the two loops of `which_piece_to_request` find.
use simpletorrent_nju.Base.{
  ℕ, zero, suc, ◌+◌, ◌<◌, ◌≡◌, inl, inr, refl, true, false, Bool-cases, ◌&&◌, List, [], ◌∷◌, some,
  ℤ, pos, ltb_ℤ, ◌≤ℤ◌, ◌<ℤ◌, get_elem?, length, arith, subst,
}
use simpletorrent_nju.Client.{piece_havnt}
use simpletorrent_nju.Wire.Choose.{wanted, first_wanted, least_wanted}

-- Piece `j` is one that we lack and do not request, and `v` peers have it, at least one.
pub record Wanted (states : List ℕ) (nums : List ℤ) (j : ℕ) (v : ℤ) : Type 0 where
  pub lacked : get_elem? states j ≡ some piece_havnt
  pub owners : get_elem? nums j ≡ some v
  pub some_owner : pos 0 <ℤ v

Wanted-head :
    {states : List ℕ} {nums : List ℤ} (s : ℕ) (v : ℤ)
    → wanted s v ≡ true
    → Wanted (s ∷ states) (v ∷ nums) 0 v
Wanted-head s v h = ground arith

Wanted-head_inv :
    {states : List ℕ} {nums : List ℤ} (s : ℕ) (a v : ℤ)
    → Wanted (s ∷ states) (a ∷ nums) 0 v
    → (wanted s a ≡ true) × (a ≡ v)
Wanted-head_inv s a v h = ground arith

Wanted-tail :
    {states : List ℕ} {nums : List ℤ} (s : ℕ) (a v : ℤ) (j : ℕ)
    → Wanted states nums j v
    → Wanted (s ∷ states) (a ∷ nums) (suc j) v
Wanted-tail s a v j h = record { lacked = h.lacked; owners = h.owners; some_owner = h.some_owner }

Wanted-tail_inv :
    {states : List ℕ} {nums : List ℤ} (s : ℕ) (a v : ℤ) (j : ℕ)
    → Wanted (s ∷ states) (a ∷ nums) (suc j) v
    → Wanted states nums j v
Wanted-tail_inv s a v j h = record {
  lacked = h.lacked;
  owners = h.owners;
  some_owner = h.some_owner;
}

-- What the first loop finds: nothing wanted, or the first wanted piece.
pub data First (n i : ℕ) (states : List ℕ) (nums : List ℤ) (m : ℕ) : Type 0 where
  nothing : m ≡ i + n → ((j : ℕ) (v : ℤ) → Wanted states nums j v → ⊥) → First n i states nums m
  found :
      (k : ℕ) (v : ℤ)
      → k < n
      → m ≡ i + k
      → Wanted states nums k v
      → ((j : ℕ) (u : ℤ) → j < k → Wanted states nums j u → ⊥)
      → First n i states nums m

no_head :
    {states : List ℕ} {nums : List ℤ} (s : ℕ) (a : ℤ)
    → wanted s a ≡ false
    → ((j : ℕ) (v : ℤ) → Wanted states nums j v → ⊥)
    → (j : ℕ) (v : ℤ) → Wanted (s ∷ states) (a ∷ nums) j v
    → ⊥
no_head s a h rest zero v w = let (t, _) = Wanted-head_inv s a v w in cc
no_head s a h rest (suc j) v w = rest j v (Wanted-tail_inv s a v j w)

no_head_below :
    {states : List ℕ} {nums : List ℤ} (s : ℕ) (a : ℤ) (k : ℕ)
    → wanted s a ≡ false
    → ((j : ℕ) (v : ℤ) → j < k → Wanted states nums j v → ⊥)
    → (j : ℕ) (v : ℤ) → j < suc k
    → Wanted (s ∷ states) (a ∷ nums) j v
    → ⊥
no_head_below s a k h rest zero v lt w = let (t, _) = Wanted-head_inv s a v w in cc
no_head_below s a k h rest (suc j) v lt w = rest j v (omega arith) (Wanted-tail_inv s a v j w)

First-step :
    {n i m s : ℕ} {a : ℤ} {states : List ℕ} {nums : List ℤ}
    → wanted s a ≡ false
    → First n (i + 1) states nums m
    → First (suc n) i (s ∷ states) (a ∷ nums) m
First-step {s = s} {a = a} h (nothing e none_wanted) =
    nothing (omega arith) (no_head s a h none_wanted)
First-step {s = s} {a = a} h (found k v lt e w before) =
    found (suc k) v (omega arith) (omega arith) (Wanted-tail s a v k w)
      (no_head_below s a k h before)

pub first_wanted-First :
    (n i : ℕ) (states : List ℕ) (nums : List ℤ)
    → length states ≡ n
    → length nums ≡ n
    → (m : ℕ) × (first_wanted n i states nums ≡ some m) × First n i states nums m
unfolding first_wanted
first_wanted-First zero i [] [] e f = (i, refl, nothing (omega arith) (λ j v w. cc (w.lacked)))
first_wanted-First zero i (s ∷ states) nums e f = absurd (omega arith)
first_wanted-First zero i [] (a ∷ nums) e f = absurd (omega arith)
first_wanted-First (suc n) i [] nums e f = absurd (omega arith)
first_wanted-First (suc n) i (s ∷ states) [] e f = absurd (omega arith)
first_wanted-First (suc n) i (s ∷ states) (a ∷ nums) e f = elim (Bool-cases (wanted s a)) [
  | inl t ↦ (
    i,
    rw t refl,
    found 0 a (omega arith) (omega arith) (Wanted-head s a t) (λ j u lt w. absurd (omega arith)),
  )
  | inr t ↦
      let (m, eq, r) = first_wanted-First n (i + 1) states nums (omega arith) (omega arith) in
      (m, rw t eq, First-step t r)
]

-- What the second loop finds: nothing rarer than the piece that it began with, or the first of the
-- rarest wanted pieces.
pub data Least (i : ℕ) (states : List ℕ) (nums : List ℤ) (min : ℕ) (min_val : ℤ) (r : ℕ)
    : Type 0 where
  keeps :
      r ≡ min
      → ((j : ℕ) (u : ℤ) → Wanted states nums j u → min_val ≤ℤ u)
      → Least i states nums min min_val r
  improves :
      (k : ℕ) (v : ℤ)
      → r ≡ i + k
      → Wanted states nums k v
      → v <ℤ min_val
      → ((j : ℕ) (u : ℤ) → Wanted states nums j u → v ≤ℤ u)
      → ((j : ℕ) (u : ℤ) → j < k → Wanted states nums j u → v <ℤ u)
      → Least i states nums min min_val r

module _ {states : List ℕ} {nums : List ℤ} (s : ℕ) (a : ℤ) where
  at_least :
      (b : ℤ)
      → (wanted s a ≡ true → b ≤ℤ a)
      → ((j : ℕ) (u : ℤ) → Wanted states nums j u → b ≤ℤ u)
      → (j : ℕ) (u : ℤ) → Wanted (s ∷ states) (a ∷ nums) j u
      → b ≤ℤ u
  at_least b head rest zero u w =
      let (t, e) = Wanted-head_inv s a u w in subst (λ z. b ≤ℤ z) e (head t)
  at_least b head rest (suc j) u w = rest j u (Wanted-tail_inv s a u j w)

  above :
      (b : ℤ) (k : ℕ)
      → (wanted s a ≡ true → b <ℤ a)
      → ((j : ℕ) (u : ℤ) → j < k → Wanted states nums j u → b <ℤ u)
      → (j : ℕ) (u : ℤ) → j < suc k
      → Wanted (s ∷ states) (a ∷ nums) j u
      → b <ℤ u
  above b k head rest zero u lt w =
      let (t, e) = Wanted-head_inv s a u w in subst (λ z. b <ℤ z) e (head t)
  above b k head rest (suc j) u lt w = rest j u (omega arith) (Wanted-tail_inv s a u j w)

  Least-cons :
      {i min r : ℕ} {cur : ℤ}
      → (wanted s a ≡ true → cur ≤ℤ a)
      → Least (i + 1) states nums min cur r
      → Least i (s ∷ states) (a ∷ nums) min cur r
  Least-cons {cur = cur} head (keeps e all) = keeps e (at_least cur head all)
  Least-cons {cur = cur} head (improves k v e w lt all before) =
      improves (suc k) v (omega arith) (Wanted-tail s a v k w) lt
        (at_least v (λ t. omega (arith, head t)) all)
        (above v k (λ t. omega (arith, head t)) before)

  Least-from_head :
      {i min r : ℕ} {min_val : ℤ}
      → wanted s a ≡ true
      → a <ℤ min_val
      → Least i (s ∷ states) (a ∷ nums) i a r
      → Least i (s ∷ states) (a ∷ nums) min min_val r
  Least-from_head t lt (keeps e all) =
      improves 0 a (omega arith) (Wanted-head s a t) lt all (λ j u l w. absurd (omega arith))
  Least-from_head t lt (improves k v e w l all before) = improves k v e w (omega arith) all before

pub least_wanted-Least :
    (n i : ℕ) (states : List ℕ) (nums : List ℤ) (min : ℕ) (min_val : ℤ)
    → length states ≡ n
    → length nums ≡ n
    → (r : ℕ) × (least_wanted n i states nums min min_val ≡ some r)
      × Least i states nums min min_val r
unfolding least_wanted
least_wanted-Least zero i [] [] min min_val e f = (min, refl, keeps refl (λ j v w. cc (w.lacked)))
least_wanted-Least zero i (s ∷ states) nums min min_val e f = absurd (omega arith)
least_wanted-Least zero i [] (a ∷ nums) min min_val e f = absurd (omega arith)
least_wanted-Least (suc n) i [] nums min min_val e f = absurd (omega arith)
least_wanted-Least (suc n) i (s ∷ states) [] min min_val e f = absurd (omega arith)
least_wanted-Least (suc n) i (s ∷ states) (a ∷ nums) min min_val e f =
    elim (Bool-cases (wanted s a && ltb_ℤ a min_val)) [
      | inl t ↦
          let (r, eq, l) =
            least_wanted-Least n (i + 1) states nums i a (omega arith) (omega arith) in
          (
            r,
            rw t eq,
            Least-from_head s a (ground arith) (ground arith) (Least-cons s a (λ _. omega arith) l),
          )
      | inr t ↦
          let (r, eq, l) =
            least_wanted-Least n (i + 1) states nums min min_val (omega arith) (omega arith) in
          (r, rw t eq, Least-cons s a (λ h. ground arith) l)
    ]
