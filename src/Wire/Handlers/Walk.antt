-- ===== src/Wire/Handlers/Walk.antt =====
-- A walk along an array of a number for each piece, in step with the bits of a message.
use mathlib.Core.Option.{map}
use simpletorrent_nju.Base.{
  ◌≡◌, ◌≢◌, refl, ap, subst, ◌∙◌, ℕ, zero, suc, ◌<◌, ◌≤◌, ◌+◌, Bool, true, false, if◌then◌else◌,
  List, [], ◌∷◌, none, some, Bytes, ℤ, length, get_elem?, get_elem?-lt, set, arith, ℕ_discrete,
  dec_lt,
}
use simpletorrent_nju.Bitfield.Laws.{bit_of}

-- What a round does to an array: the entry at `i` changes.
unfoldable pub adjust : (ℤ → ℤ) → ℕ → List ℤ → List ℤ
adjust f i [] = []
adjust f zero (x ∷ xs) = f x ∷ xs
adjust f (suc i) (x ∷ xs) = x ∷ adjust f i xs

-- And what `n` rounds from piece `i` on do.
unfoldable pub walk : (ℤ → ℤ) → Bytes → ℕ → ℕ → List ℤ → List ℤ
walk f bits zero i xs = xs
walk f bits (suc n) i xs = walk f bits n (i + 1) (if bit_of bits i then adjust f i xs else xs)

get_elem?-none : (xs : List ℤ) (j : ℕ) → ¬ (j < length xs) → get_elem? xs j ≡ none
get_elem?-none [] j h = refl
get_elem?-none (x ∷ xs) zero h = absurd (h (omega arith))
get_elem?-none (x ∷ xs) (suc j) h = get_elem?-none xs j λ k. h (omega arith)

module _ (f : ℤ → ℤ) where
  length-adjust : (i : ℕ) (xs : List ℤ) → length (adjust f i xs) ≡ length xs
  unfolding adjust
  length-adjust i [] = refl
  length-adjust zero (x ∷ xs) = refl
  length-adjust (suc i) (x ∷ xs) = ap suc (length-adjust i xs)

  pub length-step :
      (b : Bool) (i : ℕ) (xs : List ℤ) → length (if b then adjust f i xs else xs) ≡ length xs
  length-step true i xs = length-adjust i xs
  length-step false i xs = refl

  pub adjust-set :
      (i : ℕ) (xs : List ℤ) {x : ℤ} → get_elem? xs i ≡ some x → adjust f i xs ≡ set xs i (f x)
  unfolding adjust
  adjust-set i [] e = refl
  adjust-set zero (x ∷ xs) e = cc
  adjust-set (suc i) (x ∷ xs) e = ap (λ t. x ∷ t) (adjust-set i xs e)

  get_elem?-adjust_self :
      (i : ℕ) (xs : List ℤ) {x : ℤ}
      → get_elem? xs i ≡ some x
      → get_elem? (adjust f i xs) i ≡ some (f x)
  unfolding adjust
  get_elem?-adjust_self i [] e = cc
  get_elem?-adjust_self zero (x ∷ xs) e = cc
  get_elem?-adjust_self (suc i) (x ∷ xs) e = get_elem?-adjust_self i xs e

  get_elem?-adjust_ne :
      (i j : ℕ) (xs : List ℤ) → i ≢ j → get_elem? (adjust f i xs) j ≡ get_elem? xs j
  unfolding adjust
  get_elem?-adjust_ne i j [] h = refl
  get_elem?-adjust_ne zero zero (x ∷ xs) h = absurd (h refl)
  get_elem?-adjust_ne zero (suc j) (x ∷ xs) h = refl
  get_elem?-adjust_ne (suc i) zero (x ∷ xs) h = refl
  get_elem?-adjust_ne (suc i) (suc j) (x ∷ xs) h = get_elem?-adjust_ne i j xs (λ e. h (ap suc e))

  get_elem?-step_ne :
      (b : Bool) (i j : ℕ) (xs : List ℤ)
      → i ≢ j
      → get_elem? (if b then adjust f i xs else xs) j ≡ get_elem? xs j
  get_elem?-step_ne true i j xs h = get_elem?-adjust_ne i j xs h
  get_elem?-step_ne false i j xs h = refl

  get_elem?-step_self :
      (b : Bool) (i : ℕ) (xs : List ℤ) {x : ℤ}
      → get_elem? xs i ≡ some x
      → get_elem? (if b then adjust f i xs else xs) i ≡ some (if b then f x else x)
  get_elem?-step_self true i xs e = get_elem?-adjust_self i xs e
  get_elem?-step_self false i xs e = e

  get_elem?-walk_before :
      (bits : Bytes) (n i j : ℕ) (xs : List ℤ)
      → j < i
      → get_elem? (walk f bits n i xs) j ≡ get_elem? xs j
  unfolding walk
  get_elem?-walk_before bits zero i j xs h = refl
  get_elem?-walk_before bits (suc n) i j xs h =
      get_elem?-walk_before bits n (i + 1) j _ (omega arith)
      ∙ get_elem?-step_ne (bit_of bits i) i j xs (λ e. omega arith)

  -- an entry that the walk comes to
  get_elem?-walk :
      (bits : Bytes) (n i j : ℕ) (xs : List ℤ) {x : ℤ}
      → i ≤ j
      → j < i + n
      → get_elem? xs j ≡ some x
      → get_elem? (walk f bits n i xs) j ≡ some (if bit_of bits j then f x else x)
  unfolding walk
  get_elem?-walk bits zero i j xs h k e = absurd (omega arith)
  get_elem?-walk bits (suc n) i j xs {x} h k e = elim (ℕ_discrete i j) [
    | yes same ↦
        get_elem?-walk_before bits n (i + 1) j _ (omega arith)
        ∙ subst
            (λ q.
              get_elem? (if bit_of bits i then adjust f i xs else xs) q
              ≡ some (if bit_of bits q then f x else x))
            same (get_elem?-step_self (bit_of bits i) i xs (rw same e))
    | no other ↦
        get_elem?-walk bits n (i + 1) j _ (omega arith) (omega arith)
          (get_elem?-step_ne (bit_of bits i) i j xs other ∙ e)
  ]

  get_elem?-adjust-none :
      (i j : ℕ) (xs : List ℤ) → get_elem? xs j ≡ none → get_elem? (adjust f i xs) j ≡ none
  unfolding adjust
  get_elem?-adjust-none i j [] e = refl
  get_elem?-adjust-none zero zero (x ∷ xs) e = cc
  get_elem?-adjust-none zero (suc j) (x ∷ xs) e = e
  get_elem?-adjust-none (suc i) zero (x ∷ xs) e = cc
  get_elem?-adjust-none (suc i) (suc j) (x ∷ xs) e = get_elem?-adjust-none i j xs e

  get_elem?-step-none :
      (b : Bool) (i j : ℕ) (xs : List ℤ)
      → get_elem? xs j ≡ none
      → get_elem? (if b then adjust f i xs else xs) j ≡ none
  get_elem?-step-none true i j xs e = get_elem?-adjust-none i j xs e
  get_elem?-step-none false i j xs e = e

  get_elem?-walk-none :
      (bits : Bytes) (n i j : ℕ) (xs : List ℤ)
      → get_elem? xs j ≡ none
      → get_elem? (walk f bits n i xs) j ≡ none
  unfolding walk
  get_elem?-walk-none bits zero i j xs e = e
  get_elem?-walk-none bits (suc n) i j xs e =
      get_elem?-walk-none bits n (i + 1) j _ (get_elem?-step-none (bit_of bits i) i j xs e)

  -- the walk over the whole array
  pub walk-map :
      (bits : Bytes) (n : ℕ) (xs : List ℤ) (j : ℕ)
      → length xs ≡ n
      → get_elem? (walk f bits n 0 xs) j
        ≡ map (λ x. if bit_of bits j then f x else x) (get_elem? xs j)
  walk-map bits n xs j h = elim (dec_lt j (length xs)) [
    | yes lt ↦
        let (x, e) = get_elem?-lt xs j lt in
        rw e (get_elem?-walk bits n 0 j xs (omega arith) (omega arith) e)
    | no ge ↦ let e = get_elem?-none xs j ge in rw e (get_elem?-walk-none bits n 0 j xs e)
  ]
