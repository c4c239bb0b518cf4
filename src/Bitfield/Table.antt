-- ===== src/Bitfield/Table.antt =====
-- Setting and testing one bit of a byte, checked for every byte.
use simpletorrent_nju.Base.{
  ℕ, zero, suc, ◌+◌, subst, ◌<◌, ◌==◌, ltb, if◌then◌else◌, Bool, true, false, ◌&&◌, ◌≡◌, refl,
  arith,
}
use simpletorrent_nju.Bitfield.{has_bit, put_bit}

-- The test holds for the `left` values from `from` on.
holds_from : ℕ → ℕ → (ℕ → Bool) → Bool
holds_from from zero test = true
holds_from from (suc left) test = test from && holds_from (from + 1) left test

holds_from-at :
    (from left : ℕ) (test : ℕ → Bool)
    → holds_from from left test ≡ true
    → (k : ℕ) → k < left
    → test (from + k) ≡ true
unfolding holds_from
holds_from-at from zero test h k lt = absurd (omega arith)
holds_from-at from (suc left) test h zero lt = ground arith
holds_from-at from (suc left) test h (suc k) lt =
    subst (λ v. test v ≡ true) (omega arith)
      (holds_from-at (from + 1) left test (ground arith) k (omega arith))

holds_below :
    (left : ℕ) (test : ℕ → Bool)
    → holds_from 0 left test ≡ true
    → (k : ℕ) → k < left
    → test k ≡ true
holds_below left test h k lt =
    subst (λ v. test v ≡ true) (omega arith) (holds_from-at 0 left test h k lt)

abbrev eqb_Bool : Bool → Bool → Bool
eqb_Bool true b = b
eqb_Bool false b = if b then false else true

eqb_Bool_eq : (a b : Bool) → eqb_Bool a b ≡ true → a ≡ b
eqb_Bool_eq a b h = ground arith

abbrev entry : Bool → ℕ → ℕ → ℕ → Bool
entry bit byte i j =
    eqb_Bool (has_bit (put_bit byte i bit) j) (if i == j then bit else has_bit byte j)
    && ltb (put_bit byte i bit) 256

abbrev row : Bool → ℕ → Bool
row bit byte = holds_from 0 8 (λ i. holds_from 0 8 (λ j. entry bit byte i j))

rows : (bit : Bool) → holds_from 0 256 (row bit) ≡ true
unfolding holds_from has_bit put_bit
rows true = refl
rows false = refl

table : (bit : Bool) (byte i j : ℕ) → byte < 256 → i < 8 → j < 8 → entry bit byte i j ≡ true
table bit byte i j hb hi hj =
    let of_byte = holds_below 256 (row bit) (rows bit) byte hb in
    let of_bit = holds_below 8 (λ i. holds_from 0 8 (λ j. entry bit byte i j)) of_byte i hi in
    holds_below 8 (λ j. entry bit byte i j) of_bit j hj

pub has_bit-put_bit :
    (bit : Bool) (byte i j : ℕ)
    → byte < 256
    → i < 8
    → j < 8
    → has_bit (put_bit byte i bit) j ≡ (if i == j then bit else has_bit byte j)
has_bit-put_bit bit byte i j hb hi hj = ground (arith, table bit byte i j hb hi hj)

pub put_bit-lt : (bit : Bool) (byte i : ℕ) → byte < 256 → i < 8 → put_bit byte i bit < 256
put_bit-lt bit byte i hb hi = ground (arith, table bit byte i 0 hb hi)
