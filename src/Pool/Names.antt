-- ===== src/Pool/Names.antt =====
-- Addresses: strncmp on 16 bytes is equality of what strncpy keeps of them.
use simpletorrent_nju.Base.{ℕ, zero, suc, true, ◌≡◌, refl, [], ◌∷◌, Bytes, arith}
use simpletorrent_nju.Pool.{strncmp_eq, strncpy}

-- Two addresses that agree up to a zero, or in all `n` bytes, are the same to strncmp.
pub strncmp_eq-strncpy : (n : ℕ) (a b : Bytes) → strncmp_eq n a b ≡ true → strncpy n a ≡ strncpy n b
unfolding strncmp_eq strncpy
strncmp_eq-strncpy zero a b h = refl
strncmp_eq-strncpy (suc n) [] [] h = refl
strncmp_eq-strncpy (suc n) [] (y ∷ ys) h = ground arith
strncmp_eq-strncpy (suc n) (x ∷ xs) [] h = ground arith
strncmp_eq-strncpy (suc n) (x ∷ xs) (y ∷ ys) h = ground (arith, strncmp_eq-strncpy n xs ys)

pub strncpy-strncmp_eq : (n : ℕ) (a b : Bytes) → strncpy n a ≡ strncpy n b → strncmp_eq n a b ≡ true
unfolding strncmp_eq strncpy
strncpy-strncmp_eq zero a b h = refl
strncpy-strncmp_eq (suc n) [] [] h = refl
strncpy-strncmp_eq (suc n) [] (y ∷ ys) h = ground arith
strncpy-strncmp_eq (suc n) (x ∷ xs) [] h = ground arith
strncpy-strncmp_eq (suc n) (x ∷ xs) (y ∷ ys) h = ground (arith, strncpy-strncmp_eq n xs ys)

pub strncpy-strncpy : (n : ℕ) (a : Bytes) → strncpy n (strncpy n a) ≡ strncpy n a
unfolding strncpy
strncpy-strncpy zero a = refl
strncpy-strncpy (suc n) [] = refl
strncpy-strncpy (suc n) (x ∷ xs) = ground (arith, strncpy-strncpy n xs)
