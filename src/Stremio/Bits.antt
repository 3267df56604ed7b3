-- ===== src/Stremio/Bits.antt =====
-- Setting and testing bits of a row of bytes.
use scrob.Prelude.{
  ℕ, zero, suc, ◌+◌, ◌*◌, ◌/◌, ◌%◌, ◌<◌, ◌≡◌, refl, false, ◌&&◌, ◌||◌, List, [], ◌∷◌, arith, length,
  ◌==◌, nat_eq, Bool-cases, inl, inr,
}
use scrob.Stremio.{test_bit, set_bit, set_at, test_at, zeros}

set-test : (k j byte : ℕ) → test_bit j (set_bit k byte) ≡ (j == k || test_bit j byte)
unfolding test_bit set_bit
set-test zero zero byte = ground arith
set-test zero (suc j) byte = elim (Bool-cases (byte % 2 == 1)) [
  | inl t ↦ rw t (ground arith)
  | inr f ↦ let e : (byte + 1) / 2 ≡ byte / 2 = ground arith in rw f (rw e (ground arith))
]
set-test (suc k) zero byte = ground arith
set-test (suc k) (suc j) byte =
    let e : (2 * set_bit k (byte / 2) + byte % 2) / 2 ≡ set_bit k (byte / 2) = omega arith in
    rw e (ground (arith, set-test k j (byte / 2)))

pub set_at-test :
    (n k m j : ℕ) (values : List ℕ)
    → n < length values
    → test_at m j (set_at n k values) ≡ ((m == n && j == k) || test_at m j values)
unfolding test_at set_at
set_at-test n k m j [] h = absurd (omega (arith, h))
set_at-test zero k zero j (byte ∷ values) h = ground (arith, set-test k j byte)
set_at-test zero k (suc m) j (byte ∷ values) h = ground arith
set_at-test (suc n) k zero j (byte ∷ values) h = ground arith
set_at-test (suc n) k (suc m) j (byte ∷ values) h = ground (arith, set_at-test n k m j values)

pub length-set_at : (n k : ℕ) (values : List ℕ) → length (set_at n k values) ≡ length values
unfolding set_at
length-set_at n k [] = refl
length-set_at zero k (byte ∷ values) = refl
length-set_at (suc n) k (byte ∷ values) = omega (arith, length-set_at n k values)

pub length-zeros : (n : ℕ) → length (zeros n) ≡ n
unfolding zeros
length-zeros zero = refl
length-zeros (suc n) = omega (arith, length-zeros n)

no_bit : (j : ℕ) → test_bit j 0 ≡ false
unfolding test_bit
no_bit zero = ground arith
no_bit (suc j) = no_bit j

pub zeros-test : (n m j : ℕ) → test_at m j (zeros n) ≡ false
unfolding zeros test_at
zeros-test zero m j = refl
zeros-test (suc n) zero j = no_bit j
zeros-test (suc n) (suc m) j = zeros-test n m j
