-- ===== src/Stremio/Bytes.antt =====
-- The bytes of the field stay below 256.
use mathlib.Core.Path.{subst}
use scrob.Prelude.{
  ℕ, zero, suc, ◌+◌, ◌*◌, ◌/◌, ◌%◌, ◌<◌, ◌≡◌, refl, sym, ◌-◌, List, [], ◌∷◌, arith, Bool-cases, inl,
  inr, ◌==◌, nat_eq, contains, if◌then◌else◌,
}
use scrob.Prelude.Text.{Text, text_eq}
use scrob.Stremio.{set_bit, set_at, zeros, mark}

abbrev pub IsBytes : List ℕ → Type 0
IsBytes [] = Unit
IsBytes (b ∷ values) = (b < 256) × IsBytes values

abbrev pow : ℕ → ℕ
pow zero = 1
pow (suc n) = 2 * pow n

pub set_bit_below : (k n byte : ℕ) → byte < 2 * pow (k + n) → set_bit k byte < 2 * pow (k + n)
unfolding set_bit
set_bit_below zero zero byte h = ground (arith, h)
set_bit_below zero (suc n) byte h = elim (Bool-cases (byte % 2 == 1)) [
  | inl t ↦ rw t h
  | inr f ↦ rw f (ground (arith, h))
]
set_bit_below (suc k) n byte h =
    let moved : suc (k + n) ≡ suc k + n = omega arith in
    let next : pow (suc k + n) ≡ 2 * pow (k + n) =
      subst (λ m. pow m ≡ 2 * pow (k + n)) moved refl in
    let half : set_bit k (byte / 2) < 2 * pow (k + n) =
      set_bit_below k n (byte / 2) (omega (arith, h, next)) in
    omega (arith, half, next)

set_bit-byte : (k byte : ℕ) → k < 8 → byte < 256 → set_bit k byte < 256
set_bit-byte k byte h l =
    let whole : k + (7 - k) ≡ 7 = omega (arith, h) in
    subst (λ m. byte < 2 * pow m → set_bit k byte < 2 * pow m) whole (set_bit_below k (7 - k) byte)
      l

set_at-IsBytes : (n k : ℕ) (values : List ℕ) → k < 8 → IsBytes values → IsBytes (set_at n k values)
unfolding set_at
set_at-IsBytes n k [] h b = tt
set_at-IsBytes zero k (byte ∷ values) h (l, b) = (set_bit-byte k byte h l, b)
set_at-IsBytes (suc n) k (byte ∷ values) h (l, b) = (l, set_at-IsBytes n k values h b)

pub zeros-IsBytes : (n : ℕ) → IsBytes (zeros n)
unfolding zeros
zeros-IsBytes zero = tt
zeros-IsBytes (suc n) = (omega arith, zeros-IsBytes n)

pub mark-IsBytes :
    (watched video_ids : List Text) (index last : ℕ) (values : List ℕ)
    → IsBytes values
    → IsBytes (mark watched video_ids index (values, last)).0
unfolding mark
mark-IsBytes watched [] index last values b = b
mark-IsBytes watched (v ∷ video_ids) index last values b = elim (Bool-cases (contains watched v)) [
  | inl t ↦
      subst
        (λ b.
          IsBytes
            (mark watched video_ids (index + 1)
              (if b then (set_at (index / 8) (index % 8) values, index) else (values, last))).0)
        (sym t)
        (mark-IsBytes watched video_ids (index + 1) index (set_at (index / 8) (index % 8) values)
          (set_at-IsBytes (index / 8) (index % 8) values (omega arith) b))
  | inr f ↦
      subst
        (λ b.
          IsBytes
            (mark watched video_ids (index + 1)
              (if b then (set_at (index / 8) (index % 8) values, index) else (values, last))).0)
        (sym f) (mark-IsBytes watched video_ids (index + 1) last values b)
]
