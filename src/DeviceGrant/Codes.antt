-- ===== src/DeviceGrant/Codes.antt =====
-- The code that a user types: `_normalize_user_code` of backend/routers/auth.py.
use scrob.Prelude.{
  ℕ, ◌≤◌, ◌≡◌, refl, true, false, [], ◌∷◌, arith, filter, All, filter-All, ap, ◌∙◌, nat_eq,
}
use scrob.Prelude.Text.{Text, upper, upper_char}
use scrob.DeviceGrant.{in_alphabet, dashed, normalize_user_code}

alphabet-le : (c : ℕ) → in_alphabet c ≡ true → (c ≤ 90) × (50 ≤ c)
unfolding in_alphabet
alphabet-le c h = ground arith

upper_char-alphabet : (c : ℕ) → in_alphabet c ≡ true → upper_char c ≡ c ∷ []
unfolding upper_char
upper_char-alphabet c h = ground (arith, alphabet-le c)

no_dash : in_alphabet b'-' ≡ false
unfolding in_alphabet
no_dash = refl

upper_dash : upper_char b'-' ≡ b'-' ∷ []
unfolding upper_char
upper_dash = refl

keep :
    {c : ℕ} (s : Text) {t : Text}
    → in_alphabet c ≡ true
    → filter in_alphabet (upper s) ≡ t
    → filter in_alphabet (upper (c ∷ s)) ≡ c ∷ t
unfolding upper
keep {c} s h e = rw (upper_char-alphabet c h, h, e)

drop_dash :
    (s : Text) {t : Text}
    → filter in_alphabet (upper s) ≡ t
    → filter in_alphabet (upper (b'-' ∷ s)) ≡ t
unfolding upper in_alphabet
drop_dash s e = e

kept_nil : filter in_alphabet (upper []) ≡ []
unfolding upper
kept_nil = refl

normalize_eq : (v : Text) → normalize_user_code v ≡ dashed (filter in_alphabet (upper v))
unfolding normalize_user_code
normalize_eq v = refl

normalize-nil : normalize_user_code [] ≡ []
unfolding normalize_user_code dashed in_alphabet upper
normalize-nil = refl

normalize-dashed :
    (s : Text) → All (λ c. in_alphabet c ≡ true) s → normalize_user_code (dashed s) ≡ dashed s
unfolding dashed
normalize-dashed (a ∷ b ∷ c ∷ d ∷ e ∷ f ∷ g ∷ h ∷ [])
      (ka, (kb, (kc, (kd, (ke, (kf, (kg, (kh, _)))))))) =
    normalize_eq _
    ∙ ap dashed (
        keep _ ka (
          keep _ kb (
            keep _ kc
              (keep _ kd (drop_dash _ (keep _ ke (keep _ kf (keep _ kg (keep _ kh kept_nil)))))))))
normalize-dashed _ k = normalize-nil

-- What `_normalize_user_code` returns is canonical: the function returns it unchanged.
pub normalize_idem :
    (value : Text) → normalize_user_code (normalize_user_code value) ≡ normalize_user_code value
normalize_idem value =
    rw (normalize_eq value)
      (normalize-dashed (filter in_alphabet (upper value)) (filter-All in_alphabet (upper value)))
