-- ===== src/Stremio/Split.antt =====
-- Splitting at the last colons.
use scrob.Prelude.{◌≡◌, refl, Bool, false, none, some, [], ◌∷◌, ◌++◌, arith, any, ◌==◌, nat_eq}
use scrob.Prelude.Text.{Text}
use scrob.Stremio.{rsplit}

abbrev pub has_colon : Text → Bool
has_colon s = any (λ c. c == b':') s

rsplit-none : (s : Text) → has_colon s ≡ false → rsplit s ≡ none
unfolding rsplit
rsplit-none [] h = refl
rsplit-none (c ∷ s) h =
    let rest : rsplit s ≡ none = rsplit-none s (ground arith) in
    let other : (c == b':') ≡ false = ground arith in rw (rest, rsplit) (rw other refl)

pub rsplit-append : (a b : Text) → has_colon b ≡ false → rsplit (a ++ b':' ∷ b) ≡ some (a, b)
unfolding rsplit
rsplit-append [] b h = rw (rsplit-none b h, rsplit) refl
rsplit-append (c ∷ a) b h = rw (rsplit-append a b h, rsplit) refl

pub rsplit-twice :
    (a b c : Text)
    → has_colon c ≡ false
    → rsplit (a ++ b':' ∷ (b ++ b':' ∷ c)) ≡ some (a ++ b':' ∷ b, c)
unfolding rsplit
rsplit-twice [] b c h = rw (rsplit-append b c h, rsplit) refl
rsplit-twice (d ∷ a) b c h = rw (rsplit-twice a b c h, rsplit) refl
