-- ===== src/Prelude/Text.antt =====
-- Python's `str` as a list of code points, with the methods that the handlers call.
use Prim.Native.Char.{code}
use Prim.Native.Nat.{ℕ, zero, suc, ◌+◌, ◌-◌}
use Prim.Native.String.{String}
use mathlib.Core.Path.{◌≡◌}
use mathlib.Core.Logic.{◌↔◌}
use mathlib.Core.Bool.{Bool, true, false, ◌&&◌, ◌||◌}
use mathlib.Core.List.{List, [], ◌∷◌, ◌++◌, reverse}
use native.Mathlib.Omega.{arith}
use scrob.Prelude.Tests.{nat_beq, leb, Keyed, if◌then◌else◌}

abbrev pub Text : Type 0
Text = List ℕ

abbrev pub codes : String → Text
codes String.[] = []
codes (String.◌∷◌ c s) = code c ∷ codes s

abbrev pub text_beq : Text → Text → Bool
text_beq [] [] = true
text_beq [] (d ∷ t) = false
text_beq (c ∷ s) [] = false
text_beq (c ∷ s) (d ∷ t) = nat_beq c d && text_beq s t

pub text_beq_iff : (s t : Text) → (text_beq s t ≡ true) ↔ (s ≡ t)
text_beq_iff [] [] = ground arith
text_beq_iff [] (d ∷ t) = ground arith
text_beq_iff (c ∷ s) [] = ground arith
text_beq_iff (c ∷ s) (d ∷ t) = ground (arith, text_beq_iff s t)

instance abbrev pub text_eq : Keyed Text
text_eq = record { same = text_beq; same_iff = text_beq_iff }

abbrev between : ℕ → ℕ → ℕ → Bool
between lo hi c = leb lo c && leb c hi

-- `str.isspace` of one character.
unfoldable pub is_space : ℕ → Bool
is_space c =
    between 9 13 c
    || between 28 32 c
    || nat_beq c 133
    || nat_beq c 160
    || nat_beq c 5760
    || between 8192 8202 c
    || between 8232 8233 c
    || nat_beq c 8239
    || nat_beq c 8287
    || nat_beq c 12288

unfoldable pub lstrip : Text → Text
unfolding is_space
lstrip [] = []
lstrip (c ∷ s) = let rest = lstrip s in if is_space c then rest else c ∷ s

unfoldable pub strip : Text → Text
unfolding lstrip
strip s = reverse (lstrip (reverse (lstrip s)))

-- `s[:n]`
unfoldable pub prefix : ℕ → Text → Text
prefix zero s = []
prefix (suc n) [] = []
prefix (suc n) (c ∷ s) = c ∷ prefix n s

-- `s.lower()`, for a comparison with a word of ASCII letters without a k: no other character becomes
-- one of these; or of a text that is ASCII.
unfoldable pub lower : Text → Text
lower [] = []
lower (c ∷ s) = (if between b'A' b'Z' c then c + 32 else c) ∷ lower s

-- `c.upper()` of one character. A character that is not listed has no ASCII letter in its upper
-- case, and is left alone.
unfoldable pub upper_char : ℕ → Text
upper_char c =
    if between b'a' b'z' c
    then (c - 32) ∷ []
    else if nat_beq c 0xdf
    then b'S' ∷ b'S' ∷ []
    else if nat_beq c 0x131
    then b'I' ∷ []
    else if nat_beq c 0x149
    then 0x2bc ∷ b'N' ∷ []
    else if nat_beq c 0x17f
    then b'S' ∷ []
    else if nat_beq c 0x1f0
    then b'J' ∷ 0x30c ∷ []
    else if nat_beq c 0x1e96
    then b'H' ∷ 0x331 ∷ []
    else if nat_beq c 0x1e97
    then b'T' ∷ 0x308 ∷ []
    else if nat_beq c 0x1e98
    then b'W' ∷ 0x30a ∷ []
    else if nat_beq c 0x1e99
    then b'Y' ∷ 0x30a ∷ []
    else if nat_beq c 0x1e9a
    then b'A' ∷ 0x2be ∷ []
    else if nat_beq c 0xfb00
    then b'F' ∷ b'F' ∷ []
    else if nat_beq c 0xfb01
    then b'F' ∷ b'I' ∷ []
    else if nat_beq c 0xfb02
    then b'F' ∷ b'L' ∷ []
    else if nat_beq c 0xfb03
    then b'F' ∷ b'F' ∷ b'I' ∷ []
    else if nat_beq c 0xfb04
    then b'F' ∷ b'F' ∷ b'L' ∷ []
    else if nat_beq c 0xfb05
    then b'S' ∷ b'T' ∷ []
    else if nat_beq c 0xfb06
    then b'S' ∷ b'T' ∷ []
    else c ∷ []

unfoldable pub upper : Text → Text
unfolding upper_char
upper [] = []
upper (c ∷ s) = upper_char c ++ upper s
