-- ===== src/Stremio/Tests.antt =====
-- A show of two episodes, the second of which is watched, with numbers written as strokes.
use scrob.Prelude.{
  ℕ, zero, suc, ◌≡◌, refl, ap, false, Option, none, some, List, [], ◌∷◌, ◌++◌, length,
  if◌then◌else◌, ◌==◌, nat_eq, contains,
}
use scrob.Prelude.Text.{Text, codes}
use scrob.Stremio.{encode_watched_bitfield, decode_watched_bitfield}
use scrob.Stremio.Split.{has_colon}
use scrob.Stremio.RoundTrip.{decode-encode}

abbrev strokes : ℕ → Text
strokes zero = []
strokes (suc n) = b'x' ∷ strokes n

abbrev count : Text → Option ℕ
count s = some (length s)

abbrev pack : List ℕ → Text
pack [] = []
pack (n ∷ values) = strokes n ++ b',' ∷ pack values

abbrev more : Option (List ℕ) → Option (List ℕ)
more (some (n ∷ values)) = some (suc n ∷ values)
more _ = none

abbrev another : Option (List ℕ) → Option (List ℕ)
another (some values) = some (0 ∷ values)
another none = none

abbrev unpack : Text → Option (List ℕ)
unpack [] = some []
unpack (c ∷ s) = if c == b'x' then more (unpack s) else another (unpack s)

abbrev one_more : Option ℕ → Option ℕ
one_more (some k) = some (suc k)
one_more none = none

count-strokes : (n : ℕ) → count (strokes n) ≡ some n
count-strokes zero = refl
count-strokes (suc n) = ap one_more (count-strokes n)

strokes_plain : (n : ℕ) → has_colon (strokes n) ≡ false
strokes_plain zero = refl
strokes_plain (suc n) = strokes_plain n

stroke_plain : (n : ℕ) (s : Text) → has_colon s ≡ false → has_colon (strokes n ++ b',' ∷ s) ≡ false
stroke_plain zero s h = h
stroke_plain (suc n) s h = stroke_plain n s h

pack_plain : (values : List ℕ) → has_colon (pack values) ≡ false
pack_plain [] = refl
pack_plain (n ∷ values) = stroke_plain n (pack values) (pack_plain values)

unpack-strokes :
    (n : ℕ) (s : Text) (values : List ℕ)
    → unpack s ≡ some values
    → unpack (strokes n ++ b',' ∷ s) ≡ some (n ∷ values)
unpack-strokes zero s values h = ap another h
unpack-strokes (suc n) s values h = ap more (unpack-strokes n s values h)

unpack-pack : (values : List ℕ) → unpack (pack values) ≡ some values
unpack-pack [] = refl
unpack-pack (n ∷ values) = unpack-strokes n (pack values) values (unpack-pack values)

abbrev episodes : List Text
episodes = codes "tt1:1:1" ∷ codes "tt1:1:2" ∷ []

decode-encode_example :
    decode_watched_bitfield pack unpack strokes count
      (encode_watched_bitfield pack unpack strokes count (codes "tt1:1:2" ∷ []) episodes)
      episodes
    ≡ codes "tt1:1:2" ∷ []
unfolding contains
decode-encode_example =
    decode-encode pack unpack strokes count (λ values b. unpack-pack values) pack_plain
      count-strokes strokes_plain (codes "tt1:1:2" ∷ []) episodes (refl, (refl, tt))
