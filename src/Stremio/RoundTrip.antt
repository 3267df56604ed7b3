-- ===== src/Stremio/RoundTrip.antt =====
-- Decoding what was encoded.
use mathlib.Core.Path.{subst}
use scrob.Prelude.{
  ℕ, suc, ◌+◌, ◌-◌, ◌*◌, ◌/◌, ◌%◌, ◌<◌, ◌≤◌, ◌≡◌, refl, ap, ◌∙◌, Bool, true, false, ◌&&◌, ◌||◌,
  Option, none, some, List, [], ◌∷◌, ◌++◌, arith, filter, length, leb, ltb, if◌then◌else◌, ◌==◌,
  nat_eq, contains, Bool-cases, ◌⊎◌, inl, inr,
}
use scrob.Prelude.Text.{Text, text_eq}
use scrob.Stremio.{
  set_at, test_at, zeros, mark, nth, index_of, previous, is_marked, collect,
  encode_watched_bitfield, decode_watched_bitfield,
}
use scrob.Stremio.Bits.{set_at-test, length-set_at, length-zeros, zeros-test}
use scrob.Stremio.Bytes.{IsBytes, mark-IsBytes, zeros-IsBytes}
use scrob.Stremio.Split.{has_colon, rsplit-append, rsplit-twice}

abbrev bit : ℕ → List ℕ → Bool
bit i values = test_at (i / 8) (i % 8) values

-- Whether the id at an index is watched, of ids that stand from `index` on.
unfoldable is_watched : List Text → List Text → ℕ → ℕ → Bool
is_watched watched [] index i = false
is_watched watched (v ∷ ids) index i =
    i == index && contains watched v || is_watched watched ids (index + 1) i

same_index : (index i : ℕ) → ((i / 8) == (index / 8) && (i % 8) == (index % 8)) ≡ (i == index)
same_index index i = ground arith

set-bit :
    (index i : ℕ) (values : List ℕ)
    → index < 8 * length values
    → bit i (set_at (index / 8) (index % 8) values) ≡ (i == index || bit i values)
set-bit index i values h =
    set_at-test (index / 8) (index % 8) (i / 8) (i % 8) values (omega (arith, h))
    ∙ ap (λ b. b || bit i values) (same_index index i)

watched_from :
    (watched ids : List Text) (index i : ℕ) → i < index → is_watched watched ids index i ≡ false
unfolding is_watched
watched_from watched [] index i h = refl
watched_from watched (v ∷ ids) index i h = ground (arith, watched_from watched ids (index + 1) i)

watched_below :
    (watched ids : List Text) (index i : ℕ)
    → is_watched watched ids index i ≡ true
    → i < index + length ids
unfolding is_watched
watched_below watched [] index i h = ground arith
watched_below watched (v ∷ ids) index i h = ground (arith, watched_below watched ids (index + 1) i)

mark-bit :
    (watched ids : List Text) (index i last : ℕ) (values : List ℕ)
    → index + length ids ≤ 8 * length values
    → bit i (mark watched ids index (values, last)).0
      ≡ (bit i values || is_watched watched ids index i)
unfolding mark is_watched
mark-bit watched [] index i last values h = ground arith
mark-bit watched (v ∷ ids) index i last values h = elim (Bool-cases (contains watched v)) [
  | inl t ↦ rw t (
      ground (
        arith,
        mark-bit watched ids (index + 1) i index (set_at (index / 8) (index % 8) values)
            (omega (arith, h, length-set_at (index / 8) (index % 8) values)),
        set-bit index i values (omega (arith, h)),
      ))
  | inr f ↦ rw f (ground (arith, mark-bit watched ids (index + 1) i last values (omega (arith, h))))
]

later_index : (a b c : ℕ) → (a ≡ b) ⊎ (a < b + 1 + c) → a < b + suc c
later_index a b c (inl e) = omega (arith, e)
later_index a b c (inr l) = omega (arith, l)

later_or_same : (a b c d : ℕ) → (a ≡ d) ⊎ (a < b + 1 + c) → (a ≡ d) ⊎ (a < b + suc c)
later_or_same a b c d (inl e) = inl e
later_or_same a b c d (inr l) = inr (omega (arith, l))

-- The last index is one of the ids', and no watched one is above it.
mark-last :
    (watched ids : List Text) (index last : ℕ) (values : List ℕ)
    → last ≤ index
    → (last ≤ (mark watched ids index (values, last)).1)
      × (((mark watched ids index (values, last)).1 ≡ last)
          ⊎ ((mark watched ids index (values, last)).1 < index + length ids))
      × ((i : ℕ)
          → is_watched watched ids index i ≡ true
          → i ≤ (mark watched ids index (values, last)).1)
unfolding mark is_watched
mark-last watched [] index last values h = (omega arith, inl refl, λ i k. ground arith)
mark-last watched (v ∷ ids) index last values h = elim (Bool-cases (contains watched v)) [
  | inl t ↦
      let step : mark watched (v ∷ ids) index (values, last)
          ≡ mark watched ids (index + 1) (set_at (index / 8) (index % 8) values, index) =
        rw (t, mark) refl in
      let (a, b, c) =
        mark-last watched ids (index + 1) index (set_at (index / 8) (index % 8) values)
          (omega arith) in
      rw step (
        omega (arith, a, h),
        inr (
            later_index
              (mark watched ids (index + 1) (set_at (index / 8) (index % 8) values, index)).1 index
              (length ids) b),
        λ i k. (let d = c i in ground (arith, a, d)),
      )
  | inr f ↦
      let step : mark watched (v ∷ ids) index (values, last)
          ≡ mark watched ids (index + 1) (values, last) =
        rw (f, mark) refl in
      let (a, b, c) = mark-last watched ids (index + 1) last values (omega (arith, h)) in
      rw step (
        a,
        later_or_same (mark watched ids (index + 1) (values, last)).1 index (length ids) last b,
        λ i k. (let d = c i in ground (arith, d)),
      )
]

previous-here :
    (index last : ℕ)
    → previous index (last + 1) last ≡ (if leb index last then some index else none)
previous-here index last =
    let before : ltb (index + (last + 1)) (last + 1) ≡ false = ground arith in
    let same : index + (last + 1) - (last + 1) ≡ index = omega arith in
    rw before (rw same (ground arith))

head_marked :
    (watched ids : List Text) (v : Text) (last index : ℕ) (values : List ℕ)
    → bit index values ≡ is_watched watched (v ∷ ids) index index
    → (is_watched watched (v ∷ ids) index index ≡ true → index ≤ last)
    → is_marked values (previous index (last + 1) last) ≡ contains watched v
unfolding is_watched
head_marked watched ids v last index values h k = elim (Bool-cases (leb index last)) [
  | inl t ↦
      rw (previous-here index last)
        (rw t (ground (arith, h, watched_from watched ids (index + 1) index)))
  | inr f ↦
      rw (previous-here index last)
        (rw f (ground (arith, k, watched_from watched ids (index + 1) index)))
]

collect-watched :
    (watched ids : List Text) (last index : ℕ) (values : List ℕ)
    → ((i : ℕ) → index ≤ i → bit i values ≡ is_watched watched ids index i)
    → ((i : ℕ) → is_watched watched ids index i ≡ true → i ≤ last)
    → collect (last + 1) last values index ids ≡ filter (contains watched) ids
unfolding collect is_watched
collect-watched watched [] last index values h k = refl
collect-watched watched (v ∷ ids) last index values h k =
    let head : is_marked values (previous index (last + 1) last) ≡ contains watched v =
      head_marked watched ids v last index values (h index (omega arith)) (k index) in
    let tail =
      collect-watched watched ids last (index + 1) values
        (λ i le. (let g = h i (omega (arith, le)) in ground (arith, g)))
        (λ i w. (let g = k i in ground (arith, g))) in
    rw head (rw tail refl)

abbrev pub IsDistinct : List Text → Type 0
IsDistinct [] = Unit
IsDistinct (v ∷ ids) = (contains ids v ≡ false) × IsDistinct ids

apart :
    (v w : Text) (ids : List Text)
    → contains ids v ≡ false
    → contains ids w ≡ true
    → (v == w) ≡ false
apart v w ids h k = elim (Bool-cases (v == w)) [
  | inl t ↦
      let e : contains ids v ≡ contains ids w = ap (contains ids) ((text_eq.same_iff v w).0 t) in cc
  | inr f ↦ f
]

nth-listed : (n : ℕ) (ids : List Text) → n < length ids → contains ids (nth n ids) ≡ true
unfolding contains
nth-listed n [] h = absurd (omega (arith, h))
nth-listed n (v ∷ ids) h = elim (Bool-cases (n == 0)) [
  | inl t ↦ let self : (v == v) ≡ true = (text_eq.same_iff v v).1 refl in rw t (rw self refl)
  | inr f ↦ rw f (ground (arith, nth-listed (n - 1) ids))
]

index_of_later :
    (w v : Text) (ids : List Text) (n k : ℕ)
    → (v == w) ≡ false
    → index_of w ids ≡ some k
    → k + 1 ≡ n
    → index_of w (v ∷ ids) ≡ some n
unfolding index_of
index_of_later w v ids n k other rest back = rw other (rw rest (ap some back))

index-nth :
    (n : ℕ) (ids : List Text) → n < length ids → IsDistinct ids → index_of (nth n ids) ids ≡ some n
unfolding index_of
index-nth n [] h d = absurd (omega (arith, h))
index-nth n (v ∷ ids) h (d, ds) = elim (Bool-cases (n == 0)) [
  | inl t ↦
      let self : (v == v) ≡ true = (text_eq.same_iff v v).1 refl in
      let zero_n : 0 ≡ n = ground arith in rw t (rw self (ap some zero_n))
  | inr f ↦
      let there : contains ids (nth (n - 1) ids) ≡ true = nth-listed (n - 1) ids (ground arith) in
      let other : (v == nth (n - 1) ids) ≡ false = apart v (nth (n - 1) ids) ids d there in
      let rest : index_of (nth (n - 1) ids) ids ≡ some (n - 1) =
        index-nth (n - 1) ids (ground arith) ds in
      let back : n - 1 + 1 ≡ n = ground arith in
      let same : nth (n - 1) ids ≡ nth n (v ∷ ids) = rw f refl in
      subst (λ w. index_of w (v ∷ ids) ≡ some n) same
        (index_of_later (nth (n - 1) ids) v ids n (n - 1) other rest back)
]

within_ids : (a n : ℕ) → (a ≡ 0) ⊎ (a < 0 + suc n) → a < suc n
within_ids a n (inl e) = omega (arith, e)
within_ids a n (inr l) = omega (arith, l)

module _ (pack : List ℕ → Text) (unpack : Text → Option (List ℕ)) (str_of : ℕ → Text)
    (int_of : Text → Option ℕ)
    (unpacks : (values : List ℕ) → IsBytes values → unpack (pack values) ≡ some values)
    (pack_plain : (values : List ℕ) → has_colon (pack values) ≡ false)
    (reads : (n : ℕ) → int_of (str_of n) ≡ some n)
    (str_plain : (n : ℕ) → has_colon (str_of n) ≡ false) where
  decode-parts :
      (anchor : Text) (last : ℕ) (values : List ℕ) (ids : List Text)
      → index_of anchor ids ≡ some last
      → IsBytes values
      → decode_watched_bitfield pack unpack str_of int_of
          (some (anchor ++ b':' ∷ (str_of (last + 1) ++ b':' ∷ pack values)))
          ids
        ≡ collect (last + 1) last values 0 ids
  unfolding decode_watched_bitfield
  decode-parts anchor last values ids e b =
      let positive : leb (last + 1) 0 ≡ false = ground arith in
      rw
        (
          rsplit-twice anchor (str_of (last + 1)) (pack values) (pack_plain values),
          decode_watched_bitfield,
        )
        (rw (rsplit-append anchor (str_of (last + 1)) (str_plain (last + 1)))
          (rw (reads (last + 1)) (rw e (rw (unpacks values b) (rw positive refl)))))

  -- If the packing of bytes (zlib and base64) and the printing of numbers can be read back and hold no colon, and no video
  -- id is listed twice, then decoding an encoded field gives just the watched ones of the listed
  -- ids, in their order, whatever colons the ids hold.
  pub decode-encode :
      (watched video_ids : List Text)
      → IsDistinct video_ids
      → decode_watched_bitfield pack unpack str_of int_of
          (encode_watched_bitfield pack unpack str_of int_of watched video_ids)
          video_ids
        ≡ filter (contains watched) video_ids
  unfolding encode_watched_bitfield decode_watched_bitfield
  decode-encode watched [] d = refl
  decode-encode watched (v ∷ ids) d =
      let all_ids = v ∷ ids in
      let field = zeros ((length all_ids + 7) / 8) in
      let out = mark watched all_ids 0 (field, 0) in
      let (low, inside, above) = mark-last watched all_ids 0 0 field (omega arith) in
      let room : 0 + length all_ids ≤ 8 * length field =
        omega (arith, length-zeros ((length all_ids + 7) / 8)) in
      let place : index_of (nth out.1 all_ids) all_ids ≡ some out.1 =
        index-nth out.1 all_ids (within_ids out.1 (length ids) inside) d in
      let bytes : IsBytes out.0 =
        mark-IsBytes watched all_ids 0 0 field (zeros-IsBytes ((length all_ids + 7) / 8)) in
      decode-parts (nth out.1 all_ids) out.1 out.0 all_ids place bytes
      ∙ collect-watched watched all_ids out.1 0 out.0
          (λ i le.
            mark-bit watched all_ids 0 i 0 field room
            ∙ ap (λ b. b || is_watched watched all_ids 0 i)
                (zeros-test ((length all_ids + 7) / 8) (i / 8) (i % 8)))
          above
