-- ===== src/Stremio.antt =====
-- The watched bit field of Stremio: backend/core/stremio.py. `pack` stands for zlib and base64, with
-- `unpack` back, `str_of` for the printing of a number, with `int_of` back
-- (a number below 0 reads as 0: both give the empty set). The set of ids is listed in the order of
-- `video_ids`. An empty text has no colon, so its early return is the general case.
pub mod Bits
pub mod Bytes
pub mod Split
pub mod RoundTrip
mod Tests
use scrob.Prelude.{
  ℕ, zero, suc, ◌+◌, ◌-◌, ◌*◌, ◌/◌, ◌%◌, Bool, true, false, not, ◌&&◌, ◌||◌, Option, none, some,
  List, [], ◌∷◌, ◌++◌, length, leb, ltb, if◌then◌else◌, ◌==◌, nat_eq, contains,
}
use scrob.Prelude.Text.{Text, text_eq}

-- `byte & (1 << k)`
unfoldable pub test_bit : ℕ → ℕ → Bool
test_bit zero byte = byte % 2 == 1
test_bit (suc k) byte = test_bit k (byte / 2)

-- `byte |= 1 << k`
unfoldable pub set_bit : ℕ → ℕ → ℕ
set_bit zero byte = if byte % 2 == 1 then byte else byte + 1
set_bit (suc k) byte = 2 * set_bit k (byte / 2) + byte % 2

-- `values[n] |= 1 << k`
unfoldable pub set_at : ℕ → ℕ → List ℕ → List ℕ
set_at n k [] = []
set_at zero k (byte ∷ values) = set_bit k byte ∷ values
set_at (suc n) k (byte ∷ values) = byte ∷ set_at n k values

-- `n < len(values) and values[n] & (1 << k)`
unfoldable pub test_at : ℕ → ℕ → List ℕ → Bool
test_at n k [] = false
test_at zero k (byte ∷ values) = test_bit k byte
test_at (suc n) k (byte ∷ values) = test_at n k values

-- `bytearray(n)`
unfoldable pub zeros : ℕ → List ℕ
zeros zero = []
zeros (suc n) = 0 ∷ zeros n

-- The loop of `encode_watched_bitfield`: the bytes and the last watched index.
unfoldable pub mark : List Text → List Text → ℕ → List ℕ × ℕ → List ℕ × ℕ
mark watched [] index s = s
mark watched (v ∷ video_ids) index (values, last) =
    mark watched video_ids (index + 1) (
      if contains watched v then (set_at (index / 8) (index % 8) values, index) else (values, last))

abbrev pub nth : ℕ → List Text → Text
nth n [] = []
nth n (v ∷ video_ids) = if n == 0 then v else nth (n - 1) video_ids

-- `video_ids.index(v)`
unfoldable pub index_of : Text → List Text → Option ℕ
index_of v [] = none
index_of v (w ∷ video_ids) =
    if w == v then some 0 else elim (index_of v video_ids) [ none ↦ none | some n ↦ some (n + 1) ]

-- `s.rsplit(":", 1)`, if there is a colon.
unfoldable pub rsplit : Text → Option (Text × Text)
rsplit [] = none
rsplit (c ∷ s) = elim (rsplit s) [
  | some (a, b) ↦ some (c ∷ a, b)
  | none ↦ if c == b':' then some ([], s) else none
]

-- The index in the packed field, with the offset of the anchor.
abbrev pub previous : ℕ → ℕ → ℕ → Option ℕ
previous index anchor_length anchor_index =
    if ltb (index + anchor_length) (anchor_index + 1)
    then none
    else (let i = index + anchor_length - (anchor_index + 1) in
        if ltb i anchor_length then some i else none)

abbrev pub is_marked : List ℕ → Option ℕ → Bool
is_marked values none = false
is_marked values (some i) = test_at (i / 8) (i % 8) values

unfoldable pub collect : ℕ → ℕ → List ℕ → ℕ → List Text → List Text
collect anchor_length anchor_index values index [] = []
collect anchor_length anchor_index values index (v ∷ video_ids) =
    let rest = collect anchor_length anchor_index values (index + 1) video_ids in
    if is_marked values (previous index anchor_length anchor_index) then v ∷ rest else rest

module _ (pack : List ℕ → Text) (unpack : Text → Option (List ℕ)) (str_of : ℕ → Text)
    (int_of : Text → Option ℕ) where
  unfoldable pub encode_watched_bitfield : List Text → List Text → Option Text
  encode_watched_bitfield watched_ids [] = none
  encode_watched_bitfield watched_ids (v ∷ video_ids) =
      (let (values, last) =
          mark watched_ids (v ∷ video_ids) 0 (zeros ((length (v ∷ video_ids) + 7) / 8), 0) in
        some (nth last (v ∷ video_ids) ++ b':' ∷ (str_of (last + 1) ++ b':' ∷ pack values)))

  abbrev pub decoded : Option ℕ → Option ℕ → Option (List ℕ) → List Text → List Text
  decoded (some anchor_length) (some anchor_index) (some values) video_ids =
      if leb anchor_length 0 then [] else collect anchor_length anchor_index values 0 video_ids
  decoded _ _ _ video_ids = []

  unfoldable pub decode_watched_bitfield : Option Text → List Text → List Text
  decode_watched_bitfield none video_ids = []
  decode_watched_bitfield (some serialized) video_ids = elim (rsplit serialized) [
    | none ↦ []
    | some (front, packed) ↦ elim (rsplit front) [
      | none ↦ []
      | some (anchor, anchor_length) ↦
          decoded (int_of anchor_length) (index_of anchor video_ids) (unpack packed) video_ids
    ]
  ]
