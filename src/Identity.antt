-- ===== src/Identity.antt =====
-- Rows by local, TMDB or TVDB id: backend/core/identity.py. `int` of a text is a parameter, `parse`.
pub mod Links
pub mod Lookups
mod Tests
use scrob.Prelude.{
  ℕ, zero, suc, String, Bool, true, false, not, ◌&&◌, Option, none, some, List, [], ◌∷◌, filter,
  any, find?, leb, map, if◌then◌else◌, ◌==◌, nat_eq,
}
use scrob.Watch.{MediaType, movie, series, episode, person}
use scrob.Prelude.Text.{Text, text_eq, codes, prefix}

pub data ℤ : Type 0 where
  pos : ℕ → ℤ
  negsuc : ℕ → ℤ

-- What a caller gives as an id: `other` is what `int` refuses.
pub data Value : Type 0 where
  null : Value
  integer : ℤ → Value
  text : String → Value
  other : Value

abbrev pub media_type_beq : MediaType → MediaType → Bool
media_type_beq movie movie = true
media_type_beq series series = true
media_type_beq episode episode = true
media_type_beq person person = true
media_type_beq _ _ = false

pub record MediaRow : Type 0 where
  pub id : ℕ
  pub media_type : MediaType
  pub tmdb_id : Option ℕ
  pub tvdb_id : Option ℕ
  pub imdb_id : Option Text

pub record ShowRow : Type 0 where
  pub id : ℕ
  pub tmdb_id : Option ℕ
  pub tvdb_id : Option ℕ

abbrev pub is_id : ℕ → Option ℕ → Bool
is_id n none = false
is_id n (some m) = m == n

-- `.first()` of rows ordered by their id.
unfoldable pub oldest : List MediaRow → Option MediaRow
oldest [] = none
oldest (m ∷ media) = elim (oldest media) [
  | none ↦ some m
  | some o ↦ if leb m.id o.id then some m else some o
]

-- `scalar_one_or_none()`, which raises on `several` rows.
pub data Lookup : Type 0 where
  missing several : Lookup
  found : ShowRow → Lookup

unfoldable pub one_or_none : List ShowRow → Lookup
one_or_none [] = missing
one_or_none (s ∷ []) = found s
one_or_none (s ∷ t ∷ shows) = several

abbrev pub positive : ℤ → Option ℕ
positive (pos zero) = none
positive (pos (suc n)) = some (suc n)
positive (negsuc n) = none

-- `stmt.where(Show.id != except_show_id)`
abbrev pub is_except : Option ℕ → ShowRow → Bool
is_except none s = false
is_except (some id) s = s.id == id

unfoldable pub show_tvdb_id_is_free : List ShowRow → ℕ → Option ℕ → Bool
show_tvdb_id_is_free shows tvdb_id except =
    not (any (λ s. is_id tvdb_id s.tvdb_id && not (is_except except s)) shows)

unfoldable pub show_tmdb_id_is_free : List ShowRow → ℕ → Option ℕ → Bool
show_tmdb_id_is_free shows tmdb_id except =
    not (any (λ s. is_id tmdb_id s.tmdb_id && not (is_except except s)) shows)

module _ (parse : String → Option ℤ) where
  unfoldable pub coerce_id : Value → Option ℕ
  coerce_id null = none
  coerce_id (integer n) = positive n
  coerce_id (text s) = elim (parse s) [ none ↦ none | some n ↦ positive n ]
  coerce_id other = none

  unfoldable pub media_by_tvdb : List MediaRow → MediaType → Value → Option MediaRow
  media_by_tvdb media t tvdb_id = elim (coerce_id tvdb_id) [
    | none ↦ none
    | some n ↦ oldest (filter (λ m. media_type_beq m.media_type t && is_id n m.tvdb_id) media)
  ]

  unfoldable pub find_media : List MediaRow → MediaType → Value → Value → Value → Option MediaRow
  find_media media t media_id tmdb_id tvdb_id = elim (coerce_id media_id) [
    | some n ↦ find? (λ m. media_type_beq m.media_type t && m.id == n) media
    | none ↦ elim (coerce_id tmdb_id) [
      | none ↦ media_by_tvdb media t tvdb_id
      | some n ↦
          elim (oldest (filter (λ m. media_type_beq m.media_type t && is_id n m.tmdb_id) media)) [
            | some m ↦ some m
            | none ↦ media_by_tvdb media t tvdb_id
          ]
    ]
  ]

  unfoldable pub show_by_tvdb : List ShowRow → Value → Lookup
  show_by_tvdb shows tvdb_id = elim (coerce_id tvdb_id) [
    | none ↦ missing
    | some n ↦ one_or_none (filter (λ s. is_id n s.tvdb_id) shows)
  ]

  unfoldable pub find_show : List ShowRow → Value → Value → Value → Lookup
  find_show shows show_id tmdb_id tvdb_id = elim (coerce_id show_id) [
    | some n ↦ one_or_none (filter (λ s. s.id == n) shows)
    | none ↦ elim (coerce_id tmdb_id) [
      | none ↦ show_by_tvdb shows tvdb_id
      | some n ↦ elim (one_or_none (filter (λ s. is_id n s.tmdb_id) shows)) [
        | missing ↦ show_by_tvdb shows tvdb_id
        | several ↦ several
        | found s ↦ found s
      ]
    ]
  ]
