-- ===== src/Identity/Lookups.antt =====
-- What `find_media` of backend/core/identity.py finds.
use scrob.Prelude.{
  ℕ, String, ◌≡◌, Bool, true, false, ◌&&◌, ◌||◌, Option, none, some, List, [], ◌∷◌, arith, filter,
  find?-holds, ◌==◌, nat_eq, Option-cases, inl, inr,
}
use scrob.Watch.{MediaType}
use scrob.Identity.{
  ℤ, Value, media_type_beq, MediaRow, is_id, oldest, coerce_id, media_by_tvdb, find_media,
}

oldest-filter :
    (p : MediaRow → Bool) (media : List MediaRow) (m : MediaRow)
    → oldest (filter p media) ≡ some m
    → p m ≡ true
unfolding oldest
oldest-filter p [] m e = ground arith
oldest-filter p (x ∷ media) m e = elim (Option-cases (oldest (filter p media))) [
  | inl f ↦ ground arith
  | inr (o, f) ↦ ground (arith, oldest-filter p media o f)
]

-- A number given for a column.
abbrev pub fits : Option ℕ → Option ℕ → Bool
fits none column = false
fits (some n) column = is_id n column

module _ (parse : String → Option ℤ) (media : List MediaRow) (t : MediaType) where
  by_tvdb-fits :
      (v : Value) (m : MediaRow)
      → media_by_tvdb parse media t v ≡ some m
      → (media_type_beq m.media_type t && fits (coerce_id parse v) m.tvdb_id) ≡ true
  unfolding media_by_tvdb
  by_tvdb-fits v m e = elim (Option-cases (coerce_id parse v)) [
    | inl f ↦ ground arith
    | inr (n, f) ↦
        ground
          (arith, oldest-filter (λ r. media_type_beq r.media_type t && is_id n r.tvdb_id) media m)
  ]

  -- A row that is found has the media type that was asked for. With a local id it has that id;
  -- otherwise its TMDB id is the TMDB id given or its TVDB id the TVDB id given, never the one
  -- where the other is meant.
  pub find_media-fits :
      (media_id tmdb_id tvdb_id : Value) (m : MediaRow)
      → find_media parse media t media_id tmdb_id tvdb_id ≡ some m
      → (media_type_beq m.media_type t && elim (coerce_id parse media_id) [
        | some n ↦ m.id == n
        | none ↦
            fits (coerce_id parse tmdb_id) m.tmdb_id || fits (coerce_id parse tvdb_id) m.tvdb_id
      ])
        ≡ true
  unfolding find_media
  find_media-fits a b c m e = elim (Option-cases (coerce_id parse a)) [
    | inr (n, f) ↦
        ground (arith, find?-holds (λ r. media_type_beq r.media_type t && r.id == n) media m)
    | inl f ↦ elim (Option-cases (coerce_id parse b)) [
      | inl g ↦ ground (arith, by_tvdb-fits c m)
      | inr (n, g) ↦ ground (
        arith,
        by_tvdb-fits c m,
        oldest-filter (λ r. media_type_beq r.media_type t && is_id n r.tmdb_id) media m,
      )
    ]
  ]
