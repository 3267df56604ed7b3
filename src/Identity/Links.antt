-- ===== src/Identity/Links.antt =====
-- `link_show_ids` and `link_media_ids` of backend/core/identity.py. The row's own change of TVDB id
-- is no part of the check of its TMDB id, so both checks read the table as it was.
pub mod Unique
pub mod Idempotent
use scrob.Prelude.{
  ℕ, String, Bool, true, false, not, ◌&&◌, ◌||◌, Option, none, some, List, [], ◌∷◌, if◌then◌else◌,
  ◌==◌, nat_eq,
}
use scrob.Prelude.Text.{Text, prefix}
use scrob.Identity.{
  ℤ, Value, MediaRow, ShowRow, coerce_id, show_tvdb_id_is_free, show_tmdb_id_is_free,
}

-- Python's `not x` of an optional number and text.
abbrev pub is_unset : Option ℕ → Bool
is_unset none = true
is_unset (some n) = n == 0

abbrev pub is_blank : Option Text → Bool
is_blank none = true
is_blank (some []) = true
is_blank (some (c ∷ s)) = false

unfoldable pub is_imdb_id : Text → Bool
is_imdb_id (c ∷ d ∷ s) = c == b't' && d == b't'
is_imdb_id _ = false

-- What a change of the object writes to its row.
unfoldable pub store_show : ShowRow → List ShowRow → List ShowRow
store_show s [] = []
store_show s (t ∷ shows) = (if t.id == s.id then s else t) ∷ store_show s shows

module _ (parse : String → Option ℤ) where
  -- The two halves of `link_show_ids`: the object afterwards, and whether it changed.
  unfoldable pub link_tvdb : List ShowRow → ShowRow → Value → ShowRow × Bool
  link_tvdb shows s tvdb_id = elim (coerce_id parse tvdb_id) [
    | none ↦ (s, false)
    | some n ↦
        if is_unset s.tvdb_id && show_tvdb_id_is_free shows n (some s.id)
        then (record s { tvdb_id = some n }, true)
        else (s, false)
  ]

  unfoldable pub link_tmdb : List ShowRow → ShowRow → Value → ShowRow × Bool
  link_tmdb shows s tmdb_id = elim (coerce_id parse tmdb_id) [
    | none ↦ (s, false)
    | some n ↦
        if is_unset s.tmdb_id && show_tmdb_id_is_free shows n (some s.id)
        then (record s { tmdb_id = some n }, true)
        else (s, false)
  ]

  -- The table after the commit, and the answer.
  unfoldable pub link_show_ids : List ShowRow → ShowRow → Value → Value → List ShowRow × Bool
  link_show_ids shows s tmdb_id tvdb_id =
      let (s', tvdb_changed) = link_tvdb shows s tvdb_id in
      let (s'', tmdb_changed) = link_tmdb shows s' tmdb_id in
      (store_show s'' shows, tvdb_changed || tmdb_changed)

  unfoldable pub link_media_tmdb : Value → MediaRow → MediaRow × Bool
  link_media_tmdb tmdb_id m = elim (coerce_id parse tmdb_id) [
    | none ↦ (m, false)
    | some n ↦ if is_unset m.tmdb_id then (record m { tmdb_id = some n }, true) else (m, false)
  ]

  unfoldable pub link_media_tvdb : Value → MediaRow → MediaRow × Bool
  link_media_tvdb tvdb_id m = elim (coerce_id parse tvdb_id) [
    | none ↦ (m, false)
    | some n ↦ if is_unset m.tvdb_id then (record m { tvdb_id = some n }, true) else (m, false)
  ]

  unfoldable pub link_media_imdb : Option Text → MediaRow → MediaRow × Bool
  link_media_imdb none m = (m, false)
  link_media_imdb (some imdb_id) m =
      if is_imdb_id imdb_id && is_blank m.imdb_id
      then (record m { imdb_id = some (prefix 20 imdb_id) }, true)
      else (m, false)

  unfoldable pub link_media_ids : MediaRow → Value → Value → Option Text → MediaRow × Bool
  link_media_ids m tmdb_id tvdb_id imdb_id =
      let (m1, tmdb_changed) = link_media_tmdb tmdb_id m in
      let (m2, tvdb_changed) = link_media_tvdb tvdb_id m1 in
      let (m3, imdb_changed) = link_media_imdb imdb_id m2 in
      (m3, tmdb_changed || tvdb_changed || imdb_changed)
