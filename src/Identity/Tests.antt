-- ===== src/Identity/Tests.antt =====
-- An episode and two shows, linked and looked up.
use scrob.Prelude.{
  ℕ, String, ◌≡◌, refl, true, ◌&&◌, ◌||◌, Option, none, some, [], ◌∷◌, inl, ◌==◌, nat_eq,
}
use scrob.Watch.{MediaType}
use scrob.Identity.{
  ℤ, pos, null, integer, media_type_beq, MediaRow, ShowRow, coerce_id, find_media, media_by_tvdb,
  oldest,
}
use scrob.Identity.Lookups.{fits, find_media-fits}
use scrob.Identity.Links.{link_show_ids}
use scrob.Identity.Links.Unique.{Keys, link_show-Keys}

-- No text is a number.
abbrev parse : String → Option ℤ
parse s = none

abbrev an_episode : MediaRow
an_episode = record {
  id = 4;
  media_type = MediaType.episode;
  tmdb_id = none;
  tvdb_id = some 81189;
  imdb_id = none;
}

found_by_tvdb :
    find_media parse
      (an_episode ∷ [])
      MediaType.episode
      null
      (integer (pos 5))
      (integer (pos 81189))
    ≡ some an_episode
unfolding find_media media_by_tvdb coerce_id oldest
found_by_tvdb = refl

find_media-fits_example :
    (media_type_beq MediaType.episode MediaType.episode && elim (coerce_id parse null) [
      | some n ↦ ◌==◌ {K = ℕ} 4 n
      | none ↦
          fits (coerce_id parse (integer (pos 5))) none
          || fits (coerce_id parse (integer (pos 81189))) (some 81189)
    ])
    ≡ true
find_media-fits_example =
    find_media-fits parse (an_episode ∷ []) MediaType.episode null (integer (pos 5))
      (integer (pos 81189)) an_episode found_by_tvdb

abbrev a_show : ShowRow
a_show = record { id = 1; tmdb_id = none; tvdb_id = some 70 }

abbrev another_show : ShowRow
another_show = record { id = 2; tmdb_id = some 1396; tvdb_id = none }

two_shows-Keys : Keys (a_show ∷ another_show ∷ [])
two_shows-Keys = record {
  ids = (refl, (refl, tt));
  tmdb_ids = (refl, (refl, tt));
  tvdb_ids = (refl, (refl, tt));
}

link_show-Keys_example :
    Keys (link_show_ids parse (a_show ∷ another_show ∷ []) a_show (integer (pos 1396)) null).0
link_show-Keys_example =
    link_show-Keys parse (a_show ∷ another_show ∷ []) a_show (integer (pos 1396)) null
      two_shows-Keys (inl refl)
