-- ===== src/EpisodeOrder/Matched.antt =====
-- One round of the matching: which TVDB episode a mapping names, and why.
use mathlib.Core.Path.{subst}
use scrob.Prelude.{
  ℕ, ◌≡◌, refl, ap, Bool, true, false, not, ◌&&◌, ◌||◌, Option, none, some, List, [], arith, filter,
  any, if◌then◌else◌, ◌==◌, nat_eq, contains, All, filter-All, Bool-cases, Option-cases, ◌⊎◌, inl,
  inr,
}
use scrob.Prelude.Dict.{get}
use scrob.Prelude.Text.{Text}
use scrob.EpisodeOrder.{
  TmdbEpisode, TvdbEpisode, Method, external_id, title_date, EpisodeOrderMapping, is_used,
  tvdb_by_id, Round, skipped, raised, mapped, names_same, external_match, candidates, only,
  find_match, mapping_of, match_episode,
}
use scrob.EpisodeOrder.Found.{
  any-filter, by_id-has, is_number, lacks_id, no_entry, no_match, only-one, pair_or,
}

module _ (ascii : Text → Text) (parse_date : Text → Option ℕ)
    (external : TmdbEpisode → Option ℕ) where
  -- Why a mapping names a TVDB episode.
  abbrev pub by_method : Method → TmdbEpisode → TvdbEpisode → Bool
  by_method external_id episode e = elim e.id [
    | none ↦ false
    | some id ↦ is_number (external episode) id
  ]
  by_method title_date episode e = names_same ascii parse_date external episode e

  abbrev pub explains : EpisodeOrderMapping → TmdbEpisode → TvdbEpisode → Bool
  explains m episode e =
      (m.tmdb_season_number == episode.season_number
        && m.tmdb_episode_number == episode.episode_number
        && m.tmdb_episode_id == episode.id)
      && (is_number e.id m.tvdb_id
          && is_number e.season_number m.tvdb_season_number
          && is_number e.number m.tvdb_episode_number)
      && by_method m.match_method episode e

  abbrev Fits : List ℕ → List TvdbEpisode → TmdbEpisode → TvdbEpisode × Method → Type 0
  Fits used es episode (e, method) =
      (is_used used e.id ≡ false)
      × (by_method method episode e ≡ true)
      × ((q : TvdbEpisode → Bool) → q e ≡ true → any q es ≡ true)

  listed-Fits :
      (used : List ℕ) (es : List TvdbEpisode) (episode : TmdbEpisode) (id : ℕ) (e : TvdbEpisode)
      → external episode ≡ some id
      → contains used id ≡ false
      → get (tvdb_by_id es []) id ≡ some e
      → Fits used es episode (e, external_id)
  listed-Fits used es episode id e s free h = elim (by_id-has id e es [] h) [
    | inl (same, there) ↦ (rw same free, rw same (rw s (ground arith)), there)
    | inr none_there ↦ absurd (no_match e (no_entry id e none_there))
  ]

  external-Fits :
      (used : List ℕ) (es : List TvdbEpisode) (episode : TmdbEpisode) (e : TvdbEpisode)
      → external_match ascii parse_date external used (tvdb_by_id es []) episode ≡ some e
      → Fits used es episode (e, external_id)
  unfolding external_match
  external-Fits used es episode e h = elim (Option-cases (external episode)) [
    | inl n ↦ absurd (no_match e (rw (n, external_match) at h))
    | inr (id, s) ↦
        let h' : (if id == 0 || contains used id then none else get (tvdb_by_id es []) id)
            ≡ some e =
          subst
            (λ o.
              elim o [
                | none ↦ none
                | some i ↦ if i == 0 || contains used i then none else get (tvdb_by_id es []) i
              ]
              ≡ some e)
            s h in
        elim (Bool-cases (id == 0 || contains used id)) [
          | inl t ↦ absurd (no_match e (rw t at h'))
          | inr f ↦ listed-Fits used es episode id e s (ground arith) (rw f at h')
        ]
  ]

  candidate-Fits :
      (used : List ℕ) (es : List TvdbEpisode) (episode : TmdbEpisode) (e : TvdbEpisode)
      (method : Method)
      → only (candidates ascii parse_date external used es episode) ≡ some (e, method)
      → Fits used es episode (e, method)
  candidate-Fits used es episode e method h =
      let p : TvdbEpisode → Bool =
        λ c. not (is_used used c.id) && names_same ascii parse_date external episode c in
      let (one, by) = only-one (filter p es) e method h in
      let (ok, rest) = subst (All (λ c. p c ≡ true)) one (filter-All p es) in
      (
        ground arith,
        subst (λ m. by_method m episode e ≡ true) by (ground arith),
        λ q t. any-filter p q es (rw one (rw t refl)),
      )

  -- What is found is of the list, is not used, and fits by its method.
  found-Fits :
      (used : List ℕ) (es : List TvdbEpisode) (episode : TmdbEpisode) (m : TvdbEpisode × Method)
      → find_match ascii parse_date external used es episode ≡ some m
      → Fits used es episode m
  unfolding find_match
  found-Fits used es episode (e, method) h =
      elim (Option-cases
        (external_match ascii parse_date external used (tvdb_by_id es []) episode)) [
          | inl n ↦ candidate-Fits used es episode e method (
              subst
                (λ o.
                  elim o [
                    | none ↦ only (candidates ascii parse_date external used es episode)
                    | some x ↦ some (x, external_id)
                  ]
                  ≡ some (e, method))
                n h)
          | inr (x, s) ↦
              let h' : Option.some (x, external_id) ≡ some (e, method) =
                subst
                  (λ o.
                    elim o [
                      | none ↦ only (candidates ascii parse_date external used es episode)
                      | some y ↦ some (y, external_id)
                    ]
                    ≡ some (e, method))
                  s h in
              subst (Fits used es episode) (ap (pair_or (x, external_id)) h')
                (external-Fits used es episode x s)
        ]

  abbrev pub Explained : List ℕ → List TvdbEpisode → TmdbEpisode → EpisodeOrderMapping → Type 0
  Explained used es episode m =
      (contains used m.tvdb_id ≡ false) × (any (explains m episode) es ≡ true)

  abbrev row_or : EpisodeOrderMapping → Round → EpisodeOrderMapping
  row_or m skipped = m
  row_or m raised = m
  row_or m (mapped x) = x

  abbrev row : TmdbEpisode → Method → ℕ → ℕ → ℕ → EpisodeOrderMapping
  row episode method season number id = record {
    tmdb_season_number = episode.season_number;
    tmdb_episode_number = episode.episode_number;
    tmdb_episode_id = episode.id;
    tvdb_id = id;
    tvdb_season_number = season;
    tvdb_episode_number = number;
    match_method = method;
  }

  not_mapped : (m : EpisodeOrderMapping) → (Round.skipped ≡ mapped m) ⊎ (raised ≡ mapped m) → ⊥
  not_mapped m (inl h) = cc
  not_mapped m (inr h) = cc

  mapping-Explained :
      (used : List ℕ) (es : List TvdbEpisode) (episode : TmdbEpisode) (e : TvdbEpisode)
      (method : Method) (m : EpisodeOrderMapping)
      → Fits used es episode (e, method)
      → mapping_of ascii parse_date external episode (e, method) ≡ mapped m
      → Explained used es episode m
  mapping-Explained used es episode e method m (free, by, there) h =
      elim (Option-cases e.season_number) [
        | inl n ↦ absurd (not_mapped m (inl (rw n at h)))
        | inr (season, s) ↦
            let h1 = rw s at h in
            elim (Option-cases e.number) [
              | inl n ↦ absurd (not_mapped m (inl (rw n at h1)))
              | inr (number, t) ↦
                  let h2 = rw t at h1 in
                  elim (Option-cases e.id) [
                    | inl n ↦ absurd (not_mapped m (inr (rw n at h2)))
                    | inr (id, u) ↦
                        let same : row episode method season number id ≡ m =
                          ap (row_or (row episode method season number id)) (rw u at h2) in
                        subst (Explained used es episode) same (
                          rw u at free,
                          there (explains (row episode method season number id) episode)
                              (ground (arith, by, s, t, u)),
                        )
                  ]
            ]
      ]

  pub round-Explained :
      (used : List ℕ) (es : List TvdbEpisode) (episode : TmdbEpisode) (m : EpisodeOrderMapping)
      → match_episode ascii parse_date external used es episode ≡ mapped m
      → Explained used es episode m
  unfolding match_episode
  round-Explained used es episode m h =
      elim (Option-cases (find_match ascii parse_date external used es episode)) [
        | inl n ↦ absurd (
            not_mapped m (
              inl (
                subst
                  (λ o.
                    elim o [
                      | none ↦ skipped
                      | some x ↦ mapping_of ascii parse_date external episode x
                    ]
                    ≡ mapped m)
                  n h)))
        | inr ((e, method), s) ↦
            mapping-Explained used es episode e method m (found-Fits used es episode (e, method) s)
              (subst
                (λ o.
                  elim o [
                    | none ↦ skipped
                    | some x ↦ mapping_of ascii parse_date external episode x
                  ]
                  ≡ mapped m)
                s h)
      ]

  not_raised : (m : EpisodeOrderMapping) → (Round.skipped ≡ raised) ⊎ (mapped m ≡ raised) → ⊥
  not_raised m (inl h) = cc
  not_raised m (inr h) = cc

  abbrev some_row : TmdbEpisode → EpisodeOrderMapping
  some_row episode = row episode title_date 0 0 0

  mapping-raised :
      (episode : TmdbEpisode) (e : TvdbEpisode) (method : Method)
      → mapping_of ascii parse_date external episode (e, method) ≡ raised
      → lacks_id e ≡ true
  mapping-raised episode e method h = elim (Option-cases e.season_number) [
    | inl n ↦ absurd (not_raised (some_row episode) (inl (rw n at h)))
    | inr (season, s) ↦
        let h1 = rw s at h in
        elim (Option-cases e.number) [
          | inl n ↦ absurd (not_raised (some_row episode) (inl (rw n at h1)))
          | inr (number, t) ↦
              let h2 = rw t at h1 in
              elim (Option-cases e.id) [
                | inl n ↦ rw n refl
                | inr (id, u) ↦
                    absurd (not_raised (row episode method season number id) (inr (rw u at h2)))
              ]
        ]
  ]

  pub round-raised :
      (used : List ℕ) (es : List TvdbEpisode) (episode : TmdbEpisode)
      → match_episode ascii parse_date external used es episode ≡ raised
      → any lacks_id es ≡ true
  unfolding match_episode
  round-raised used es episode h =
      elim (Option-cases (find_match ascii parse_date external used es episode)) [
        | inl n ↦ absurd (
            not_raised (some_row episode) (
              inl (
                subst
                  (λ o.
                    elim o [
                      | none ↦ skipped
                      | some x ↦ mapping_of ascii parse_date external episode x
                    ]
                    ≡ raised)
                  n h)))
        | inr ((e, method), s) ↦
            let (free, by, there) = found-Fits used es episode (e, method) s in
            there lacks_id (
              mapping-raised episode e method (
                subst
                  (λ o.
                    elim o [
                      | none ↦ skipped
                      | some x ↦ mapping_of ascii parse_date external episode x
                    ]
                    ≡ raised)
                  s h))
      ]
