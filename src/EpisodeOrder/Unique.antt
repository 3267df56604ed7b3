-- ===== src/EpisodeOrder/Unique.antt =====
-- What `_match_tmdb_to_tvdb_episodes` returns, and when it does not return.
use scrob.Prelude.{
  ℕ, ◌≤◌, ◌≡◌, refl, true, ◌&&◌, Option, List, [], ◌∷◌, arith, any, if◌then◌else◌, ◌==◌, nat_eq,
  contains, add, contains-add, All, All-map, Bool-cases, ◌⊎◌, inl, inr,
}
use scrob.Prelude.Sums.{sum}
use scrob.Prelude.Text.{Text}
use scrob.EpisodeOrder.{
  TmdbEpisode, TvdbEpisode, EpisodeOrderMapping, Round, skipped, raised, mapped, Matching, matched,
  value_error, type_error, match_episode, match_episodes, prepend, is_doomed,
  match_tmdb_to_tvdb_episodes,
}
use scrob.EpisodeOrder.Matched.{explains, Explained, round-Explained, round-raised}
use scrob.EpisodeOrder.Found.{lacks_id}

abbrev pub count_tvdb : ℕ → List EpisodeOrderMapping → ℕ
count_tvdb i ms = sum (λ m. if m.tvdb_id == i then 1 else 0) ms

abbrev pub count_position : ℕ → ℕ → List EpisodeOrderMapping → ℕ
count_position s e ms =
    sum (λ m. if m.tmdb_season_number == s && m.tmdb_episode_number == e then 1 else 0) ms

abbrev pub count_episode : ℕ → ℕ → List TmdbEpisode → ℕ
count_episode s e episodes =
    sum (λ t. if t.season_number == s && t.episode_number == e then 1 else 0) episodes

module _ (ascii : Text → Text) (parse_date : Text → Option ℕ)
    (external : TmdbEpisode → Option ℕ) where
  pub record OneToOne (used : List ℕ) (es : List TvdbEpisode) (episodes : List TmdbEpisode)
      (ms : List EpisodeOrderMapping) : Type 0 where
    pub ids : (i : ℕ) → count_tvdb i ms ≤ (if contains used i then 0 else 1)
    pub positions : (s e : ℕ) → count_position s e ms ≤ count_episode s e episodes
    pub explained :
        All (λ m. any (λ t. any (explains ascii parse_date external m t) es) episodes ≡ true) ms

  abbrev Loop : List ℕ → List TvdbEpisode → List TmdbEpisode → Matching → Type 0
  Loop used es episodes (matched ms) = OneToOne used es episodes ms
  Loop used es episodes value_error = ⊥
  Loop used es episodes type_error = any (lacks_id) es ≡ true

  explains_position :
      (m : EpisodeOrderMapping) (t : TmdbEpisode) (es : List TvdbEpisode)
      → any (explains ascii parse_date external m t) es ≡ true
      → (m.tmdb_season_number ≡ t.season_number) × (m.tmdb_episode_number ≡ t.episode_number)
  explains_position m t [] h = absurd (ground arith)
  explains_position m t (e ∷ es) h = elim (Bool-cases (explains ascii parse_date external m t e)) [
    | inl yes_it ↦ (ground arith, ground arith)
    | inr other ↦ explains_position m t es (ground arith)
  ]

  more_episodes :
      (used : List ℕ) (es : List TvdbEpisode) (t : TmdbEpisode) (episodes : List TmdbEpisode)
      (r : Matching)
      → Loop used es episodes r
      → Loop used es (t ∷ episodes) r
  more_episodes used es t episodes (matched ms) h = record {
    ids = h.ids;
    positions = λ s e. omega (arith, h.positions s e);
    explained = All-map ms (λ m k. ground (arith, k)) h.explained;
  }
  more_episodes used es t episodes value_error h = h
  more_episodes used es t episodes type_error h = h

  one_more :
      (used : List ℕ) (es : List TvdbEpisode) (t : TmdbEpisode) (episodes : List TmdbEpisode)
      (m : EpisodeOrderMapping) (r : Matching)
      → Explained ascii parse_date external used es t m
      → Loop (add m.tvdb_id used) es episodes r
      → Loop used es (t ∷ episodes) (prepend m r)
  one_more used es t episodes m (matched ms) (free, why) h = record {
    ids = λ i. ground (arith, h.ids i, contains-add m.tvdb_id used i, free);
    positions =
        λ s e. (let (a, b) = explains_position m t es why in ground (arith, h.positions s e, a, b));
    explained = (ground (arith, why), All-map ms (λ x k. ground (arith, k)) h.explained);
  }
  one_more used es t episodes m value_error why h = h
  one_more used es t episodes m type_error why h = h

  -- The rest of the loop after one round.
  abbrev rest_of : List ℕ → List TvdbEpisode → List TmdbEpisode → Round → Matching
  rest_of used es episodes skipped = match_episodes ascii parse_date external used es episodes
  rest_of used es episodes raised = type_error
  rest_of used es episodes (mapped m) =
      prepend m (match_episodes ascii parse_date external (add m.tvdb_id used) es episodes)

  round-Loop :
      (used : List ℕ) (es : List TvdbEpisode) (t : TmdbEpisode) (episodes : List TmdbEpisode)
      (r : Round)
      → match_episode ascii parse_date external used es t ≡ r
      → ((used : List ℕ)
          → Loop used es episodes (match_episodes ascii parse_date external used es episodes))
      → Loop used es (t ∷ episodes) (rest_of used es episodes r)
  round-Loop used es t episodes skipped h rest =
      more_episodes used es t episodes (match_episodes ascii parse_date external used es episodes)
        (rest used)
  round-Loop used es t episodes raised h rest = round-raised ascii parse_date external used es t h
  round-Loop used es t episodes (mapped m) h rest =
      one_more used es t episodes m
        (match_episodes ascii parse_date external (add m.tvdb_id used) es episodes)
        (round-Explained ascii parse_date external used es t m h) (rest (add m.tvdb_id used))

  match_episodes-Loop :
      (used : List ℕ) (es : List TvdbEpisode) (episodes : List TmdbEpisode)
      → Loop used es episodes (match_episodes ascii parse_date external used es episodes)
  unfolding match_episodes
  match_episodes-Loop used es [] = record {
    ids = λ i. ground arith;
    positions = λ s e. omega arith;
    explained = tt;
  }
  match_episodes-Loop used es (t ∷ episodes) =
      round-Loop used es t episodes (match_episode ascii parse_date external used es t) refl
        (λ used'. match_episodes-Loop used' es episodes)

  -- What each outcome of the matching says.
  abbrev pub Ensures : List TmdbEpisode → List TvdbEpisode → List ℕ → Matching → Type 0
  Ensures episodes es used (matched ms) = OneToOne used es episodes ms
  Ensures episodes es used value_error =
      (episodes ≡ []) ⊎ (es ≡ []) ⊎ (is_doomed ascii parse_date external episodes es ≡ true)
  Ensures episodes es used type_error = any lacks_id es ≡ true

  Loop-Ensures :
      (episodes : List TmdbEpisode) (es : List TvdbEpisode) (used : List ℕ) (r : Matching)
      → Loop used es episodes r
      → Ensures episodes es used r
  Loop-Ensures episodes es used (matched ms) h = h
  Loop-Ensures episodes es used value_error h = absurd h
  Loop-Ensures episodes es used type_error h = h

  -- The matching either pairs episodes one to one (a TVDB episode that was used before or in the
  -- same run is not used again, a TMDB position is used no more often than it is listed, and every
  -- pair has the positions and the ids of listed episodes that fit by the stated method), or raises
  -- ValueError because a side is empty or no sampled episode fits, or raises TypeError because a
  -- TVDB episode has no id.
  pub match-Ensures :
      (episodes : List TmdbEpisode) (es : List TvdbEpisode) (used : List ℕ)
      → Ensures episodes es used
          (match_tmdb_to_tvdb_episodes ascii parse_date external episodes es used)
  unfolding match_tmdb_to_tvdb_episodes
  match-Ensures [] es used = inl refl
  match-Ensures (t ∷ episodes) [] used = inr (inl refl)
  match-Ensures (t ∷ episodes) (e ∷ es) used =
      elim (Bool-cases (is_doomed ascii parse_date external (t ∷ episodes) (e ∷ es))) [
        | inl doomed ↦ rw (doomed, match_tmdb_to_tvdb_episodes) (inr (inr doomed))
        | inr fine ↦
            rw (fine, match_tmdb_to_tvdb_episodes)
              (Loop-Ensures (t ∷ episodes) (e ∷ es) used
                (match_episodes ascii parse_date external used (e ∷ es) (t ∷ episodes))
                (match_episodes-Loop used (e ∷ es) (t ∷ episodes)))
      ]
