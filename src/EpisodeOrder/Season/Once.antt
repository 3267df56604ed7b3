-- ===== src/EpisodeOrder/Season/Once.antt =====
-- How a request that works on a show keeps others away, while it waits and afterwards.
use mathlib.Core.Path.{subst}
use scrob.Prelude.{
  ℕ, ◌+◌, ◌<◌, ◌≡◌, refl, sym, ap, ◌∙◌, true, Option, none, some, List, [], ◌∷◌, arith, nat_eq,
  pair_eq, contains, Option-cases, ◌⊎◌, All, inl, inr,
}
use scrob.Prelude.Clock.{Time}
use scrob.Prelude.Dict.{get}
use scrob.Prelude.Text.{Text}
use scrob.EpisodeOrder.{
  TmdbEpisode, TvdbEpisode, EpisodeOrderMapping, Matching, matched, value_error, type_error,
}
use scrob.EpisodeOrder.Season.{
  Request, Mappings, insert_all, begin_season, release, Reply, rows, raises, insert_mappings,
  season_mappings, finish_season, ensure_episode_order_mapping_for_season,
}
use scrob.EpisodeOrder.Season.Alone.{ensure-proceed}
use scrob.EpisodeOrder.Season.Begin.{begin-works, begin-recent, begin-locked}
use scrob.EpisodeOrder.Season.Guards.{
  IsBefore, IsElsewhere, Part, begin-dated, begin-keeps_lock, begins, dated_at, finishes,
  release-keeps,
}

module _ (ascii : Text → Text) (parse_date : Text → Option ℕ)
    (external : TmdbEpisode → Option ℕ) where
  insert-attempts :
      (series : ℕ) (ms : List EpisodeOrderMapping) (s : Mappings)
      → (insert_mappings series ms s).0.attempts ≡ s.attempts
  insert-attempts series ms s = elim (Option-cases (insert_all series ms s.table)) [
    | inl n ↦ rw (n, insert_mappings) refl
    | inr (t, e) ↦ rw (e, insert_mappings) refl
  ]

  abbrev replied : Request → Mappings → Matching → Mappings × Reply
  replied r s value_error = (release r.tmdb_id s, rows [])
  replied r s type_error = (release r.tmdb_id s, raises)
  replied r s (matched ms) = insert_mappings r.tmdb_id ms (release r.tmdb_id s)

  replied-attempts :
      (r : Request) (s : Mappings) (m : Matching) → (replied r s m).0.attempts ≡ s.attempts
  replied-attempts r s value_error = refl
  replied-attempts r s type_error = refl
  replied-attempts r s (matched ms) = insert-attempts r.tmdb_id ms (release r.tmdb_id s)

  finish-attempts :
      (r : Request) (old : List EpisodeOrderMapping)
      (fetched : Option (List TmdbEpisode × List TvdbEpisode)) (s : Mappings)
      → (finish_season ascii parse_date external r old fetched s).0.attempts ≡ s.attempts
  unfolding finish_season
  finish-attempts r old none s = refl
  finish-attempts r old (some (episodes, es)) s =
      replied-attempts r s (season_mappings ascii parse_date external old episodes es)

  insert-locks :
      (series : ℕ) (ms : List EpisodeOrderMapping) (s : Mappings)
      → (insert_mappings series ms s).0.locks ≡ s.locks
  insert-locks series ms s = elim (Option-cases (insert_all series ms s.table)) [
    | inl n ↦ rw (n, insert_mappings) refl
    | inr (t, e) ↦ rw (e, insert_mappings) refl
  ]

  replied-locks :
      (r : Request) (s : Mappings) (m : Matching)
      → (replied r s m).0.locks ≡ (release r.tmdb_id s).locks
  replied-locks r s value_error = refl
  replied-locks r s type_error = refl
  replied-locks r s (matched ms) = insert-locks r.tmdb_id ms (release r.tmdb_id s)

  finish-locks :
      (r : Request) (old : List EpisodeOrderMapping)
      (fetched : Option (List TmdbEpisode × List TvdbEpisode)) (s : Mappings)
      → (finish_season ascii parse_date external r old fetched s).0.locks
        ≡ (release r.tmdb_id s).locks
  unfolding finish_season
  finish-locks r old none s = refl
  finish-locks r old (some (episodes, es)) s =
      replied-locks r s (season_mappings ascii parse_date external old episodes es)

  abbrev pub handle : ℕ → Part → Mappings → Mappings
  handle ttl (begins now r) s = (begin_season ttl now r s).0
  handle ttl (finishes r old fetched) s =
      (finish_season ascii parse_date external r old fetched s).0

  abbrev pub run : ℕ → List Part → Mappings → Mappings
  run ttl [] s = s
  run ttl (e ∷ events) s = run ttl events (handle ttl e s)

  run-dated :
      (ttl : ℕ) (deadline : Time) (series : ℕ) (events : List Part) (s : Mappings)
      → All (IsBefore deadline) events
      → get s.attempts series ≡ some deadline
      → get (run ttl events s).attempts series ≡ some deadline
  run-dated ttl deadline series [] s b h = h
  run-dated ttl deadline series (begins now r ∷ events) s (b, bs) h =
      run-dated ttl deadline series events (begin_season ttl now r s).0 bs
        (begin-dated ttl now deadline series r s b h)
  run-dated ttl deadline series (finishes r old fetched ∷ events) s (b, bs) h =
      run-dated ttl deadline series events
        (finish_season ascii parse_date external r old fetched s).0 bs
        (ap (λ a. get a series) (finish-attempts r old fetched s) ∙ h)

  run-locked :
      (ttl series : ℕ) (events : List Part) (s : Mappings)
      → All (IsElsewhere series) events
      → contains s.locks series ≡ true
      → contains (run ttl events s).locks series ≡ true
  run-locked ttl series [] s b h = h
  run-locked ttl series (begins now r ∷ events) s (b, bs) h =
      run-locked ttl series events (begin_season ttl now r s).0 bs
        (begin-keeps_lock ttl now series r s h)
  run-locked ttl series (finishes r old fetched ∷ events) s (b, bs) h =
      run-locked ttl series events (finish_season ascii parse_date external r old fetched s).0 bs (
        ap (λ a. contains a series) (finish-locks r old fetched s)
        ∙ release-keeps r.tmdb_id series s.locks b h)

  ensure-idle :
      (ttl : ℕ) (now : Time) (r : Request) (fetched : Option (List TmdbEpisode × List TvdbEpisode))
      (meanwhile : Mappings → Mappings) (s : Mappings)
      → begin_season ttl now r s ≡ (s, none)
      → ensure_episode_order_mapping_for_season ascii parse_date external ttl now r fetched
          meanwhile s
        ≡ (s, rows [])
  ensure-idle ttl now r fetched meanwhile s idle =
      ensure-proceed ascii parse_date external ttl now r fetched meanwhile s (s, none) idle

  -- Once a request has begun to work on a show, and whatever parts of requests for any shows then
  -- follow one another, a request for that show asks no provider and changes nothing, and replies
  -- with no rows: within the interval after the beginning, whether or not the work is over, and at
  -- any time if no work on that show has finished since.
  pub season-once :
      (ttl : ℕ) (now later : Time) (r r' : Request)
      (fetched : Option (List TmdbEpisode × List TvdbEpisode)) (meanwhile : Mappings → Mappings)
      (s : Mappings) (old : List EpisodeOrderMapping) (events : List Part)
      → (begin_season ttl now r s).1 ≡ some old
      → r'.tmdb_id ≡ r.tmdb_id
      → ((later < now + ttl) × All (IsBefore (now + ttl)) events)
        ⊎ All (IsElsewhere r.tmdb_id) events
      → let after = run ttl events (begin_season ttl now r s).0 in
        ensure_episode_order_mapping_for_season ascii parse_date external ttl later r' fetched
          meanwhile after
        ≡ (after, rows [])
  season-once ttl now later r r' fetched meanwhile s old events h same (inl (soon, before)) =
      let (work, e) = begin-works ttl now r s old h in
      let first : get (begin_season ttl now r s).0.attempts r.tmdb_id ≡ some (now + ttl) =
        ap (λ p. get p.0.attempts r.tmdb_id) work ∙ dated_at r.tmdb_id (now + ttl) s in
      let after = run ttl events (begin_season ttl now r s).0 in
      let dated =
        run-dated ttl (now + ttl) r.tmdb_id events (begin_season ttl now r s).0 before first in
      ensure-idle ttl later r' fetched meanwhile after (
        begin-recent ttl later (now + ttl) r' after soon
          (subst (λ i. get after.attempts i ≡ some (now + ttl)) (sym same) dated))
  season-once ttl now later r r' fetched meanwhile s old events h same (inr elsewhere) =
      let (work, e) = begin-works ttl now r s old h in
      let first : contains (begin_season ttl now r s).0.locks r.tmdb_id ≡ true =
        ap (λ p. contains p.0.locks r.tmdb_id) work ∙ unfold contains in ground arith in
      let after = run ttl events (begin_season ttl now r s).0 in
      let locked = run-locked ttl r.tmdb_id events (begin_season ttl now r s).0 elsewhere first in
      ensure-idle ttl later r' fetched meanwhile after (
        begin-locked ttl later r' after
          (subst (λ i. contains after.locks i ≡ true) (sym same) locked))
