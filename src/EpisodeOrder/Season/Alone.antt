-- ===== src/EpisodeOrder/Season/Alone.antt =====
-- What a request for a season's mapping inserts while no other changes the table.
use mathlib.Core.Path.{subst}
use scrob.Prelude.{
  ℕ, ◌+◌, ◌≤◌, ◌≡◌, refl, sym, ap, not, ◌&&◌, Option, none, some, List, [], ◌∷◌, arith, filter,
  if◌then◌else◌, ◌==◌, nat_eq, pair_eq, contains, Bool-cases, inl, inr,
}
use scrob.Prelude.Clock.{Time}
use scrob.Prelude.Sums.{sum}
use scrob.Prelude.Text.{Text}
use scrob.EpisodeOrder.{TmdbEpisode, TvdbEpisode, EpisodeOrderMapping, matched}
use scrob.EpisodeOrder.Unique.{count_episode, OneToOne, Ensures, match-Ensures}
use scrob.EpisodeOrder.Season.{
  Request, Mappings, rows_of, is_mapped, begin_season, Reply, rows, insert_mappings,
  season_mappings, finish_season, ensure_episode_order_mapping_for_season,
}
use scrob.EpisodeOrder.Season.Begin.{begun, begin-works}
use scrob.EpisodeOrder.Season.Inserts.{Free, Joined, ids, insert_all-Free, positions}

abbrev pub IsDistinct : List TmdbEpisode → Type 0
IsDistinct episodes = (s e : ℕ) → count_episode s e episodes ≤ 1

-- The episodes that are left to match are not at a position that has a row.
unmapped-count :
    (old : List EpisodeOrderMapping) (episodes : List TmdbEpisode) (s e : ℕ)
    → count_episode s e (filter (λ t. not (is_mapped old t)) episodes)
      ≤ (if contains (positions old) (s, e) then 0 else count_episode s e episodes)
unmapped-count old [] s e = ground arith
unmapped-count old (t ∷ episodes) s e =
    elim (Bool-cases (t.season_number == s && t.episode_number == e)) [
      | inl here ↦
          let a : t.season_number ≡ s = ground arith in
          let b : t.episode_number ≡ e = ground arith in
          let same : is_mapped old t ≡ contains (positions old) (s, e) = rw a (rw b refl) in
          ground (arith, same, unmapped-count old episodes s e)
      | inr other ↦ ground (arith, unmapped-count old episodes s e)
    ]

module _ (ascii : Text → Text) (parse_date : Text → Option ℕ)
    (external : TmdbEpisode → Option ℕ) where
  matched-Free :
      (old : List EpisodeOrderMapping) (episodes : List TmdbEpisode) (es : List TvdbEpisode)
      (ms : List EpisodeOrderMapping)
      → IsDistinct episodes
      → season_mappings ascii parse_date external old episodes es ≡ matched ms
      → Free ms old
  unfolding season_mappings
  matched-Free old episodes es ms distinct h =
      let left = filter (λ t. not (is_mapped old t)) episodes in
      let one : OneToOne ascii parse_date external (ids old) es left ms =
        subst (Ensures ascii parse_date external left es (ids old)) h
          (match-Ensures ascii parse_date external left es (ids old)) in
      record {
        by_id = one.ids;
        by_position =
            λ s e. ground (arith, one.positions s e, unmapped-count old episodes s e, distinct s e);
      }

  finish-inserts :
      (r : Request) (episodes : List TmdbEpisode) (es : List TvdbEpisode) (s : Mappings)
      (ms : List EpisodeOrderMapping)
      → IsDistinct episodes
      → season_mappings ascii parse_date external (rows_of r.tmdb_id s.table) episodes es
        ≡ matched ms
      → let out =
          finish_season ascii parse_date external r
            (rows_of r.tmdb_id s.table)
            (some (episodes, es))
            s in
        (out.1 ≡ rows ms) × Joined r.tmdb_id ms (rows_of r.tmdb_id s.table) out.0.table
  unfolding finish_season
  finish-inserts r episodes es s ms distinct h =
      let (table, done, joined) =
        insert_all-Free r.tmdb_id ms s.table
          (matched-Free (rows_of r.tmdb_id s.table) episodes es ms distinct h) in
      rw (h, finish_season) (rw (done, insert_mappings) (refl, joined))

  -- What follows the first part.
  abbrev proceed :
      Request
      → Option (List TmdbEpisode × List TvdbEpisode)
      → (Mappings → Mappings)
      → Mappings × Option (List EpisodeOrderMapping)
      → Mappings × Reply
  proceed r fetched meanwhile (s, none) = (s, rows [])
  proceed r fetched meanwhile (s, some old) =
      finish_season ascii parse_date external r old fetched (meanwhile s)

  pub ensure-proceed :
      (ttl : ℕ) (now : Time) (r : Request) (fetched : Option (List TmdbEpisode × List TvdbEpisode))
      (meanwhile : Mappings → Mappings) (s : Mappings)
      (p : Mappings × Option (List EpisodeOrderMapping))
      → begin_season ttl now r s ≡ p
      → ensure_episode_order_mapping_for_season ascii parse_date external ttl now r fetched
          meanwhile s
        ≡ proceed r fetched meanwhile p
  unfolding ensure_episode_order_mapping_for_season
  ensure-proceed ttl now r fetched meanwhile s p e = ap (proceed r fetched meanwhile) e

  -- While no other request changes the table, what is matched is inserted: the constraints of the
  -- table never refuse it, its rows join those of the series, and the reply names them, provided
  -- that TMDB lists no position twice.
  pub season-inserts :
      (ttl : ℕ) (now : Time) (r : Request) (episodes : List TmdbEpisode) (es : List TvdbEpisode)
      (s : Mappings) (old ms : List EpisodeOrderMapping)
      → IsDistinct episodes
      → (begin_season ttl now r s).1 ≡ some old
      → season_mappings ascii parse_date external old episodes es ≡ matched ms
      → ((ensure_episode_order_mapping_for_season ascii parse_date external ttl now r
            (some (episodes, es))
            (λ x. x)
            s).1
          ≡ rows ms)
        × ((f : EpisodeOrderMapping → ℕ)
            → sum f (
                rows_of r.tmdb_id
                  (ensure_episode_order_mapping_for_season ascii parse_date external ttl now r
                    (some (episodes, es))
                    (λ x. x)
                    s).0.table)
              ≡ sum f ms + sum f old)
  season-inserts ttl now r episodes es s old ms distinct h k =
      let (work, same) = begin-works ttl now r s old h in
      subst (λ out. (out.1 ≡ rows ms) × Joined r.tmdb_id ms old out.0.table)
        (sym (
          ensure-proceed ttl now r (some (episodes, es)) (λ x. x) s (begun ttl now r s, some old)
            work))
        (subst
          (λ o.
            ((finish_season ascii parse_date external r o (some (episodes, es))
                (begun ttl now r s)).1
              ≡ rows ms)
            × Joined r.tmdb_id ms o
                (finish_season ascii parse_date external r o (some (episodes, es))
                  (begun ttl now r s)).0.table)
          same
          (finish-inserts r episodes es (begun ttl now r s) ms distinct (
            subst (λ o. season_mappings ascii parse_date external o episodes es ≡ matched ms)
              (sym same) k)))
