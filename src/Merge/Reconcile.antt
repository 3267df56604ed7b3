-- ===== src/Merge/Reconcile.antt =====
-- Which episodes `reconcile_divergent_episode_media` may remove.
use scrob.Prelude.{
  ℕ, ◌+◌, ◌≡◌, refl, Bool, true, false, not, ◌&&◌, ◌||◌, some, List, [], ◌∷◌, arith, filter, any,
  find?, ◌==◌, nat_eq, All, All-filter, Bool-cases, Option-cases, inl, inr, ◌⊎◌, ◌∙◌,
}
use scrob.Merge.{
  Episode, Db, Mapping, Stats, is_value, is_position, tvdb_identity, merge_episode_media,
  merge_pair, reconcile_mappings,
}

abbrev pub has_episode : ℕ → List Episode → Bool
has_episode id episodes = any (λ e. e.id == id) episodes

-- A mapping was built from the TVDB episode that the row is.
abbrev pub is_named : List Mapping → Episode → Bool
is_named mappings e = any (λ m. is_value (tvdb_identity e) (some m.tvdb_id)) mappings

abbrev pub spared : List Mapping → ℕ → Episode → Bool
spared mappings id e = not (e.id == id && is_named mappings e)

find-All :
    (q p : Episode → Bool) (episodes : List Episode) (e : Episode)
    → All (λ x. q x ≡ true) episodes
    → find? p episodes ≡ some e
    → q e ≡ true
find-All q p [] e h f = ground arith
find-All q p (x ∷ episodes) e (h, hs) f = ground (arith, find-All q p episodes e hs)

kept :
    (id d : ℕ) (episodes : List Episode)
    → (d == id) ≡ false
    → has_episode id (filter (λ e. not (e.id == d)) episodes) ≡ has_episode id episodes
kept id d [] h = refl
kept id d (e ∷ episodes) h = ground (arith, kept id d episodes h)

-- Either nothing happens, or the row at the TVDB position is merged away, whose identity the
-- mapping names.
abbrev Outcome : Mapping → Db → Db → Type 0
Outcome m db db' =
    (db'.episodes ≡ db.episodes)
    ⊎ ((d : Episode) × (p : Episode → Bool) × (find? p db.episodes ≡ some d)
        × (is_value (tvdb_identity d) (some m.tvdb_id) ≡ true)
        × (db'.episodes ≡ filter (λ e. not (e.id == d.id)) db.episodes))

module _ (fails : Episode → Episode → Bool) (show : ℕ) where
  pair-Outcome :
      (m : Mapping) (db : Db) (stats : Stats) → Outcome m db (merge_pair fails show m (db, stats)).0
  unfolding merge_pair merge_episode_media
  pair-Outcome m db stats =
      elim (Option-cases
        (find? (is_position show m.tmdb_season_number m.tmdb_episode_number) db.episodes)) [
          | inl e ↦ rw (e, merge_pair) (inl refl)
          | inr (c, e) ↦
              rw (e, merge_pair)
                (elim (Option-cases (
                  find? (is_position show m.tvdb_season_number m.tvdb_episode_number)
                    db.episodes)) [
                      | inl f ↦ rw f (inl refl)
                      | inr (d, f) ↦
                          rw f
                            (elim (Bool-cases (
                              c.id == d.id
                              || not (is_value (tvdb_identity d) (some m.tvdb_id))
                              || fails c d)) [
                                | inl stop ↦ rw stop (inl refl)
                                | inr go ↦ rw go (
                                    inr (
                                      d,
                                      is_position show m.tvdb_season_number m.tvdb_episode_number,
                                      f,
                                      ground arith,
                                      refl,
                                    ))
                              ])
                    ])
        ]

module _ (id : ℕ) where
  tail_spared :
      (m : Mapping) (mappings : List Mapping) (episodes : List Episode)
      → All (λ e. spared (m ∷ mappings) id e ≡ true) episodes
      → All (λ e. spared mappings id e ≡ true) episodes
        × All (λ e. not (e.id == id && is_value (tvdb_identity e) (some m.tvdb_id)) ≡ true) episodes
  tail_spared m mappings [] h = (tt, tt)
  tail_spared m mappings (e ∷ episodes) (h, hs) =
      let (a, b) = tail_spared m mappings episodes hs in ((ground arith, a), (ground arith, b))

  Outcome-keeps :
      (m : Mapping) (mappings : List Mapping) (db db' : Db)
      → All (λ e. spared (m ∷ mappings) id e ≡ true) db.episodes
      → Outcome m db db'
      → All (λ e. spared mappings id e ≡ true) db'.episodes
        × (has_episode id db'.episodes ≡ has_episode id db.episodes)
  Outcome-keeps m mappings db db' h (inl same) =
      rw same ((tail_spared m mappings db.episodes h).0, refl)
  Outcome-keeps m mappings db db' h (inr (d, p, found, named, left)) =
      let (later, now) = tail_spared m mappings db.episodes h in
      let other =
        find-All (λ e. not (e.id == id && is_value (tvdb_identity e) (some m.tvdb_id))) p
          db.episodes d now found in
      rw left (
        All-filter (λ e. spared mappings id e ≡ true) (λ e. not (e.id == d.id)) db.episodes later,
        kept id d.id db.episodes (ground arith),
      )

  -- If no mapping names the TVDB id of an episode's rows, reconciling never removes the episode,
  -- whatever positions it shares and whichever merges fail.
  pub reconcile-keeps :
      (fails : Episode → Episode → Bool) (show : ℕ) (mappings : List Mapping) (db : Db)
      (stats : Stats)
      → All (λ e. spared mappings id e ≡ true) db.episodes
      → has_episode id (reconcile_mappings fails show mappings (db, stats)).0.episodes
        ≡ has_episode id db.episodes
  unfolding reconcile_mappings
  reconcile-keeps fails show [] db stats h = refl
  reconcile-keeps fails show (m ∷ mappings) db stats h =
      elim (Bool-cases (
        m.tmdb_season_number == m.tvdb_season_number
        && m.tmdb_episode_number == m.tvdb_episode_number)) [
          | inl same ↦
              rw (same, reconcile_mappings)
                (reconcile-keeps fails show mappings db stats
                  (tail_spared m mappings db.episodes h).0)
          | inr moved ↦
              let s : Stats = record stats { checked = stats.checked + 1 } in
              let after = merge_pair fails show m (db, s) in
              let (later, same) =
                Outcome-keeps m mappings db after.0 h (pair-Outcome fails show m db s) in
              rw (moved, reconcile_mappings)
                (reconcile-keeps fails show mappings after.0 after.1 later ∙ same)
        ]
