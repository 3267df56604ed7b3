-- ===== src/EpisodeOrder/Season/Begin.antt =====
-- The first part of a request: the cases of `begin_season`.
use scrob.Prelude.{
  ℕ, ◌+◌, ◌<◌, ◌≡◌, refl, sym, ap, ◌∙◌, true, not, ◌||◌, Option, none, some, List, ◌∷◌, arith, any,
  ◌==◌, nat_eq, pair_eq, contains, Bool-cases, ◌⊎◌, inl, inr,
}
use scrob.Prelude.Clock.{Time}
use scrob.Prelude.Dict.{get, put}
use scrob.EpisodeOrder.{EpisodeOrderMapping}
use scrob.EpisodeOrder.Season.{Request, Mappings, rows_of, has_value, is_recent, begin_season}

nothing : (old : List EpisodeOrderMapping) → Option.none ≡ some old → ⊥
nothing old h = cc

abbrev old_or :
    List EpisodeOrderMapping → Option (List EpisodeOrderMapping) → List EpisodeOrderMapping
old_or old none = old
old_or old (some o) = o

abbrev pub begun : ℕ → Time → Request → Mappings → Mappings
begun ttl now r s = record s {
  attempts = put r.tmdb_id (now + ttl) s.attempts;
  locks = r.tmdb_id ∷ s.locks;
}

pub begin-cases :
    (ttl : ℕ) (now : Time) (r : Request) (s : Mappings)
    → (begin_season ttl now r s ≡ (s, none))
      ⊎ (begin_season ttl now r s ≡ (begun ttl now r s, some (rows_of r.tmdb_id s.table)))
unfolding begin_season
begin-cases ttl now r s = elim (Bool-cases (not (has_value r.tvdb_id) || not r.has_keys)) [
  | inl t ↦ rw t (inl refl)
  | inr f ↦
      rw f
        (elim (Bool-cases
          (is_recent (get s.attempts r.tmdb_id) now || contains s.locks r.tmdb_id)) [
            | inl t ↦ rw t (inl refl)
            | inr g ↦
                rw g
                  (elim (Bool-cases (
                    any (λ m. m.tvdb_season_number == r.season_number)
                      (rows_of r.tmdb_id s.table))) [
                        | inl t ↦ rw t (inl refl)
                        | inr k ↦ rw k (inr refl)
                      ])
          ])
]

pub begin-works :
    (ttl : ℕ) (now : Time) (r : Request) (s : Mappings) (old : List EpisodeOrderMapping)
    → (begin_season ttl now r s).1 ≡ some old
    → (begin_season ttl now r s ≡ (begun ttl now r s, some old)) × (rows_of r.tmdb_id s.table ≡ old)
begin-works ttl now r s old h = elim (begin-cases ttl now r s) [
  | inl idle ↦ absurd (nothing old (sym (ap (λ p. p.1) idle) ∙ h))
  | inr work ↦
      let same = ap (old_or old) (sym (ap (λ p. p.1) work) ∙ h) in
      (work ∙ ap (λ o. (begun ttl now r s, some o)) same, same)
]

pub begin-recent :
    (ttl : ℕ) (now deadline : Time) (r : Request) (s : Mappings)
    → now < deadline
    → get s.attempts r.tmdb_id ≡ some deadline
    → begin_season ttl now r s ≡ (s, none)
unfolding begin_season
begin-recent ttl now deadline r s soon h =
    elim (Bool-cases (not (has_value r.tvdb_id) || not r.has_keys)) [
      | inl t ↦ rw t refl
      | inr f ↦ rw f (
          let e : (is_recent (get s.attempts r.tmdb_id) now || contains s.locks r.tmdb_id) ≡ true =
            rw h (ground arith) in
          rw e refl)
    ]

pub begin-locked :
    (ttl : ℕ) (now : Time) (r : Request) (s : Mappings)
    → contains s.locks r.tmdb_id ≡ true
    → begin_season ttl now r s ≡ (s, none)
unfolding begin_season
begin-locked ttl now r s h = elim (Bool-cases (not (has_value r.tvdb_id) || not r.has_keys)) [
  | inl t ↦ rw t refl
  | inr f ↦ rw f (
      let e : (is_recent (get s.attempts r.tmdb_id) now || contains s.locks r.tmdb_id) ≡ true =
        ground (arith, h) in
      rw e refl)
]
