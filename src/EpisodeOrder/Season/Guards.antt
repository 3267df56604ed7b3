-- ===== src/EpisodeOrder/Season/Guards.antt =====
-- How the guards of a show outlast what other requests do.
use mathlib.Core.Path.{subst}
use scrob.Prelude.{
  ℕ, ◌+◌, ◌<◌, ◌≡◌, ap, ◌∙◌, true, not, Option, some, List, [], ◌∷◌, arith, filter, ◌==◌, nat_eq,
  pair_eq, contains, Bool-cases, false, inl, inr,
}
use scrob.Prelude.Clock.{Time}
use scrob.Prelude.Dict.{get, put, get-put}
use scrob.EpisodeOrder.{TmdbEpisode, TvdbEpisode, EpisodeOrderMapping}
use scrob.EpisodeOrder.Season.{Request, Mappings, begin_season}
use scrob.EpisodeOrder.Season.Begin.{begin-cases, begin-recent}

-- What requests do, one after another: the first part of one, or the part after its wait.
pub data Part : Type 0 where
  begins : Time → Request → Part
  finishes :
      Request → List EpisodeOrderMapping → Option (List TmdbEpisode × List TvdbEpisode) → Part

abbrev pub IsBefore : Time → Part → Type 0
IsBefore t (begins now r) = now < t
IsBefore t (finishes r old fetched) = Unit

-- The part after the wait is of another show.
abbrev pub IsElsewhere : ℕ → Part → Type 0
IsElsewhere series (begins now r) = Unit
IsElsewhere series (finishes r old fetched) = (r.tmdb_id == series) ≡ false

pub dated_at :
    (series : ℕ) (at : Time) (s : Mappings) → get (put series at s.attempts) series ≡ some at
dated_at series at s = ground (arith, get-put series at s.attempts series)

-- The first part moves the date of a show only where it may ask, and takes no lock away.
pub begin-dated :
    (ttl : ℕ) (now deadline : Time) (series : ℕ) (r : Request) (s : Mappings)
    → now < deadline
    → get s.attempts series ≡ some deadline
    → get (begin_season ttl now r s).0.attempts series ≡ some deadline
begin-dated ttl now deadline series r s soon h = elim (Bool-cases (r.tmdb_id == series)) [
  | inl t ↦
      let e : series ≡ r.tmdb_id = ground arith in
      let idle =
        begin-recent ttl now deadline r s soon
          (subst (λ i. get s.attempts i ≡ some deadline) e h) in
      ap (λ p. get p.0.attempts series) idle ∙ h
  | inr f ↦ elim (begin-cases ttl now r s) [
    | inl idle ↦ ap (λ p. get p.0.attempts series) idle ∙ h
    | inr work ↦
        ap (λ p. get p.0.attempts series) work
        ∙ ground (arith, get-put r.tmdb_id (now + ttl) s.attempts series, h)
  ]
]

pub begin-keeps_lock :
    (ttl : ℕ) (now : Time) (series : ℕ) (r : Request) (s : Mappings)
    → contains s.locks series ≡ true
    → contains (begin_season ttl now r s).0.locks series ≡ true
begin-keeps_lock ttl now series r s h = elim (begin-cases ttl now r s) [
  | inl idle ↦ ap (λ p. contains p.0.locks series) idle ∙ h
  | inr work ↦ ap (λ p. contains p.0.locks series) work ∙ unfold contains in ground (arith, h)
]

pub release-keeps :
    (other series : ℕ) (locks : List ℕ)
    → (other == series) ≡ false
    → contains locks series ≡ true
    → contains (filter (λ l. not (l == other)) locks) series ≡ true
unfolding contains
release-keeps other series [] f h = absurd (ground arith)
release-keeps other series (l ∷ locks) f h = ground (arith, release-keeps other series locks f)
