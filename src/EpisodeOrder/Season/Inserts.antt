-- ===== src/EpisodeOrder/Season/Inserts.antt =====
-- Rows that the constraints of the table let in, and the table with them.
use mathlib.Core.Path.{subst}
use scrob.Prelude.{
  ℕ, ◌+◌, ◌≤◌, ◌≡◌, refl, sym, ap, false, some, List, [], ◌∷◌, arith, map, if◌then◌else◌, nat_eq,
  pair_eq, contains,
}
use scrob.Prelude.Sums.{sum}
use scrob.EpisodeOrder.{EpisodeOrderMapping}
use scrob.EpisodeOrder.Unique.{count_tvdb, count_position}
use scrob.EpisodeOrder.Season.{rows_of, tmdb_position, clashes, insert_all}

abbrev pub ids : List EpisodeOrderMapping → List ℕ
ids ms = map (λ m. m.tvdb_id) ms

abbrev pub positions : List EpisodeOrderMapping → List (ℕ × ℕ)
positions ms = map tmdb_position ms

-- Rows that can be inserted beside others.
pub record Free (ms old : List EpisodeOrderMapping) : Type 0 where
  pub by_id : (i : ℕ) → count_tvdb i ms ≤ (if contains (ids old) i then 0 else 1)
  pub by_position :
      (s e : ℕ) → count_position s e ms ≤ (if contains (positions old) (s, e) then 0 else 1)

no_clash :
    (m : EpisodeOrderMapping) (old : List EpisodeOrderMapping)
    → contains (ids old) m.tvdb_id ≡ false
    → contains (positions old) (tmdb_position m) ≡ false
    → clashes m old ≡ false
unfolding clashes contains
no_clash m [] h k = refl
no_clash m (r ∷ old) h k = ground (arith, no_clash m old)

first-Free :
    (m : EpisodeOrderMapping) (ms old : List EpisodeOrderMapping)
    → Free (m ∷ ms) old
    → clashes m old ≡ false
first-Free m ms old h =
    no_clash m old (ground (arith, h.by_id m.tvdb_id))
      (ground (arith, h.by_position m.tmdb_season_number m.tmdb_episode_number))

rest-Free :
    (m : EpisodeOrderMapping) (ms old : List EpisodeOrderMapping)
    → Free (m ∷ ms) old
    → Free ms (m ∷ old)
unfolding contains
rest-Free m ms old h = record {
  by_id = λ i. ground (arith, h.by_id i);
  by_position = λ s e. ground (arith, h.by_position s e);
}

-- Whatever is measured of the rows of the series.
abbrev pub Joined :
    ℕ
    → List EpisodeOrderMapping
    → List EpisodeOrderMapping
    → List (ℕ × EpisodeOrderMapping)
    → Type 0
Joined series ms old table =
    (f : EpisodeOrderMapping → ℕ) → sum f (rows_of series table) ≡ sum f ms + sum f old

pub insert_all-Free :
    (series : ℕ) (ms : List EpisodeOrderMapping) (table : List (ℕ × EpisodeOrderMapping))
    → Free ms (rows_of series table)
    → (table' : List (ℕ × EpisodeOrderMapping)) × (insert_all series ms table ≡ some table')
      × Joined series ms (rows_of series table) table'
unfolding insert_all
insert_all-Free series [] table h = (table, refl, λ f. omega arith)
insert_all-Free series (m ∷ ms) table h =
    let free = first-Free m ms (rows_of series table) h in
    let more : rows_of series ((series, m) ∷ table) ≡ m ∷ rows_of series table =
      unfold rows_of in ground arith in
    let (table', done, joined) =
      insert_all-Free series ms ((series, m) ∷ table)
        (subst (Free ms) (sym more) (rest-Free m ms (rows_of series table) h)) in
    (table', rw (free, insert_all) done, λ f. omega (arith, joined f, ap (sum f) more))
