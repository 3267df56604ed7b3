-- ===== src/Watch/Rewatch/Aired.antt =====
-- Which episodes are counted as aired, said without the counts: backend/core/rewatch.py.
use scrob.Prelude.{
  ℕ, ◌≤◌, String, ◌≡◌, refl, ap, ◌∙◌, Bool, true, false, not, ◌&&◌, ◌||◌, Option, none, some, List,
  [], ◌∷◌, arith, ltb, leb, any, if◌then◌else◌, ◌==◌, nat_eq,
}
use scrob.Prelude.Dict.{Dict, get, put, get-put}
use scrob.Watch.{Season, AiredEpisode, Show}
use scrob.Watch.Rewatch.{
  Cap, str_leb, min_cap, last_cap, next_cap, cap_of, base_counts, is_still_active, is_unaired,
  has_no_cap, capped_season_episode_counts,
}
use scrob.Watch.Rewatch.Counts.{count_of, under_cap, is_dropped, count-capped}

-- Up to the last episode: itself only if its date has passed or is not known.
abbrev pub is_up_to : String → AiredEpisode → ℕ → ℕ → Bool
is_up_to today l sn en =
    ltb sn l.season_number
    || (sn == l.season_number && elim l.air_date [
      | none ↦ leb en l.episode_number
      | some d ↦ if str_leb d today then leb en l.episode_number else ltb en l.episode_number
    ])

abbrev pub is_before : AiredEpisode → ℕ → ℕ → Bool
is_before n sn en = ltb sn n.season_number || (sn == n.season_number && ltb en n.episode_number)

-- Neither after the last episode nor at or after the next, as far as they are known.
abbrev pub is_reached : String → Option AiredEpisode → Option AiredEpisode → ℕ → ℕ → Bool
is_reached today none none sn en = true
is_reached today (some l) none sn en = is_up_to today l sn en
is_reached today none (some n) sn en = is_before n sn en
is_reached today (some l) (some n) sn en = is_up_to today l sn en && is_before n sn en

-- The last entry of a season's number counts.
abbrev pub listed : List Season → ℕ → Option ℕ
listed [] sn = none
listed (s ∷ seasons) sn = elim (listed seasons sn) [
  | some n ↦ some n
  | none ↦ if s.season_number == sn then some s.episode_count else none
]

abbrev pub is_listed : Option ℕ → ℕ → Bool
is_listed none en = false
is_listed (some n) en = leb en n

-- An entry of the season has a date to come, or none while the show goes on and neither its last
-- nor its next episode is known.
abbrev pub is_late : Bool → String → List Season → ℕ → Bool
is_late unknown today seasons sn =
    any
      (λ s.
        s.season_number == sn
        && elim s.air_date [ none ↦ unknown | some d ↦ not (str_leb d today) ])
      seasons

abbrev pub no_episode : Option AiredEpisode → Option AiredEpisode → Bool
no_episode none none = true
no_episode _ _ = false

under-min :
    (a b : Cap) (sn n en : ℕ)
    → 1 ≤ en
    → leb en (under_cap (some (min_cap a b)) sn n)
      ≡ (leb en (under_cap (some a) sn n) && leb en (under_cap (some b) sn n))
unfolding min_cap
under-min (s, e) (t, f) sn n en h = ground arith

under-last :
    (today : String) (l : AiredEpisode) (sn n en : ℕ)
    → 1 ≤ en
    → leb en (under_cap (some (last_cap today l)) sn n) ≡ (leb en n && is_up_to today l sn en)
unfolding last_cap
under-last today l sn n en h = ground arith

under-next :
    (e : AiredEpisode) (sn n en : ℕ)
    → 1 ≤ en
    → leb en (under_cap (some (next_cap e)) sn n) ≡ (leb en n && is_before e sn en)
under-next e sn n en h = ground arith

under_cap-reached :
    (today : String) (last next : Option AiredEpisode) (sn n en : ℕ)
    → 1 ≤ en
    → leb en (under_cap (cap_of today last next) sn n)
      ≡ (leb en n && is_reached today last next sn en)
unfolding cap_of
under_cap-reached today none none sn n en h = ground arith
under_cap-reached today (some l) none sn n en h = under-last today l sn n en h
under_cap-reached today none (some e) sn n en h = under-next e sn n en h
under_cap-reached today (some l) (some e) sn n en h =
    rw
      (
        under-min (last_cap today l) (next_cap e) sn n en h,
        under-last today l sn n en h,
        under-next e sn n en h,
      )
      (ground arith)

abbrev or_else : Option ℕ → Option ℕ → Option ℕ
or_else none o = o
or_else (some n) o = some n

get-base_counts :
    (seasons : List Season) (d : Dict ℕ ℕ) (sn : ℕ)
    → get (base_counts seasons d) sn ≡ or_else (listed seasons sn) (get d sn)
unfolding base_counts
get-base_counts [] d sn = refl
get-base_counts (s ∷ seasons) d sn = ground (
  arith,
  get-base_counts seasons (put s.season_number s.episode_count d) sn,
  get-put s.season_number s.episode_count d sn,
)

is_late-dropped :
    (u : Bool) (today : String) (seasons : List Season) (sn : ℕ)
    → is_dropped u today seasons sn ≡ is_late u today seasons sn
unfolding is_unaired
is_late-dropped u today [] sn = refl
is_late-dropped u today (s ∷ seasons) sn = ground (arith, is_late-dropped u today seasons sn)

no_cap :
    (today : String) (last next : Option AiredEpisode)
    → has_no_cap (cap_of today last next) ≡ no_episode last next
unfolding cap_of
no_cap today none none = refl
no_cap today (some l) none = refl
no_cap today none (some n) = refl
no_cap today (some l) (some n) = refl

counted_if :
    (late reached : Bool) (listing : Option ℕ) (n en : ℕ)
    → 1 ≤ en
    → leb en n ≡ (is_listed listing en && reached)
    → leb en (if late then 0 else n) ≡ (is_listed listing en && not late && reached)
counted_if true reached none n en h e = ground arith
counted_if true reached (some k) n en h e = ground arith
counted_if false reached none n en h e = e
counted_if false reached (some k) n en h e = ground arith

leb-count :
    (o : Option ℕ) (en : ℕ) → 1 ≤ en → leb en (elim o [ none ↦ 0 | some n ↦ n ]) ≡ is_listed o en
leb-count none en h = ground arith
leb-count (some n) en h = refl

or_else-none : (o : Option ℕ) → or_else o none ≡ o
or_else-none none = refl
or_else-none (some n) = refl

base-listed :
    (seasons : List Season) (sn en : ℕ)
    → 1 ≤ en
    → leb en (count_of (base_counts seasons []) sn) ≡ is_listed (listed seasons sn) en
unfolding get
base-listed seasons sn en h =
    ap (λ o. leb en (elim o [ none ↦ 0 | some n ↦ n ]))
      (get-base_counts seasons [] sn ∙ or_else-none (listed seasons sn))
    ∙ leb-count (listed seasons sn) en h

module _ (show : Show) (extra : Option (Option AiredEpisode × Option AiredEpisode)) where
  abbrev pub last_of : Option AiredEpisode
  last_of = elim extra [ none ↦ show.last_episode | some (l, n) ↦ l ]

  abbrev pub next_of : Option AiredEpisode
  next_of = elim extra [ none ↦ show.next_episode | some (l, n) ↦ n ]

-- The episode numbers of a season that its count takes in, from 1 on: those within the number
-- that TMDB lists for it, if the season itself is not late, up to the last episode (itself only if
-- its date has passed or is not known) and before the next one, as far as these are known.
pub counts-aired :
    (show : Show) (extra : Option (Option AiredEpisode × Option AiredEpisode)) (today : String)
    (sn en : ℕ)
    → 1 ≤ en
    → leb en (count_of (capped_season_episode_counts show extra today) sn) ≡ (
        is_listed (listed show.seasons sn) en
        && not (
            is_late
              (no_episode (last_of show extra) (next_of show extra) && is_still_active show.status)
              today
              show.seasons
              sn)
        && is_reached today (last_of show extra) (next_of show extra) sn en)
counts-aired show extra today sn en h =
    let last = last_of show extra in
    let next = next_of show extra in
    let unknown = has_no_cap (cap_of today last next) && is_still_active show.status in
    let n = count_of (base_counts show.seasons []) sn in
    let late : is_dropped unknown today show.seasons sn
        ≡ is_late (no_episode last next && is_still_active show.status) today show.seasons sn =
      is_late-dropped unknown today show.seasons sn
      ∙ ap (λ b. is_late (b && is_still_active show.status) today show.seasons sn)
          (no_cap today last next) in
    let each : leb en (under_cap (cap_of today last next) sn n)
        ≡ (is_listed (listed show.seasons sn) en && is_reached today last next sn en) =
      under_cap-reached today last next sn n en h
      ∙ ap (λ b. b && is_reached today last next sn en) (base-listed show.seasons sn en h) in
    ap (leb en) (count-capped show extra today sn)
    ∙ ap (λ b. leb en (if b then 0 else under_cap (cap_of today last next) sn n)) late
    ∙ counted_if
        (is_late (no_episode last next && is_still_active show.status) today show.seasons sn)
        (is_reached today last next sn en) (listed show.seasons sn)
        (under_cap (cap_of today last next) sn n) en h each
