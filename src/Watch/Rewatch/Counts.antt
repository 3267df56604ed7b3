-- ===== src/Watch/Rewatch/Counts.antt =====
-- Bounds of the aired episode counts of backend/core/rewatch.py.
use scrob.Prelude.{
  ℕ, String, ◌≡◌, refl, Bool, ◌&&◌, Option, none, some, List, [], ◌∷◌, arith, min, ltb,
  if◌then◌else◌, ◌==◌, nat_eq, any,
}
use scrob.Prelude.Dict.{Dict, get, put, get-put}
use scrob.Watch.{Season, AiredEpisode, Show}
use scrob.Watch.Rewatch.{
  Cap, cap_of, base_counts, apply_cap, is_unaired, is_still_active, drop_unaired, capped,
  has_no_cap, capped_season_episode_counts,
}

-- The count of a season, 0 where there is no entry.
abbrev pub count_of : Dict ℕ ℕ → ℕ → ℕ
count_of d sn = elim (get d sn) [ none ↦ 0 | some n ↦ n ]

-- What the cap leaves of a count.
abbrev pub under_cap : Option Cap → ℕ → ℕ → ℕ
under_cap none sn n = n
under_cap (some (cap_sn, cap_en)) sn n =
    if ltb cap_sn sn then 0 else if sn == cap_sn then min n cap_en else n

count-apply_cap :
    (c : Cap) (d : Dict ℕ ℕ) (sn : ℕ)
    → count_of (apply_cap c d) sn ≡ under_cap (some c) sn (count_of d sn)
unfolding apply_cap get
count-apply_cap (cap_sn, cap_en) [] sn = ground arith
count-apply_cap (cap_sn, cap_en) ((k, n) ∷ d) sn =
    ground (arith, count-apply_cap (cap_sn, cap_en) d sn)

-- Whether some season of this number is taken away by its own date.
abbrev pub is_dropped : Bool → String → List Season → ℕ → Bool
is_dropped unanchored today seasons sn =
    any (λ s. s.season_number == sn && is_unaired unanchored today s) seasons

count-drop_unaired :
    (u : Bool) (today : String) (seasons : List Season) (d : Dict ℕ ℕ) (sn : ℕ)
    → count_of (drop_unaired u today seasons d) sn
      ≡ (if is_dropped u today seasons sn then 0 else count_of d sn)
unfolding drop_unaired
count-drop_unaired u today [] d sn = refl
count-drop_unaired u today (s ∷ seasons) d sn = ground (
  arith,
  get-put s.season_number 0 d sn,
  count-drop_unaired u today seasons (if is_unaired u today s then put s.season_number 0 d else d)
      sn,
)

count-capped_by :
    (c : Option Cap) (d : Dict ℕ ℕ) (sn : ℕ)
    → count_of (capped c d) sn ≡ under_cap c sn (count_of d sn)
count-capped_by none d sn = refl
count-capped_by (some c) d sn = count-apply_cap c d sn

module _ (show : Show) (extra : Option (Option AiredEpisode × Option AiredEpisode)) (today : String)
    (sn : ℕ) where
  abbrev pub the_cap : Option Cap
  the_cap =
      cap_of today (elim extra [ none ↦ show.last_episode | some (l, n) ↦ l ])
        (elim extra [ none ↦ show.next_episode | some (l, n) ↦ n ])

  -- A season counts nothing if its own date takes it away, and else what the cap leaves of the
  -- count that TMDB gives: nothing after the capped season, at most the cap within it, all before.
  pub count-capped : count_of (capped_season_episode_counts show extra today) sn ≡ (
      if is_dropped (has_no_cap the_cap && is_still_active show.status) today show.seasons sn
      then 0
      else under_cap the_cap sn (count_of (base_counts show.seasons []) sn))
  unfolding capped_season_episode_counts
  count-capped = rw (
    count-drop_unaired (has_no_cap the_cap && is_still_active show.status) today show.seasons
        (capped the_cap (base_counts show.seasons [])) sn,
    count-capped_by the_cap (base_counts show.seasons []) sn,
  )
