-- ===== src/Watch/Webhook/Progress.antt =====
-- Continue Watching: `_update_playback_progress`.
use scrob.Prelude.{
  ℕ, ◌≤◌, ◌≡◌, refl, true, false, not, ◌&&◌, ◌||◌, List, [], ◌∷◌, ◌++◌, map, arith, filter, any,
  length, ltb, leb, if◌then◌else◌, ◌==◌, nat_eq, Bool-cases, inl, inr,
}
use scrob.Prelude.Clock.{Time}
use scrob.Watch.{PlaybackProgress, Db}
use scrob.Watch.Webhook.{is_progress_of, new_progress, update_playback_progress}

abbrev pub entries_of : ℕ → ℕ → List PlaybackProgress → List PlaybackProgress
entries_of u m rows = filter (is_progress_of u m) rows

module _ (now : Time) (u m percent secs : ℕ) where
  abbrev fresh : PlaybackProgress
  fresh = new_progress now u m percent secs

  abbrev renew : PlaybackProgress → PlaybackProgress
  renew p = if is_progress_of u m p then fresh else p

  deleted :
      (rows : List PlaybackProgress)
      → entries_of u m (filter (λ p. not (is_progress_of u m p)) rows) ≡ []
  deleted [] = refl
  deleted (p ∷ rows) = ground (arith, deleted rows)

  absent :
      (rows : List PlaybackProgress)
      → any (is_progress_of u m) rows ≡ false
      → entries_of u m rows ≡ []
  absent [] h = refl
  absent (p ∷ rows) h = ground (arith, absent rows)

  unmoved :
      (rows : List PlaybackProgress)
      → entries_of u m rows ≡ []
      → entries_of u m (map renew rows) ≡ []
  unmoved [] h = refl
  unmoved (p ∷ rows) h = ground (arith, unmoved rows)

  appended :
      (rows : List PlaybackProgress)
      → entries_of u m rows ≡ []
      → entries_of u m (rows ++ fresh ∷ []) ≡ fresh ∷ []
  appended [] h = ground arith
  appended (p ∷ rows) h = ground (arith, appended rows)

  no_rows : (rows : List PlaybackProgress) → length rows ≤ 0 → rows ≡ []
  no_rows [] h = refl
  no_rows (p ∷ rows) h = ground arith

  renewed :
      (rows : List PlaybackProgress)
      → any (is_progress_of u m) rows ≡ true
      → length (entries_of u m rows) ≤ 1
      → entries_of u m (map renew rows) ≡ fresh ∷ []
  renewed [] h k = ground arith
  renewed (p ∷ rows) h k = elim (Bool-cases (is_progress_of u m p)) [
    | inl t ↦ ground (arith, unmoved rows, no_rows (entries_of u m rows))
    | inr f ↦ ground (arith, renewed rows)
  ]

  module _ (u' m' : ℕ) (apart : (u' == u && m' == m) ≡ false) where
    deleted-others :
        (rows : List PlaybackProgress)
        → entries_of u' m' (filter (λ p. not (is_progress_of u m p)) rows) ≡ entries_of u' m' rows
    deleted-others [] = refl
    deleted-others (p ∷ rows) = ground (arith, deleted-others rows)

    renewed-others :
        (rows : List PlaybackProgress) → entries_of u' m' (map renew rows) ≡ entries_of u' m' rows
    renewed-others [] = refl
    renewed-others (p ∷ rows) = ground (arith, renewed-others rows)

    appended-others :
        (rows : List PlaybackProgress)
        → entries_of u' m' (rows ++ fresh ∷ []) ≡ entries_of u' m' rows
    appended-others [] = ground arith
    appended-others (p ∷ rows) = ground (arith, appended-others rows)

own :
    (now : Time) (u m percent secs : ℕ) (db : Db)
    → length (entries_of u m db.progress) ≤ 1
    → entries_of u m (update_playback_progress now u m percent secs db).progress ≡ (
        if ltb percent 50000 || leb 900000 percent
        then []
        else new_progress now u m percent secs ∷ [])
unfolding update_playback_progress
own now u m percent secs db one = elim (Bool-cases (ltb percent 50000 || leb 900000 percent)) [
  | inl t ↦ rw t (deleted now u m percent secs db.progress)
  | inr f ↦ rw f (elim (Bool-cases (any (is_progress_of u m) db.progress)) [
    | inl g ↦ rw g (renewed now u m percent secs db.progress g one)
    | inr g ↦
        rw g (appended now u m percent secs db.progress (absent now u m percent secs db.progress g))
  ])
]

others :
    (now : Time) (u m percent secs : ℕ) (db : Db) (u' m' : ℕ)
    → (u' == u && m' == m) ≡ false
    → entries_of u' m' (update_playback_progress now u m percent secs db).progress
      ≡ entries_of u' m' db.progress
unfolding update_playback_progress
others now u m percent secs db u' m' a =
    elim (Bool-cases (ltb percent 50000 || leb 900000 percent)) [
      | inl t ↦ rw t (deleted-others now u m percent secs u' m' a db.progress)
      | inr f ↦ rw f (elim (Bool-cases (any (is_progress_of u m) db.progress)) [
        | inl g ↦ rw g (renewed-others now u m percent secs u' m' a db.progress)
        | inr g ↦ rw g (appended-others now u m percent secs u' m' a db.progress)
      ])
    ]

same_pair : (u m u' m' : ℕ) → (u' == u && m' == m) ≡ true → (u' ≡ u) × (m' ≡ m)
same_pair u m u' m' h = (ground arith, ground arith)

-- Of a user and a media with at most one row, there is afterwards one row with the progress told,
-- or none where that is below 5 % or from 90 % on. The rows of any other pair stay as they are.
pub progress_exact :
    (now : Time) (u m percent secs : ℕ) (db : Db) (u' m' : ℕ)
    → length (entries_of u m db.progress) ≤ 1
    → entries_of u' m' (update_playback_progress now u m percent secs db).progress ≡ (
        if u' == u && m' == m
        then (if ltb percent 50000 || leb 900000 percent
            then []
            else new_progress now u m percent secs ∷ [])
        else entries_of u' m' db.progress)
progress_exact now u m percent secs db u' m' one = elim (Bool-cases (u' == u && m' == m)) [
  | inl t ↦ let (p, q) = same_pair u m u' m' t in rw (t, p, q) (own now u m percent secs db one)
  | inr f ↦ rw f (others now u m percent secs db u' m' f)
]
