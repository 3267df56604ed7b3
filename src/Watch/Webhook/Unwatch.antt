-- ===== src/Watch/Webhook/Unwatch.antt =====
-- "Mark unwatched" from a server: `_handle_unwatch_toggle`.
use scrob.Prelude.{
  ℕ, ◌≡◌, refl, Bool, false, not, none, some, List, [], ◌∷◌, arith, filter, any, nat_eq,
  Option-cases, inl, inr, ◌∙◌, ◌⊎◌, ◌<◌, ◌+◌, ◌&&◌, ◌==◌, true, length, length-filter-le,
  Bool-cases,
}
use scrob.Watch.{Media, WatchEvent, RewatchProgress, ShowRewatch, Db}
use scrob.Watch.Rewatch.{get_active_rewatch}
use scrob.Watch.Webhook.{
  cycle_of, is_play_of, is_step_of, without_step, delete_events, handle_unwatch_toggle,
}

any-filter-not {ℓ} :
    {A : Type ℓ} (f : A → Bool) (xs : List A) → any f (filter (λ x. not (f x)) xs) ≡ false
any-filter-not f [] = refl
any-filter-not f (x ∷ xs) = ground (arith, any-filter-not f xs)

filter_none {ℓ} :
    {A : Type ℓ} (f : A → Bool) (xs : List A) → any f xs ≡ false → filter (λ x. not (f x)) xs ≡ xs
filter_none f [] h = refl
filter_none f (x ∷ xs) h = ground (arith, filter_none f xs)

any-and {ℓ} :
    {A : Type ℓ} (f g : A → Bool) (xs : List A)
    → any f xs ≡ false
    → any (λ x. f x && g x) xs ≡ false
any-and f g [] h = refl
any-and f g (x ∷ xs) h = ground (arith, any-and f g xs)

toggle-none :
    (u : ℕ) (m : Media) (db : Db)
    → cycle_of db u m ≡ none
    → handle_unwatch_toggle u m db
      ≡ (delete_events (is_play_of u m) db, any (is_play_of u m) db.events)
unfolding handle_unwatch_toggle
toggle-none u m db e = rw (e, handle_unwatch_toggle) refl

toggle-some :
    (u : ℕ) (m : Media) (db : Db) (r : ShowRewatch)
    → cycle_of db u m ≡ some r
    → handle_unwatch_toggle u m db ≡ (without_step r m db, any (is_step_of r m) db.rewatch_progress)
unfolding handle_unwatch_toggle
toggle-some u m db r e = rw (e, handle_unwatch_toggle) refl

-- Neither branch touches the cycles.
cycle-delete :
    (u : ℕ) (m : Media) (db : Db)
    → cycle_of (delete_events (is_play_of u m) db) u m ≡ cycle_of db u m
unfolding get_active_rewatch
cycle-delete u m db = refl

cycle-step :
    (u : ℕ) (m : Media) (db : Db) (r : ShowRewatch)
    → cycle_of (without_step r m db) u m ≡ cycle_of db u m
unfolding get_active_rewatch
cycle-step u m db r = refl

-- How many rows say "watched", and in which tables.
abbrev pub said : Db → ℕ
said db = length db.events + length db.rewatch_progress

-- The answer of a change of the history: yes with fewer rows, or no with the same ones.
abbrev pub Answers : Db → Db × Bool → Type 0
Answers db (db', changed) =
    ((changed ≡ true) × (said db' < said db))
    ⊎ ((changed ≡ false) × (db'.events ≡ db.events) × (db'.rewatch_progress ≡ db.rewatch_progress))

filter_fewer {ℓ} :
    {A : Type ℓ} (f : A → Bool) (xs : List A)
    → any f xs ≡ true
    → length (filter (λ x. not (f x)) xs) < length xs
filter_fewer f [] h = absurd (ground arith)
filter_fewer f (x ∷ xs) h = elim (Bool-cases (f x)) [
  | inl t ↦ rw t (omega (arith, length-filter-le (λ y. not (f y)) xs))
  | inr n ↦ rw n (omega (arith, filter_fewer f xs (ground arith)))
]

filter-absent :
    (f : WatchEvent → Bool) (events : List WatchEvent) (ps : List RewatchProgress)
    → any f events ≡ false
    → filter (λ p. not (any (λ e. f e && e.id == p.watch_event_id) events)) ps ≡ ps
filter-absent f events [] h = refl
filter-absent f events (p ∷ ps) h =
    ground (arith, any-and f (λ e. e.id == p.watch_event_id) events h, filter-absent f events ps h)

toggle-Answers :
    (user_id : ℕ) (m : Media) (db : Db) → Answers db (handle_unwatch_toggle user_id m db)
toggle-Answers user_id m db = elim (Option-cases (cycle_of db user_id m)) [
  | inl e ↦
      rw (toggle-none user_id m db e) (elim (Bool-cases (any (is_play_of user_id m) db.events)) [
        | inl t ↦ inl (
          t,
          omega (
            arith,
            filter_fewer (is_play_of user_id m) db.events t,
            length-filter-le
                (λ p. not (any (λ e. is_play_of user_id m e && e.id == p.watch_event_id) db.events))
                db.rewatch_progress,
          ),
        )
        | inr f ↦ inr (
          f,
          filter_none (is_play_of user_id m) db.events f,
          filter-absent (is_play_of user_id m) db.events db.rewatch_progress f,
        )
      ])
  | inr (r, e) ↦
      rw (toggle-some user_id m db r e)
        (elim (Bool-cases (any (is_step_of r m) db.rewatch_progress)) [
          | inl t ↦ inl (t, omega (arith, filter_fewer (is_step_of r m) db.rewatch_progress t))
          | inr f ↦ inr (f, refl, filter_none (is_step_of r m) db.rewatch_progress f)
        ])
]

toggle_again :
    (user_id : ℕ) (m : Media) (db : Db)
    → ((handle_unwatch_toggle user_id m (handle_unwatch_toggle user_id m db).0).1 ≡ false)
      × ((handle_unwatch_toggle user_id m (handle_unwatch_toggle user_id m db).0).0.events
          ≡ (handle_unwatch_toggle user_id m db).0.events)
      × ((handle_unwatch_toggle user_id m db).0.events ≡ elim (cycle_of db user_id m) [
        | none ↦ filter (λ e. not (is_play_of user_id m e)) db.events
        | some r ↦ db.events
      ])
toggle_again user_id m db = elim (Option-cases (cycle_of db user_id m)) [
  | inl e ↦
      rw
        (
          toggle-none user_id m db e,
          toggle-none user_id m (delete_events (is_play_of user_id m) db)
              (cycle-delete user_id m db ∙ e),
          e,
        )
        (
          any-filter-not _ db.events,
          filter_none _ _ (any-filter-not (is_play_of user_id m) db.events),
          refl,
        )
  | inr (r, e) ↦
      rw
        (
          toggle-some user_id m db r e,
          toggle-some user_id m (without_step r m db) r (cycle-step user_id m db r ∙ e),
          e,
        )
        (any-filter-not _ db.rewatch_progress, refl, refl)
]

-- The toggle answers whether it changed anything that says "watched": yes with fewer rows of the
-- history and of the rewatches, or no with both as they were. A second one after it, as two
-- servers that mirror each other send, answers no and leaves the history as it is. The history
-- loses the user's plays of the media, and none at all while a rewatch of its show is on.
pub unwatch_twice :
    (user_id : ℕ) (m : Media) (db : Db)
    → Answers db (handle_unwatch_toggle user_id m db)
      × ((handle_unwatch_toggle user_id m (handle_unwatch_toggle user_id m db).0).1 ≡ false)
      × ((handle_unwatch_toggle user_id m (handle_unwatch_toggle user_id m db).0).0.events
          ≡ (handle_unwatch_toggle user_id m db).0.events)
      × ((handle_unwatch_toggle user_id m db).0.events ≡ elim (cycle_of db user_id m) [
        | none ↦ filter (λ e. not (is_play_of user_id m e)) db.events
        | some r ↦ db.events
      ])
unwatch_twice user_id m db =
    let (again, same, left) = toggle_again user_id m db in
    (toggle-Answers user_id m db, again, same, left)
