-- ===== src/Watch/Dedup/Search.antt =====
-- What `find_duplicate_watch_event` finds, and the least window.
use scrob.Prelude.{
  ℕ, ◌≤◌, ◌≡◌, ◌≢◌, refl, Bool, true, false, Option, none, some, List, [], ◌∷◌, arith, filter, ◌==◌,
  nat_eq, All, Bool-cases, inl, inr, ltb, ltb→lt, All-map, ◌⊎◌,
}
use scrob.Prelude.Clock.{Time}
use scrob.Watch.{WatchEvent, Db}
use scrob.Watch.Dedup.{
  default_dedup_window_minutes, dedup_window_from_settings, get_dedup_window_minutes, or_now,
  is_duplicate_of, first_by_id, find_duplicate_watch_event, earlier,
}

-- Both functions agree on a user's row, and a setting only ever widens the window.
pub dedup_window-floor :
    (settings : List (ℕ × Option ℕ)) (user_id : ℕ) (configured : Option ℕ)
    → (get_dedup_window_minutes ((user_id, configured) ∷ settings) user_id
        ≡ dedup_window_from_settings (some configured))
      × (default_dedup_window_minutes ≤ get_dedup_window_minutes settings user_id)
unfolding get_dedup_window_minutes dedup_window_from_settings
dedup_window-floor [] u c = ground arith
dedup_window-floor (s ∷ settings) u c = ground (arith, dedup_window-floor settings u c)

abbrev pub Occurs : WatchEvent → List WatchEvent → Type 0
Occurs e [] = ⊥
Occurs e (x ∷ es) = (x ≡ e) ⊎ Occurs e es

-- The answer of a search among the rows for the least id that passes the test.
abbrev pub Finds : (WatchEvent → Bool) → List WatchEvent → Option WatchEvent → Type 0
Finds p es none = All (λ f. p f ≡ false) es
Finds p es (some e) = (p e ≡ true) × Occurs e es × All (λ f. p f ≡ true → e.id ≤ f.id) es

Finds-skip :
    (p : WatchEvent → Bool) (x : WatchEvent) (es : List WatchEvent) (r : Option WatchEvent)
    → p x ≡ false
    → Finds p es r
    → Finds p (x ∷ es) r
Finds-skip p x es none h k = (h, k)
Finds-skip p x es (some e) h (a, b, c) = (a, inr b, (λ t. absurd (cc (t, h)), c))

All-vacuous :
    (p : WatchEvent → Bool) (x : WatchEvent) (es : List WatchEvent)
    → All (λ f. p f ≡ false) es
    → All (λ f. p f ≡ true → x.id ≤ f.id) es
All-vacuous p x [] h = tt
All-vacuous p x (f ∷ es) (h, hs) = (λ t. absurd (cc (t, h)), All-vacuous p x es hs)

Finds-take :
    (p : WatchEvent → Bool) (x : WatchEvent) (es : List WatchEvent) (r : Option WatchEvent)
    → p x ≡ true
    → Finds p es r
    → Finds p (x ∷ es) (earlier x r)
Finds-take p x es none h k = (h, inl refl, (λ t. omega arith, All-vacuous p x es k))
Finds-take p x es (some e) h (a, b, c) = elim (Bool-cases (ltb e.id x.id)) [
  | inl less ↦ rw less (a, inr b, (λ t. omega (arith, ltb→lt _ _ less), c))
  | inr more ↦
      rw more (h, inl refl, (λ t. omega arith, All-map es (λ f k t. let q = k t in ground arith) c))
]

first_by_id-Finds :
    (p : WatchEvent → Bool) (es : List WatchEvent) → Finds p es (first_by_id (filter p es))
unfolding first_by_id
first_by_id-Finds p [] = tt
first_by_id-Finds p (x ∷ es) = elim (Bool-cases (p x)) [
  | inl t ↦ rw t (Finds-take p x es (first_by_id (filter p es)) t (first_by_id-Finds p es))
  | inr f ↦ rw f (Finds-skip p x es (first_by_id (filter p es)) f (first_by_id-Finds p es))
]

-- With a window, the search answers `none` exactly if no row is a completed play by the user of
-- the same media or episode, within the window and not excluded; else the one of least id.
pub find_duplicate-Finds :
    (now : Time) (db : Db) (user_id media_id : ℕ) (candidate : Option Time) (window : ℕ)
    (exclude : Option ℕ)
    → window ≢ 0
    → Finds
        (is_duplicate_of db.media user_id media_id (or_now candidate now) window exclude)
        db.events
        (find_duplicate_watch_event now db user_id media_id candidate window exclude)
unfolding find_duplicate_watch_event
find_duplicate-Finds now db user_id media_id candidate window exclude h =
    elim (Bool-cases (window == 0)) [
      | inl off ↦ absurd (h ((nat_eq.same_iff window 0).0 off))
      | inr on ↦ rw on (first_by_id-Finds _ db.events)
    ]
