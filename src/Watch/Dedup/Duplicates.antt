-- ===== src/Watch/Dedup/Duplicates.antt =====
-- What `find_duplicate_watch_event` of backend/core/watch_dedup.py finds.
use scrob.Prelude.{
  ℕ, ◌≤◌, ◌≡◌, ◌≢◌, Bool, true, false, Option, none, some, List, nat_eq, All, All-map,
}
use scrob.Prelude.Clock.{Time}
use scrob.Watch.{WatchEvent, Db}
use scrob.Watch.Dedup.{is_duplicate_of, or_now, find_duplicate_watch_event}
use scrob.Watch.Dedup.Search.{Occurs, Finds, find_duplicate-Finds}
use scrob.Watch.Dedup.Repetition.{IsRepetition, test-IsRepetition, IsRepetition-test}

-- The answer of a search among the rows for the least id of which a predicate holds.
abbrev pub FindsLeast : (WatchEvent → Type 0) → List WatchEvent → Option WatchEvent → Type 0
FindsLeast P es none = All (λ f. P f → ⊥) es
FindsLeast P es (some e) = P e × Occurs e es × All (λ f. P f → e.id ≤ f.id) es

false-true : (b : Bool) → b ≡ false → b ≡ true → ⊥
false-true b h k = cc

least :
    (p : WatchEvent → Bool) (P : WatchEvent → Type 0) (es : List WatchEvent) (r : Option WatchEvent)
    → ((e : WatchEvent) → p e ≡ true → P e)
    → ((e : WatchEvent) → P e → p e ≡ true)
    → Finds p es r
    → FindsLeast P es r
least p P es none sound complete h = All-map es (λ f e d. false-true (p f) e (complete f d)) h
least p P es (some e) sound complete (holds, there, smallest) =
    (sound e holds, there, All-map es (λ f k d. k (complete f d)) smallest)

-- With a window, the search answers `none` exactly if no row is a completed play by the user of
-- the media, or of another row of its episode, at most the window away and not excluded; else it
-- answers one that is, and of these the one of least id.
pub find_duplicate-least :
    (now : Time) (db : Db) (user_id media_id : ℕ) (candidate : Option Time) (window : ℕ)
    (exclude : Option ℕ)
    → window ≢ 0
    → FindsLeast
        (IsRepetition db.media user_id media_id (or_now candidate now) window exclude)
        db.events
        (find_duplicate_watch_event now db user_id media_id candidate window exclude)
find_duplicate-least now db user_id media_id candidate window exclude h =
    let at = or_now candidate now in
    least (is_duplicate_of db.media user_id media_id at window exclude)
      (IsRepetition db.media user_id media_id at window exclude) db.events
      (find_duplicate_watch_event now db user_id media_id candidate window exclude)
      (test-IsRepetition db.media user_id media_id at window exclude)
      (IsRepetition-test db.media user_id media_id at window exclude)
      (find_duplicate-Finds now db user_id media_id candidate window exclude h)
