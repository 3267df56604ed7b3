-- ===== src/Heal/Leftover.antt =====
-- Rows that are left when others are deleted by their ids.
use scrob.Prelude.{
  ℕ, ◌+◌, ◌≤◌, ◌≡◌, refl, Bool, true, false, not, ◌&&◌, List, [], ◌∷◌, arith, filter, any, ◌==◌,
  nat_eq, contains, All, Bool-cases, inl, inr,
}
use scrob.Watch.{Media, WatchEvent}
use scrob.Heal.{Identity, identity_of, identity_eq}
use scrob.Heal.Clusters.{count_id, count}

abbrev pub UniqueIds : List WatchEvent → Type 0
UniqueIds events = (i : ℕ) → count_id i events ≤ 1

-- Whether the user has a completed play of what `k` names.
abbrev pub has_watched : List Media → ℕ → Identity → List WatchEvent → Bool
has_watched media user_id k events =
    any (λ e. e.user_id == user_id && (identity_of media e.media_id == k && e.completed)) events

contains-count : (i : ℕ) (ids : List ℕ) → contains ids i ≡ true → 1 ≤ count i ids
unfolding contains
contains-count i [] h = ground arith
contains-count i (j ∷ ids) h = ground (arith, contains-count i ids)

-- Of rows whose ids are not given up as often as they occur, one that passes a test is left.
given_and_kept :
    (i : ℕ) (ids : List ℕ) (e : WatchEvent) (events : List WatchEvent)
    → contains ids i ≡ true
    → i ≡ e.id
    → count i ids + count_id i (e ∷ events) ≤ 1
    → false ≡ true
given_and_kept i ids e events given same h = ground (arith, contains-count i ids given)

shorter :
    (i : ℕ) (ids : List ℕ) (e : WatchEvent) (events : List WatchEvent)
    → count i ids + count_id i (e ∷ events) ≤ 1
    → count i ids + count_id i events ≤ 1
shorter i ids e events h = ground arith

left_over :
    (r : WatchEvent → Bool) (ids : List ℕ) (events : List WatchEvent)
    → ((i : ℕ) → count i ids + count_id i events ≤ 1)
    → any r events ≡ true
    → any (λ e. not (contains ids e.id) && r e) events ≡ true
left_over r ids [] h t = t
left_over r ids (e ∷ events) h t = elim (Bool-cases (contains ids e.id)) [
  | inl given ↦ let z : false ≡ true = given_and_kept e.id ids e events given refl (h e.id) in cc
  | inr free ↦ rw free (elim (Bool-cases (r e)) [
    | inl now ↦ rw now refl
    | inr later ↦
        rw later (left_over r ids events (λ i. shorter i ids e events (h i)) (ground arith))
  ])
]

pub any-none :
    (p : WatchEvent → Bool) (events : List WatchEvent)
    → any p events ≡ false
    → All (λ e. p e ≡ false) events
any-none p [] h = tt
any-none p (e ∷ events) h = (ground arith, any-none p events (ground arith))

pub all_false :
    (p : WatchEvent → Bool) (events : List WatchEvent)
    → All (λ e. p e ≡ false) events
    → any p events ≡ false
all_false p [] h = refl
all_false p (e ∷ events) (h, hs) = ground (arith, all_false p events hs)

pub any-filter :
    (p r : WatchEvent → Bool) (events : List WatchEvent)
    → any r (filter p events) ≡ any (λ e. p e && r e) events
any-filter p r [] = refl
any-filter p r (e ∷ events) = ground (arith, any-filter p r events)

pub count_id-parts :
    (i : ℕ) (p : WatchEvent → Bool) (events : List WatchEvent)
    → count_id i (filter p events) + count_id i (filter (λ e. not (p e)) events) ≡ count_id i events
count_id-parts i p [] = refl
count_id-parts i p (e ∷ events) = ground (arith, count_id-parts i p events)

-- What no row of `events` passes, no row of `rest` does.
abbrev pub Covers : List WatchEvent → List WatchEvent → Type 0
Covers events rest = (p : WatchEvent → Bool) → any p events ≡ false → any p rest ≡ false

pub remaining-any :
    (r : WatchEvent → Bool) (ids : List ℕ) (events rest : List WatchEvent)
    → Covers events rest
    → ((i : ℕ) → count i ids + count_id i rest ≤ 1)
    → any r rest ≡ true
    → any r (filter (λ e. not (contains ids e.id)) events) ≡ true
remaining-any r ids events rest covers few h =
    let q : WatchEvent → Bool = λ e. not (contains ids e.id) && r e in
    rw (any-filter (λ e. not (contains ids e.id)) r events) (elim (Bool-cases (any q events)) [
      | inl t ↦ t
      | inr f ↦
          let a : any q rest ≡ true = left_over r ids rest few h in
          let b : any q rest ≡ false = covers q f in cc
    ])
