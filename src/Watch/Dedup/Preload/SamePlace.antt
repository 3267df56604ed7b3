-- ===== src/Watch/Dedup/Preload/SamePlace.antt =====
-- When two media rows are one episode.
use mathlib.Core.Path.{subst}
use scrob.Prelude.{
  ℕ, ◌≡◌, refl, sym, ap, ◌∙◌, Bool, true, false, ◌&&◌, Option, none, some, List, [], ◌∷◌, arith,
  filter, any, find?, if◌then◌else◌, ◌==◌, nat_eq, pair_eq, All, Bool-cases, Option-cases, inl, inr,
}
use scrob.Prelude.Dict.{get}
use scrob.Watch.{is_episode, Media}
use scrob.Watch.Dedup.{sql_eq, same_position, same_episode_media_ids}
use scrob.Watch.Dedup.Preload.{Position, position_from, position, Groups, ids_or_nil}

abbrev pub same_place : Option Position → Option Position → Bool
same_place none q = false
same_place (some p) none = false
same_place (some p) (some q) = p == q

abbrev pub found_place : Option Media → Option Position
found_place none = none
found_place (some a) = if is_episode a.media_type then position a else none

-- The episode that a media row is.
unfoldable pub place : List Media → ℕ → Option Position
place media i = found_place (find? (λ a. a.id == i) media)

abbrev pub DistinctMedia : List Media → Type 0
DistinctMedia [] = Unit
DistinctMedia (m ∷ media) = (any (λ a. a.id == m.id) media ≡ false) × DistinctMedia media

-- A row with a show, a season and an episode number is an episode.
abbrev pub is_regular : Media → Bool
is_regular m = elim (position m) [ none ↦ true | some p ↦ is_episode m.media_type ]

positions_agree :
    (a b c x y z : Option ℕ)
    → (sql_eq a x && sql_eq b y && sql_eq c z)
      ≡ same_place (position_from a b c) (position_from x y z)
positions_agree none b c x y z = refl
positions_agree (some a) none c x y z = ground arith
positions_agree (some a) (some b) none x y z = ground arith
positions_agree (some a) (some b) (some c) none y z = refl
positions_agree (some a) (some b) (some c) (some x) none z = ground arith
positions_agree (some a) (some b) (some c) (some x) (some y) none = ground arith
positions_agree (some a) (some b) (some c) (some x) (some y) (some z) = ground arith

pub same_position-place : (s a : Media) → same_position s a ≡ same_place (position s) (position a)
same_position-place s a =
    positions_agree s.show_id s.season_number s.episode_number a.show_id a.season_number
      a.episode_number

any_none :
    (m : ℕ) (f : Media → Bool) (media : List Media)
    → any (λ a. a.id == m) media ≡ false
    → any (λ a. a.id == m && f a) media ≡ false
any_none m f [] h = refl
any_none m f (a ∷ media) h = ground (arith, any_none m f media)

abbrev holds_of : (Media → Bool) → Option Media → Bool
holds_of f none = false
holds_of f (some a) = f a

-- With distinct ids, the row of an id is the one that is found.
any_distinct :
    (m : ℕ) (f : Media → Bool) (media : List Media)
    → DistinctMedia media
    → any (λ a. a.id == m && f a) media ≡ holds_of f (find? (λ a. a.id == m) media)
any_distinct m f [] h = refl
any_distinct m f (a ∷ media) (h, hs) = elim (Bool-cases (a.id == m)) [
  | inl t ↦
      let e : a.id ≡ m = ground arith in
      let none_more : any (λ x. x.id == m && f x) media ≡ false =
        any_none m f media (subst (λ i. any (λ x. x.id == i) media ≡ false) e h) in
      rw t (rw none_more (ground arith))
  | inr n ↦ rw n (any_distinct m f media hs)
]

pub any-filter :
    (p q : Media → Bool) (media : List Media) → any q (filter p media) ≡ any (λ s. q s && p s) media
any-filter p q [] = refl
any-filter p q (s ∷ media) = ground (arith, any-filter p q media)

found-All :
    (q p : Media → Bool) (media : List Media) (s : Media)
    → All (λ x. q x ≡ true) media
    → find? p media ≡ some s
    → q s ≡ true
found-All q p [] s h f = ground arith
found-All q p (x ∷ media) s (h, hs) f = ground (arith, found-All q p media s hs)

none_same : (o : Option Position) → same_place o none ≡ false
none_same none = refl
none_same (some p) = refl

guarded_place :
    (o o' : Option Position) (b b' : Bool)
    → elim o [ none ↦ true | some p ↦ b ] ≡ true
    → (b' && same_place o o') ≡ same_place (if b then o else none) (if b' then o' else none)
guarded_place none o' true true h = refl
guarded_place none o' true false h = refl
guarded_place none o' false b' h = ground arith
guarded_place (some p) o' true true h = refl
guarded_place (some p) o' true false h = refl
guarded_place (some p) o' false b' h = absurd (ground arith)

pub any_assoc :
    (p q r : Media → Bool) (media : List Media)
    → any (λ a. p a && q a && r a) media ≡ any (λ a. p a && (q a && r a)) media
any_assoc p q r [] = refl
any_assoc p q r (a ∷ media) = ground (arith, any_assoc p q r media)

one_place :
    (s a : Media)
    → is_regular s ≡ true
    → (is_episode a.media_type && same_position s a)
      ≡ same_place (found_place (some s)) (found_place (some a))
one_place s a h =
    rw (same_position-place s a) (
      guarded_place (position s) (position a) (is_episode s.media_type) (is_episode a.media_type) h)

-- The sibling rows of the search are those of the same place.
pub siblings-place :
    (media : List Media) (m j : ℕ)
    → DistinctMedia media
    → All (λ s. is_regular s ≡ true) media
    → any (λ s. s.id == j) (same_episode_media_ids media m)
      ≡ same_place (place media j) (place media m)
unfolding same_episode_media_ids place
siblings-place media m j distinct regular =
    any-filter (λ s. any (λ a. a.id == m && is_episode a.media_type && same_position s a) media)
      (λ s. s.id == j) media
    ∙ any_distinct j
        (λ s. any (λ a. a.id == m && is_episode a.media_type && same_position s a) media) media
        distinct
    ∙ elim (Option-cases (find? (λ a. a.id == j) media)) [
      | inl n ↦ rw n refl
      | inr (s, e) ↦ rw e (
          any_assoc (λ a. a.id == m) (λ a. is_episode a.media_type) (λ a. same_position s a) media
          ∙ any_distinct m (λ a. is_episode a.media_type && same_position s a) media distinct
          ∙ elim (Option-cases (find? (λ a. a.id == m) media)) [
            | inl n ↦ rw n (sym (none_same (found_place (some s))))
            | inr (a, g) ↦
                rw g
                  (one_place s a (found-All (λ x. is_regular x) (λ x. x.id == j) media s regular e))
          ])
    ]

pub position_eq : (p q : Position) → (p == q) ≡ true → p ≡ q
position_eq p q h = (pair_eq.same_iff p q).0 h

pub same_place_refl : (p : Position) → same_place (some p) (some p) ≡ true
same_place_refl p = ground arith

pub same_place-eq :
    (o o' : Option Position)
    → same_place o o' ≡ true
    → (p : Position) × (o ≡ some p) × (o' ≡ some p)
same_place-eq none o' h = absurd (ground arith)
same_place-eq (some p) none h = absurd (ground arith)
same_place-eq (some p) (some q) h = (p, refl, ap some (sym (position_eq p q h)))

-- The ids that stand under a position.
abbrev pub under : Groups → Position → List ℕ
under groups p = ids_or_nil (get groups p)

abbrev pub stands : Position → Media → Bool
stands p s = same_place (position s) (some p)
