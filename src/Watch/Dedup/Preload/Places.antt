-- ===== src/Watch/Dedup/Preload/Places.antt =====
-- Media rows by the episode that they are, and the groups of rows that are one episode.
use mathlib.Core.Path.{subst}
use scrob.Prelude.{
  ℕ, ◌≡◌, refl, sym, ap, ◌∙◌, Bool, true, false, ◌&&◌, ◌||◌, Option, none, some, List, [], ◌∷◌,
  ◌++◌, arith, filter, any, find?, ◌==◌, nat_eq, pair_eq, contains, contains-append, All, All-map,
  All-filter, filter-All, Bool-cases, Option-cases, inl, inr,
}
use scrob.Prelude.Dict.{get, put, has_key, get-put}
use scrob.Watch.{is_episode, Media}
use scrob.Watch.Dedup.{same_position}
use scrob.Watch.Dedup.Preload.{
  Times, Position, position, is_sibling, Groups, add_sibling, group_siblings,
}
use scrob.Watch.Dedup.Preload.SamePlace.{
  DistinctMedia, any-filter, any_assoc, place, position_eq, same_place, same_place_refl,
  same_position-place, stands, under,
}

or_assoc : (a b c : Bool) → ((a || b) || c) ≡ (a || (b || c))
or_assoc a b c = ground arith

add-under :
    (o : Option Position) (id : ℕ) (groups : Groups) (p : Position) (i : ℕ)
    → contains (under (add_sibling o id groups) p) i
      ≡ (contains (under groups p) i || (id == i && same_place o (some p)))
unfolding add_sibling contains
add-under none id groups p i = ground arith
add-under (some k) id groups p i = elim (Bool-cases (k == p)) [
  | inl t ↦
      let e : under groups k ≡ under groups p = ap (under groups) (position_eq k p t) in
      rw (get-put k (under groups k ++ id ∷ []) groups p)
        (rw t (rw (contains-append (under groups k) (id ∷ []) i) (rw e (ground arith))))
  | inr f ↦ rw (get-put k (under groups k ++ id ∷ []) groups p) (rw f (ground arith))
]

pub group_siblings-under :
    (siblings : List Media) (groups : Groups) (p : Position) (i : ℕ)
    → contains (under (group_siblings siblings groups) p) i
      ≡ (contains (under groups p) i || any (λ s. s.id == i && stands p s) siblings)
unfolding group_siblings
group_siblings-under [] groups p i = ground arith
group_siblings-under (s ∷ siblings) groups p i =
    group_siblings-under siblings (add_sibling (position s) s.id groups) p i
    ∙ ap (λ b. b || any (λ x. x.id == i && stands p x) siblings)
        (add-under (position s) s.id groups p i)
    ∙ or_assoc (contains (under groups p) i) (s.id == i && stands p s)
        (any (λ x. x.id == i && stands p x) siblings)

-- Every group holds rows of one place.
abbrev pub AllAt : List Media → Groups → Type 0
AllAt media [] = Unit
AllAt media ((p, ids) ∷ groups) =
    ((i : ℕ) → contains ids i ≡ true → place media i ≡ some p) × AllAt media groups

put-AllAt :
    (media : List Media) (p : Position) (ids : List ℕ) (groups : Groups)
    → ((i : ℕ) → contains ids i ≡ true → place media i ≡ some p)
    → AllAt media groups
    → AllAt media (put p ids groups)
unfolding put
put-AllAt media p ids [] h k = (h, tt)
put-AllAt media p ids ((q, js) ∷ groups) h (k, ks) = elim (Bool-cases (q == p)) [
  | inl t ↦ rw t (
    subst (λ k'. (i : ℕ) → contains ids i ≡ true → place media i ≡ some k')
        (sym (position_eq q p t)) h,
    ks,
  )
  | inr f ↦ rw f (k, put-AllAt media p ids groups h ks)
]

under-AllAt :
    (media : List Media) (groups : Groups) (p : Position) (i : ℕ)
    → AllAt media groups
    → contains (under groups p) i ≡ true
    → place media i ≡ some p
unfolding get
under-AllAt media [] p i h k = unfold contains in absurd (ground arith)
under-AllAt media ((q, ids) ∷ groups) p i (h, hs) k = elim (Bool-cases (q == p)) [
  | inl t ↦ subst (λ r. place media i ≡ some r) (position_eq q p t) (h i (rw (t, get) at k))
  | inr f ↦ under-AllAt media groups p i hs (rw (f, get) at k)
]

last_one :
    (ids : List ℕ) (id i : ℕ) → contains (ids ++ id ∷ []) i ≡ true → contains ids i ≡ false → id ≡ i
last_one ids id i h f =
    let e : contains (ids ++ id ∷ []) i ≡ (contains ids i || contains (id ∷ []) i) =
      contains-append ids (id ∷ []) i in
    unfold contains in ground (arith, e)

add-AllAt :
    (media : List Media) (o : Option Position) (id : ℕ) (groups : Groups)
    → place media id ≡ o
    → AllAt media groups
    → AllAt media (add_sibling o id groups)
unfolding add_sibling
add-AllAt media none id groups h k = k
add-AllAt media (some p) id groups h k =
    put-AllAt media p (under groups p ++ id ∷ []) groups
      (λ i c. elim (Bool-cases (contains (under groups p) i)) [
        | inl t ↦ under-AllAt media groups p i k t
        | inr f ↦ subst (λ j. place media j ≡ some p) (last_one (under groups p) id i c f) h
      ])
      k

pub siblings-AllAt :
    (media siblings : List Media) (groups : Groups)
    → All (λ s. place media s.id ≡ position s) siblings
    → AllAt media groups
    → AllAt media (group_siblings siblings groups)
unfolding group_siblings
siblings-AllAt media [] groups h k = k
siblings-AllAt media (s ∷ siblings) groups (h, hs) k =
    siblings-AllAt media siblings (add_sibling (position s) s.id groups) hs
      (add-AllAt media (position s) s.id groups h k)

-- A row finds itself by its id.
abbrev row_or : Media → Option Media → Media
row_or s none = s
row_or s (some t) = t

no_place : (p : Position) → Option.none ≡ some p → ⊥
no_place p h = cc

and_first : (a b : Bool) → (a && b) ≡ true → a ≡ true
and_first a b h = ground arith

own_later :
    (a : Media) (media rest : List Media)
    → any (λ x. x.id == a.id) rest ≡ false
    → All (λ s. find? (λ x. x.id == s.id) media ≡ some s) rest
    → All (λ s. find? (λ x. x.id == s.id) (a ∷ media) ≡ some s) rest
own_later a media [] h k = tt
own_later a media (s ∷ rest) h (k, ks) =
    let other : (a.id == s.id) ≡ false = ground arith in
    (rw other k, own_later a media rest (ground arith) ks)

own_row :
    (media : List Media)
    → DistinctMedia media
    → All (λ s. find? (λ x. x.id == s.id) media ≡ some s) media
own_row [] h = tt
own_row (a ∷ media) (h, hs) =
    let self : (a.id == a.id) ≡ true = ground arith in
    (rw self refl, own_later a media media h (own_row media hs))

all_placed :
    (media rest : List Media)
    → All (λ s. find? (λ x. x.id == s.id) media ≡ some s) rest
    → All (λ s. is_episode s.media_type ≡ true) rest
    → All (λ s. place media s.id ≡ position s) rest
unfolding place
all_placed media [] h k = tt
all_placed media (s ∷ rest) (h, hs) (k, ks) = (rw h (rw k refl), all_placed media rest hs ks)

pub siblings_placed :
    (media : List Media) (times : Times)
    → DistinctMedia media
    → All (λ s. place media s.id ≡ position s) (filter (is_sibling media times) media)
siblings_placed media times h =
    all_placed media (filter (is_sibling media times) media)
      (All-filter (λ s. find? (λ x. x.id == s.id) media ≡ some s) (is_sibling media times) media
        (own_row media h))
      (All-map (filter (is_sibling media times) media)
        (λ s e.
          and_first (is_episode s.media_type)
            (any (λ a. has_key times a.id && is_episode a.media_type && same_position s a) media) e)
        (filter-All (is_sibling media times) media))

-- A row that is found, and passes a test.
any_found :
    (i : ℕ) (f : Media → Bool) (media : List Media) (s : Media)
    → find? (λ x. x.id == i) media ≡ some s
    → f s ≡ true
    → any (λ x. x.id == i && f x) media ≡ true
any_found i f [] s h k = absurd (ground arith)
any_found i f (x ∷ media) s h k = elim (Bool-cases (x.id == i)) [
  | inl t ↦
      let same : x ≡ s = ap (row_or x) (rw t at h) in
      let g : f x ≡ true = subst (λ y. f y ≡ true) (sym same) k in rw t (rw g refl)
  | inr n ↦ rw n (any_found i f media s (rw n at h) k)
]

-- What the row of a place is.
place-row :
    (media : List Media) (i : ℕ) (p : Position)
    → place media i ≡ some p
    → (s : Media) × (find? (λ x. x.id == i) media ≡ some s)
      × (is_episode s.media_type ≡ true)
      × (position s ≡ some p)
unfolding place
place-row media i p h = elim (Option-cases (find? (λ x. x.id == i) media)) [
  | inl n ↦ absurd (no_place p (rw n at h))
  | inr (s, e) ↦ elim (Bool-cases (is_episode s.media_type)) [
    | inl t ↦ (s, e, t, (let h' = rw e at h in rw t at h'))
    | inr f ↦ absurd (no_place p (let h' = rw e at h in rw f at h'))
  ]
]

and_intro : (a b : Bool) → a ≡ true → b ≡ true → (a && b) ≡ true
and_intro a b h k = ground arith

or_intro : (a b : Bool) → b ≡ true → (a || b) ≡ true
or_intro a b h = ground arith

any_weaken :
    (i : ℕ) (f : Media → Bool) (media : List Media)
    → any (λ x. x.id == i && f x) media ≡ true
    → any f media ≡ true
any_weaken i f [] h = h
any_weaken i f (x ∷ media) h = ground (arith, any_weaken i f media)

found-id :
    (i : ℕ) (media : List Media) (s : Media) → find? (λ x. x.id == i) media ≡ some s → s.id ≡ i
found-id i [] s h = absurd (ground arith)
found-id i (x ∷ media) s h = elim (Bool-cases (x.id == i)) [
  | inl t ↦
      let same : x ≡ s = ap (row_or x) (rw t at h) in subst (λ y. y.id ≡ i) same (ground arith)
  | inr n ↦ found-id i media s (rw n at h)
]

anchor :
    (media : List Media) (times : Times) (p : Position) (j : ℕ) (s t : Media)
    → find? (λ x. x.id == j) media ≡ some s
    → is_episode s.media_type ≡ true
    → position s ≡ some p
    → is_episode t.media_type ≡ true
    → position t ≡ some p
    → has_key times j ≡ true
    → is_sibling media times t ≡ true
anchor media times p j s t found ep at_p ep' at_p' known =
    let own : has_key times s.id ≡ true =
      subst (λ i. has_key times i ≡ true) (sym (found-id j media s found)) known in
    let same : same_position t s ≡ true =
      same_position-place t s
      ∙ (let z : same_place (position t) (position s) ≡ true =
            rw at_p (rw at_p' (same_place_refl p)) in
          z) in
    let fits : (has_key times s.id && is_episode s.media_type && same_position t s) ≡ true =
      and_intro (has_key times s.id && is_episode s.media_type) (same_position t s)
        (and_intro (has_key times s.id) (is_episode s.media_type) own ep) same in
    and_intro (is_episode t.media_type)
      (any (λ a. has_key times a.id && is_episode a.media_type && same_position t a) media) ep'
      (any_weaken j (λ a. has_key times a.id && is_episode a.media_type && same_position t a) media
        (any_found j (λ a. has_key times a.id && is_episode a.media_type && same_position t a) media
          s found fits))

-- Of the rows of a place all stand in one group, once one of them has a time.
pub place-under :
    (media : List Media) (times : Times) (p : Position) (j m : ℕ)
    → place media j ≡ some p
    → place media m ≡ some p
    → has_key times j ≡ true
    → contains (under (group_siblings (filter (is_sibling media times) media) []) p) m ≡ true
place-under media times p j m a b known =
    let (s, found, ep, at_p) = place-row media j p a in
    let (t, found', ep', at_p') = place-row media m p b in
    let anchored : is_sibling media times t ≡ true =
      anchor media times p j s t found ep at_p ep' at_p' known in
    let stands_there : same_place (position t) (some p) ≡ true = rw at_p' (same_place_refl p) in
    let both : (stands p t && is_sibling media times t) ≡ true =
      and_intro (stands p t) (is_sibling media times t) stands_there anchored in
    let siblings = filter (is_sibling media times) media in
    let among : any (λ x. x.id == m && stands p x) siblings ≡ true =
      any-filter (is_sibling media times) (λ x. x.id == m && stands p x) media
      ∙ any_assoc (λ x. x.id == m) (stands p) (is_sibling media times) media
      ∙ any_found m (λ x. stands p x && is_sibling media times x) media t found' both in
    group_siblings-under siblings [] p m
    ∙ or_intro (contains (under [] p) m) (any (λ x. x.id == m && stands p x) siblings) among
