-- ===== src/Watch/Dedup/Preload/Times.antt =====
-- How the times of a media row grow while siblings are merged.
use mathlib.Core.Path.{subst}
use scrob.Prelude.{
  ℕ, ◌≡◌, refl, sym, ap, ◌∙◌, Bool, true, false, ◌&&◌, ◌||◌, Option, none, some, List, [], ◌∷◌,
  ◌++◌, arith, any, length, ltb, if◌then◌else◌, ◌==◌, nat_eq, pair_eq, contains, Bool-cases, inl,
  inr,
}
use scrob.Prelude.Clock.{Time}
use scrob.Prelude.Dict.{get, put, get-put}
use scrob.Watch.{WatchEvent}
use scrob.Watch.Dedup.{effective_time}
use scrob.Watch.Dedup.Preload.{
  Times, times_of, note_time, load_times, Position, Groups, merged_times, set_times, merge_group,
  merge_groups,
}

any-append {ℓ} :
    {A : Type ℓ} (p : A → Bool) (xs ys : List A) → any p (xs ++ ys) ≡ (any p xs || any p ys)
any-append p [] ys = refl
any-append p (x ∷ xs) ys = ground (arith, any-append p xs ys)

no_group : (ids : List ℕ) → Option.none ≡ some ids → ⊥
no_group ids h = cc

abbrev ids_or : List ℕ → Option (List ℕ) → List ℕ
ids_or ids none = ids
ids_or ids (some js) = js

module _ (q : Time → Bool) where
  abbrev pub has_time : Times → ℕ → Bool
  has_time times m = any q (times_of times m)

  same_key :
      (k m : ℕ) (at : Time) (times : Times)
      → k ≡ m
      → (any q (times_of times k) || any q (at ∷ [])) ≡ (has_time times m || (true && q at))
  same_key k m at times e =
      let s : has_time times k ≡ has_time times m = ap (has_time times) e in ground (arith, s)

  note-has :
      (k : ℕ) (at : Time) (times : Times) (m : ℕ)
      → has_time (note_time k at times) m ≡ (has_time times m || (k == m && q at))
  unfolding note_time
  note-has k at times m = elim (Bool-cases (k == m)) [
    | inl t ↦
        let e : k ≡ m = ground arith in
        rw (get-put k (times_of times k ++ at ∷ []) times m)
          (rw t (any-append q (times_of times k) (at ∷ []) ∙ same_key k m at times e))
    | inr f ↦ rw (get-put k (times_of times k ++ at ∷ []) times m) (rw f (ground arith))
  ]

  pub load-has :
      (user_id : ℕ) (events : List WatchEvent) (times : Times) (m : ℕ)
      → has_time (load_times user_id events times) m ≡ (
          has_time times m
          || any (λ e. e.user_id == user_id && (e.media_id == m && q (effective_time e))) events)
  unfolding load_times
  load-has user_id [] times m = ground arith
  load-has user_id (e ∷ events) times m = elim (Bool-cases (e.user_id == user_id)) [
    | inl t ↦ rw t (
        ground (
          arith,
          load-has user_id events (note_time e.media_id (effective_time e) times) m,
          note-has e.media_id (effective_time e) times m,
        ))
    | inr f ↦ rw f (load-has user_id events times m)
  ]

  merged-has :
      (times : Times) (ids : List ℕ) → any q (merged_times times ids) ≡ any (has_time times) ids
  unfolding merged_times
  merged-has times [] = refl
  merged-has times (i ∷ ids) =
      ground (arith, any-append q (times_of times i) (merged_times times ids), merged-has times ids)

  put-has :
      (i : ℕ) (ts : List Time) (times : Times) (m : ℕ)
      → has_time (put i ts times) m ≡ (if i == m then any q ts else has_time times m)
  put-has i ts times m = elim (Bool-cases (i == m)) [
    | inl t ↦ rw (get-put i ts times m) (rw t refl)
    | inr f ↦ rw (get-put i ts times m) (rw f refl)
  ]

  set-has :
      (ids : List ℕ) (merged : List Time) (times : Times) (m : ℕ)
      → has_time (set_times ids merged times) m
        ≡ (if contains ids m then any q merged else has_time times m)
  unfolding set_times contains
  set-has [] merged times m = refl
  set-has (i ∷ ids) merged times m =
      ground (arith, set-has ids merged (put i merged times) m, put-has i merged times m)

  pub group-has :
      (ids : List ℕ) (times : Times) (m : ℕ)
      → has_time (merge_group ids times) m
        ≡ (if contains ids m then any (has_time times) ids else has_time times m)
  unfolding merge_group
  group-has [] times m = unfold contains in refl
  group-has (i ∷ []) times m =
      unfold contains in
      elim (Bool-cases (m == i)) [
        | inl t ↦
            let e : has_time times m ≡ has_time times i = ap (has_time times) (ground arith) in
            rw t (ground (arith, e))
        | inr f ↦ rw f refl
      ]
  group-has (i ∷ j ∷ ids) times m =
      let big : ltb (length (i ∷ j ∷ ids)) 2 ≡ false = ground arith in
      let merged = merged_times times (i ∷ j ∷ ids) in
      let e : merge_group (i ∷ j ∷ ids) times ≡ set_times (i ∷ j ∷ ids) merged times =
        rw (big, merge_group) refl in
      ap (λ ts. has_time ts m) e
      ∙ set-has (i ∷ j ∷ ids) merged times m
      ∙ ap (λ b. if contains (i ∷ j ∷ ids) m then b else has_time times m)
          (merged-has times (i ∷ j ∷ ids))

  in_group :
      (ids : List ℕ) (f : ℕ → Bool) (i : ℕ) → contains ids i ≡ true → f i ≡ true → any f ids ≡ true
  unfolding contains
  in_group [] f i h k = h
  in_group (j ∷ ids) f i h k = elim (Bool-cases (i == j)) [
    | inl t ↦ let e : f i ≡ f j = ap f (ground arith) in ground (arith, e)
    | inr n ↦ ground (arith, in_group ids f i)
  ]

  out_of_group :
      (ids : List ℕ) (f : ℕ → Bool)
      → any f ids ≡ true
      → (i : ℕ) × (contains ids i ≡ true) × (f i ≡ true)
  unfolding contains
  out_of_group [] f h = absurd (ground arith)
  out_of_group (j ∷ ids) f h = elim (Bool-cases (f j)) [
    | inl t ↦ (j, ground arith, t)
    | inr n ↦ (let (i, a, b) = out_of_group ids f (ground arith) in (i, ground (arith, a), b))
  ]

  -- Merging only adds times.
  group-more :
      (ids : List ℕ) (times : Times) (m : ℕ)
      → has_time times m ≡ true
      → has_time (merge_group ids times) m ≡ true
  group-more ids times m h = elim (Bool-cases (contains ids m)) [
    | inl t ↦ rw (group-has ids times m) (rw t (in_group ids (has_time times) m t h))
    | inr f ↦ rw (group-has ids times m) (rw f h)
  ]

  pub groups-more :
      (groups : Groups) (times : Times) (m : ℕ)
      → has_time times m ≡ true
      → has_time (merge_groups groups times) m ≡ true
  unfolding merge_groups
  groups-more [] times m h = h
  groups-more ((p, ids) ∷ groups) times m h =
      groups-more groups (merge_group ids times) m (group-more ids times m h)

  -- The members of a group share their times.
  pub groups-share :
      (groups : Groups) (times : Times) (p : Position) (ids : List ℕ) (i m : ℕ)
      → get groups p ≡ some ids
      → contains ids i ≡ true
      → contains ids m ≡ true
      → has_time times i ≡ true
      → has_time (merge_groups groups times) m ≡ true
  unfolding merge_groups get
  groups-share [] times p ids i m g a b h = absurd (no_group ids g)
  groups-share ((k, js) ∷ groups) times p ids i m g a b h = elim (Bool-cases (k == p)) [
    | inl t ↦
        let same : js ≡ ids = ap (ids_or js) (rw t at g) in
        let a' : contains js i ≡ true = subst (λ xs. contains xs i ≡ true) (sym same) a in
        let b' : contains js m ≡ true = subst (λ xs. contains xs m ≡ true) (sym same) b in
        groups-more groups (merge_group js times) m
          (rw (group-has js times m) (rw b' (in_group js (has_time times) i a' h)))
    | inr f ↦
        groups-share groups (merge_group js times) p ids i m (rw f at g) a b
          (group-more js times i h)
  ]

  -- What the members of each group share bounds the times.
  abbrev pub AllShare : (ℕ → Bool) → Groups → Type 0
  AllShare r [] = Unit
  AllShare r ((p, ids) ∷ groups) =
      ((i m : ℕ) → contains ids i ≡ true → contains ids m ≡ true → r i ≡ true → r m ≡ true)
      × AllShare r groups

  group-bound :
      (r : ℕ → Bool) (ids : List ℕ) (times : Times)
      → ((i m : ℕ) → contains ids i ≡ true → contains ids m ≡ true → r i ≡ true → r m ≡ true)
      → ((m : ℕ) → has_time times m ≡ true → r m ≡ true)
      → (m : ℕ) → has_time (merge_group ids times) m ≡ true
      → r m ≡ true
  group-bound r ids times share bound m h = elim (Bool-cases (contains ids m)) [
    | inl t ↦
        let some_time : any (has_time times) ids ≡ true =
          (let z : (if contains ids m then any (has_time times) ids else has_time times m) ≡ true =
              sym (group-has ids times m) ∙ h in
            rw t at z) in
        let (i, a, b) = out_of_group ids (has_time times) some_time in share i m a t (bound i b)
    | inr f ↦ bound m (
        let z : (if contains ids m then any (has_time times) ids else has_time times m) ≡ true =
          sym (group-has ids times m) ∙ h in
        rw f at z)
  ]

  pub groups-bound :
      (r : ℕ → Bool) (groups : Groups) (times : Times)
      → AllShare r groups
      → ((m : ℕ) → has_time times m ≡ true → r m ≡ true)
      → (m : ℕ) → has_time (merge_groups groups times) m ≡ true
      → r m ≡ true
  unfolding merge_groups
  groups-bound r [] times share bound m h = bound m h
  groups-bound r ((p, ids) ∷ groups) times (one, rest) bound m h =
      groups-bound r groups (merge_group ids times) rest (group-bound r ids times one bound) m h
