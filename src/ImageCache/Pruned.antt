-- ===== src/ImageCache/Pruned.antt =====
-- What `prune_cache` of backend/core/image_cache.py promises.
use scrob.Prelude.{
  ℕ, ◌≤◌, ◌<◌, ◌≡◌, refl, ◌∙◌, Bool, ◌&&◌, some, arith, leb, leb→le, ltb, ltb→lt, if◌then◌else◌,
  ◌==◌, nat_eq, Bool-cases, inl, inr,
}
use scrob.Prelude.Sums.{sum}
use scrob.Prelude.Text.{text_eq}
use scrob.ImageCache.{
  ImageCache, File, Cache, ondemand, collected, total_size, prune_type, prune_cache,
}
use scrob.ImageCache.Rows.{IsUnique}
use scrob.ImageCache.Pruning.{of_type}
use scrob.ImageCache.Stage.{
  IsCut, IsNeeded, Pruned, after-IsUnique, apart, apart', count_type, cut, fits, measured, needed,
  none_before, one_if, other_type, returned, uncut, untouched,
}

module _ (stuck : File → Bool) (limit : ℕ) (db : Cache) (unique : IsUnique db.rows) where
  abbrev first : Cache
  first = (prune_type stuck ondemand (total_size db.rows) limit db).1

  abbrev second : Cache
  second = (prune_type stuck collected (total_size first.rows) limit first).1

  first-Unique : IsUnique first.rows
  first-Unique = after-IsUnique stuck ondemand limit db unique

  same_collected :
      (f : ImageCache → Bool)
      → sum (λ r. one_if (of_type collected r && f r)) first.rows
        ≡ sum (λ r. one_if (of_type collected r && f r)) db.rows
  same_collected f =
      untouched stuck ondemand limit db unique (λ r. one_if (of_type collected r && f r))
        (λ r h. other_type collected r (f r) (apart' r h))

  same_ondemand :
      (f : ImageCache → Bool)
      → sum (λ r. one_if (of_type ondemand r && f r)) second.rows
        ≡ sum (λ r. one_if (of_type ondemand r && f r)) first.rows
  same_ondemand f =
      untouched stuck collected limit first first-Unique (λ r. one_if (of_type ondemand r && f r))
        (λ r h. other_type ondemand r (f r) (apart r h))

  count_collected : count_type collected first.rows ≡ count_type collected db.rows
  count_collected =
      untouched stuck ondemand limit db unique (λ r. one_if (of_type collected r))
        (λ r h. rw (apart' r h) refl)

  count_ondemand : count_type ondemand second.rows ≡ count_type ondemand first.rows
  count_ondemand =
      untouched stuck collected limit first first-Unique (λ r. one_if (of_type ondemand r))
        (λ r h. rw (apart r h) refl)

  collected_cut : (c : ℕ) × IsCut collected c db.rows first.rows
  collected_cut =
      (0, (same_collected (λ r. ltb 0 r.last_accessed), none_before collected first.rows))

  first-Pruned : total_size first.rows ≤ limit → Pruned limit db.rows first.rows
  first-Pruned h = record {
    fits = inl h;
    order = inl count_collected;
    needed = needed stuck ondemand limit db unique;
    oldest = (cut stuck ondemand limit db unique, collected_cut);
  }

  no_ondemand : limit < total_size first.rows → count_type ondemand first.rows ≡ 0
  no_ondemand h = elim (fits stuck ondemand limit db unique) [
    | inl le ↦ absurd (omega (arith, le, h, returned stuck ondemand limit db unique))
    | inr e ↦ e
  ]

  second-IsNeeded : IsNeeded limit db.rows second.rows
  second-IsNeeded = elim (needed stuck collected limit first first-Unique) [
    | inr (i, none_left, big) ↦ inr (
      i,
      none_left,
      omega (
        arith,
        big,
        measured stuck ondemand limit db unique (λ r. if r.id == i then r.file_size else 0),
      ),
    )
    | inl same ↦ elim (needed stuck ondemand limit db unique) [
      | inl all_same ↦ inl (λ f. same f ∙ all_same f)
      | inr (i, none_left, big) ↦ inr (
        i,
        same (λ r. one_if (r.id == i)) ∙ none_left,
        omega (arith, big, same (λ r. r.file_size)),
      )
    ]
  ]

  second-Pruned : limit < total_size first.rows → Pruned limit db.rows second.rows
  second-Pruned h = record {
    fits = elim (fits stuck collected limit first first-Unique) [
      | inl le ↦ inl (omega (arith, le, returned stuck collected limit first first-Unique))
      | inr e ↦ inr (omega (arith, count_ondemand, no_ondemand h), e)
    ];
    order = inr (omega (arith, count_ondemand, no_ondemand h));
    needed = second-IsNeeded;
    oldest = (
      let (c, (new, old)) = cut stuck ondemand limit db unique in
          (
            c,
            (
              same_ondemand (λ r. ltb c r.last_accessed) ∙ new,
              same_ondemand (λ r. ltb r.last_accessed c) ∙ old,
            ),
          ),
      let (c, (new, old)) = cut stuck collected limit first first-Unique in
          (c, (new ∙ same_collected (λ r. ltb c r.last_accessed), old)),
    );
  }

-- With distinct ids in the table, pruning to a limit ends within it, or with no image of either
-- type; a collected image goes only when no image fetched on demand is left; if anything is
-- evicted, some row that is gone would exceed the limit again; and of each type the rows go by
-- their time of access: none later than some time, and all earlier.
pub prune_cache-Pruned :
    (stuck : File → Bool) (limit : ℕ) (db : Cache)
    → IsUnique db.rows
    → Pruned limit db.rows (prune_cache stuck (some limit) db).rows
unfolding prune_cache
prune_cache-Pruned stuck limit db unique = elim (Bool-cases (leb (total_size db.rows) limit)) [
  | inl t ↦ rw t (record {
    fits = inl (leb→le (total_size db.rows) limit t);
    order = inl refl;
    needed = inl (λ f. refl);
    oldest = (uncut ondemand db.rows, uncut collected db.rows);
  })
  | inr f ↦
      let e = returned stuck ondemand limit db unique in
      rw f (
        rw e (elim (Bool-cases (ltb limit (total_size (first stuck limit db unique).rows))) [
          | inl more ↦ rw more (
              second-Pruned stuck limit db unique
                (ltb→lt limit (total_size (first stuck limit db unique).rows) more))
          | inr done ↦ rw done (first-Pruned stuck limit db unique (ground arith))
        ]))
]
