-- ===== src/ImageCache/Pruning.antt =====
-- What `_prune_type` of backend/core/image_cache.py evicts and what it leaves.
use scrob.Prelude.{
  ℕ, ◌+◌, ◌-◌, ◌≤◌, ◌<◌, ◌≡◌, refl, ap, Bool, true, false, not, List, [], ◌∷◌, ◌++◌, arith, filter,
  leb, leb→le, if◌then◌else◌, ◌==◌, nat_eq, All, All-map, filter-All, Bool-cases, ◌⊎◌, inl, inr,
}
use scrob.Prelude.Sorting.{sort_by, sort-All, Sorted, sort-Sorted}
use scrob.Prelude.Sums.{sum, sum-append, sum-parts, sort-sum}
use scrob.Prelude.Text.{Text, text_eq}
use scrob.ImageCache.{
  ImageCache, File, Cache, local_path, by_access, total_size, unlink, evict, prune_type,
}
use scrob.ImageCache.Rows.{count_id, ids_of, IsUnique, deleted-sum}

module _ (stuck : File → Bool) (limit : ℕ) where
  -- The rows that the loop evicts, those that it leaves, and the total that it returns.
  unfoldable pub evicted : List ImageCache → ℕ → List ImageCache
  evicted [] total = []
  evicted (r ∷ rows) total = elim (leb total limit) [
    | true ↦ []
    | false ↦ r ∷ evicted rows (total - r.file_size)
  ]

  unfoldable pub spared : List ImageCache → ℕ → List ImageCache
  spared [] total = []
  spared (r ∷ rows) total = elim (leb total limit) [
    | true ↦ r ∷ rows
    | false ↦ spared rows (total - r.file_size)
  ]

  pub evict-ids :
      (rows : List ImageCache) (total : ℕ) (files : List File)
      → (evict stuck limit rows total files).2 ≡ ids_of (evicted rows total)
  unfolding evict evicted
  evict-ids [] total files = refl
  evict-ids (r ∷ rows) total files = elim (Bool-cases (leb total limit)) [
    | inl t ↦ rw (t, evict, evicted) refl
    | inr f ↦
        rw (f, evict, evicted)
          (ap (λ ids. r.id ∷ ids)
            (evict-ids rows (total - r.file_size) (unlink stuck (local_path r.size r.path) files)))
  ]

  pub evict-parts :
      (g : ImageCache → ℕ) (rows : List ImageCache) (total : ℕ)
      → sum g (evicted rows total) + sum g (spared rows total) ≡ sum g rows
  unfolding evicted spared
  evict-parts g [] total = refl
  evict-parts g (r ∷ rows) total = elim (Bool-cases (leb total limit)) [
    | inl t ↦ rw (t, evicted, spared) (omega arith)
    | inr f ↦ rw (f, evicted, spared) (omega (arith, evict-parts g rows (total - r.file_size)))
  ]

  pub evict-total :
      (rows : List ImageCache) (total : ℕ) (files : List File)
      → total_size rows ≤ total
      → (evict stuck limit rows total files).0 + total_size (evicted rows total) ≡ total
  unfolding evict evicted
  evict-total [] total files h = omega arith
  evict-total (r ∷ rows) total files h = elim (Bool-cases (leb total limit)) [
    | inl t ↦ rw (t, evict, evicted) (omega arith)
    | inr f ↦
        rw (f, evict, evicted)
          (omega (
            arith,
            evict-total rows (total - r.file_size) (unlink stuck (local_path r.size r.path) files)
                (omega arith),
          ))
  ]

  pub evict-fits :
      (rows : List ImageCache) (total : ℕ) (files : List File)
      → ((evict stuck limit rows total files).0 ≤ limit) ⊎ (spared rows total ≡ [])
  unfolding evict spared
  evict-fits [] total files = inr refl
  evict-fits (r ∷ rows) total files = elim (Bool-cases (leb total limit)) [
    | inl t ↦ rw (t, evict, spared) (inl (ground arith))
    | inr f ↦
        rw (f, evict, spared)
          (evict-fits rows (total - r.file_size) (unlink stuck (local_path r.size r.path) files))
  ]

  -- The last evicted row had to go.
  pub evict-needed :
      (rows : List ImageCache) (total : ℕ) (files : List File)
      → total_size rows ≤ total
      → (evicted rows total ≡ [])
        ⊎ ((i : ℕ) × (1 ≤ count_id i (evicted rows total))
            × (limit
                < (evict stuck limit rows total files).0
                  + sum (λ r. if r.id == i then r.file_size else 0) (evicted rows total)))
  unfolding evict evicted
  evict-needed [] total files h = inl refl
  evict-needed (r ∷ rows) total files h = elim (Bool-cases (leb total limit)) [
    | inl t ↦ rw (t, evicted) (inl refl)
    | inr f ↦
        let rest = unlink stuck (local_path r.size r.path) files in
        let now = evict-total rows (total - r.file_size) rest (omega arith) in
        rw (f, evict, evicted)
          (elim (evict-needed rows (total - r.file_size) rest (omega arith)) [
            | inl last ↦
                let none_more : total_size (evicted rows (total - r.file_size)) ≡ 0 =
                  rw last refl in
                inr (r.id, ground arith, ground arith)
            | inr (i, there, big) ↦ inr (i, ground arith, ground arith)
          ])
  ]

  -- There is a time up to which rows go, and from which they stay.
  pub evict-cut :
      (b : ℕ) (rows : List ImageCache) (total : ℕ)
      → All (λ r. b ≤ r.last_accessed) rows
      → Sorted by_access rows
      → (c : ℕ) × (b ≤ c)
        × All (λ r. r.last_accessed ≤ c) (evicted rows total)
        × All (λ r. c ≤ r.last_accessed) (spared rows total)
  unfolding evicted spared
  evict-cut b [] total h s = (b, omega arith, tt, tt)
  evict-cut b (r ∷ rows) total (h, hs) (s, ss) = elim (Bool-cases (leb total limit)) [
    | inl t ↦ rw (t, evicted, spared) (b, omega arith, tt, (h, hs))
    | inr f ↦
        let (c, le, gone, kept) =
          evict-cut r.last_accessed rows (total - r.file_size)
            (All-map rows (λ x e. leb→le r.last_accessed x.last_accessed e) s) ss in
        rw (f, evicted, spared) (c, omega arith, (omega arith, gone), kept)
  ]

abbrev pub of_type : Text → ImageCache → Bool
of_type t r = r.image_type == t

-- What one pass over a type makes of the table.
module _ (stuck : File → Bool) (t : Text) (total limit : ℕ) (db : Cache) where
  abbrev pub candidates : List ImageCache
  candidates = sort_by by_access (filter (of_type t) db.rows)

  abbrev pub others : List ImageCache
  others = filter (λ r. not (of_type t r)) db.rows

  abbrev pub gone : List ImageCache
  gone = evicted stuck limit candidates total

  abbrev pub stays : List ImageCache
  stays = spared stuck limit candidates total ++ others

  pub type-parts : (g : ImageCache → ℕ) → sum g gone + sum g stays ≡ sum g db.rows
  type-parts g = omega (
    arith,
    evict-parts stuck limit g candidates total,
    sort-sum by_access g (filter (of_type t) db.rows),
    sum-parts g (of_type t) db.rows,
    sum-append g (spared stuck limit candidates total) others,
  )

  pub candidates-le : (g : ImageCache → ℕ) → sum g candidates ≤ sum g db.rows
  candidates-le g =
      omega
        (arith, sort-sum by_access g (filter (of_type t) db.rows), sum-parts g (of_type t) db.rows)

  pub returned_total :
      (prune_type stuck t total limit db).0 ≡ (evict stuck limit candidates total db.files).0
  unfolding prune_type
  returned_total = refl

  -- Any measure of the rows that are left.
  pub type-sum :
      (f : ImageCache → ℕ)
      → IsUnique db.rows
      → sum f (prune_type stuck t total limit db).1.rows ≡ sum f stays
  unfolding prune_type
  type-sum f unique =
      rw (evict-ids stuck limit candidates total db.files)
        (deleted-sum f gone stays db.rows type-parts unique)

  evicted_keep :
      (P : ImageCache → Type 0) (rows : List ImageCache) (n : ℕ)
      → All P rows
      → All P (evicted stuck limit rows n)
  unfolding evicted
  evicted_keep P [] n h = tt
  evicted_keep P (r ∷ rows) n (h, hs) = elim (Bool-cases (leb n limit)) [
    | inl e ↦ rw (e, evicted) tt
    | inr e ↦ rw (e, evicted) (h, evicted_keep P rows (n - r.file_size) hs)
  ]

  -- The rows of the pass's type only are evicted.
  pub gone_of_type : All (λ r. of_type t r ≡ true) gone
  gone_of_type =
      evicted_keep (λ r. of_type t r ≡ true) candidates total
        (sort-All by_access (λ r. of_type t r ≡ true) (filter (of_type t) db.rows)
          (filter-All (of_type t) db.rows))

  pub others-of_type : All (λ r. of_type t r ≡ false) others
  others-of_type =
      All-map others (λ r h. ground arith) (filter-All (λ r. not (of_type t r)) db.rows)

  pub candidates-Sorted : Sorted by_access candidates
  candidates-Sorted =
      sort-Sorted by_access (λ x y h. ground arith) (λ x y z h k. ground arith)
        (filter (of_type t) db.rows)

  pub all_from_zero : (rows : List ImageCache) → All (λ r. 0 ≤ r.last_accessed) rows
  all_from_zero [] = tt
  all_from_zero (r ∷ rows) = (omega arith, all_from_zero rows)
