-- ===== src/ImageCache/Kept.antt =====
-- The parts of a download and a pruning keep a cache sound.
use mathlib.Core.Path.{subst}
use scrob.Prelude.{
  ℕ, ◌+◌, ◌≤◌, ◌<◌, ◌≡◌, refl, Bool, true, false, not, Option, none, some, List, [], ◌∷◌, arith,
  filter, length, find?, leb, ltb, if◌then◌else◌, ◌==◌, nat_eq, pair_eq, contains, All, Bool-cases,
  Option-cases, inl, inr,
}
use scrob.Prelude.Clock.{Time}
use scrob.Prelude.Sorting.{sort_by}
use scrob.Prelude.Sums.{sum}
use scrob.Prelude.Text.{Text, text_eq}
use scrob.PushState.Save.{slices}
use scrob.ImageCache.{
  ImageCache, File, Cache, max_in_params, lstrip_slash, local_path, by_access, ondemand, collected,
  total_size, delete_chunks, evict, prune_type, prune_cache, has_dots, is_rooted, is_accepted,
  is_entry, touch, look_up, store,
}
use scrob.ImageCache.Rows.{count_id}
use scrob.ImageCache.Confined.{
  count_key, IsConfined, Sound, Smaller-Sound, filter-Smaller, chunks-Smaller, evict-Confined,
}

type-Sound :
    (stuck : File → Bool) (t : Text) (total limit : ℕ) (db : Cache)
    → Sound db
    → Sound (prune_type stuck t total limit db).1
unfolding prune_type
type-Sound stuck t total limit db h =
    let rows = sort_by by_access (filter (λ r. r.image_type == t) db.rows) in
    let ids = (evict stuck limit rows total db.files).2 in
    Smaller-Sound db (delete_chunks (slices (length ids) max_in_params ids) db.rows)
      (evict stuck limit rows total db.files).1
      (chunks-Smaller (slices (length ids) max_in_params ids) db.rows)
      (evict-Confined stuck limit rows total db.files h.confined) h

pub prune-Sound :
    (stuck : File → Bool) (limit : Option ℕ) (db : Cache)
    → Sound db
    → Sound (prune_cache stuck limit db)
unfolding prune_cache
prune-Sound stuck none db h = h
prune-Sound stuck (some limit) db h = elim (Bool-cases (leb (total_size db.rows) limit)) [
  | inl t ↦ rw t h
  | inr f ↦
      let one = type-Sound stuck ondemand (total_size db.rows) limit db h in
      let s = prune_type stuck ondemand (total_size db.rows) limit db in
      rw f (elim (Bool-cases (ltb limit s.0)) [
        | inl more ↦ rw more (type-Sound stuck collected s.0 limit s.1 one)
        | inr done ↦ rw done one
      ])
]

touch-sum :
    (f : ImageCache → ℕ) (id now : ℕ) (rows : List ImageCache)
    → ((r : ImageCache) → f (record r { last_accessed = now }) ≡ f r)
    → sum f (touch id now rows) ≡ sum f rows
touch-sum f id now [] h = refl
touch-sum f id now (r ∷ rows) h = ground (arith, h r, touch-sum f id now rows h)

touch-ids :
    (id now n : ℕ) (rows : List ImageCache)
    → All (λ r. r.id < n) rows
    → All (λ r. r.id < n) (touch id now rows)
touch-ids id now n [] h = tt
touch-ids id now n (r ∷ rows) (h, hs) = elim (Bool-cases (r.id == id)) [
  | inl t ↦ rw t (h, touch-ids id now n rows hs)
  | inr f ↦ rw f (h, touch-ids id now n rows hs)
]

touch-Sound :
    (id now : ℕ) (db : Cache) → Sound db → Sound (record db { rows = touch id now db.rows })
touch-Sound id now db h = record {
  ids = touch-ids id now db.next_id db.rows h.ids;
  unique =
      λ i. rw (touch-sum (λ r. if r.id == i then 1 else 0) id now db.rows (λ r. refl)) (h.unique i);
  keys = λ p z.
      rw (touch-sum (λ r. if is_entry p z r then 1 else 0) id now db.rows (λ r. refl)) (h.keys p z);
  confined = h.confined;
}

pub look_up-Sound :
    (now : Time) (size path : Text) (db : Cache) → Sound db → Sound (look_up now size path db).0
unfolding look_up
look_up-Sound now size path db h = elim (Option-cases (find? (is_entry path size) db.rows)) [
  | inl n ↦ rw (n, look_up) h
  | inr (r, s) ↦
      rw (s, look_up)
        (elim (Bool-cases (contains db.files (local_path size path))) [
          | inl t ↦ rw t (touch-Sound r.id now db h)
          | inr f ↦ rw f (
              Smaller-Sound db (filter (λ x. not (x.id == r.id)) db.rows) db.files
                (filter-Smaller (λ x. not (x.id == r.id)) db.rows) h.confined h)
        ])
]

-- An accepted path names a file of its size's directory.
lstrip-unrooted : (path : Text) → is_rooted (lstrip_slash path) ≡ false
unfolding lstrip_slash
lstrip-unrooted [] = refl
lstrip-unrooted (c ∷ path) = ground (arith, lstrip-unrooted path)

tail-no_dots : (c : ℕ) (path : Text) → has_dots (c ∷ path) ≡ false → has_dots path ≡ false
unfolding has_dots
tail-no_dots c [] h = refl
tail-no_dots c (d ∷ path) h = ground arith

lstrip-no_dots : (path : Text) → has_dots path ≡ false → has_dots (lstrip_slash path) ≡ false
unfolding lstrip_slash
lstrip-no_dots [] h = h
lstrip-no_dots (c ∷ path) h = elim (Bool-cases (c == b'/')) [
  | inl t ↦ rw (t, lstrip_slash) (lstrip-no_dots path (tail-no_dots c path h))
  | inr f ↦ rw (f, lstrip_slash) h
]

accepted-Confined :
    (size path : Text) → is_accepted size path ≡ true → IsConfined (local_path size path)
unfolding is_accepted
accepted-Confined size path h =
    (ground arith, lstrip-no_dots path (ground arith), lstrip-unrooted path)

absent :
    (path size : Text) (rows : List ImageCache)
    → find? (is_entry path size) rows ≡ none
    → count_key path size rows ≡ 0
absent path size [] h = refl
absent path size (r ∷ rows) h = ground (arith, absent path size rows)

fresh_id : (n : ℕ) (rows : List ImageCache) → All (λ r. r.id < n) rows → count_id n rows ≡ 0
fresh_id n [] h = refl
fresh_id n (r ∷ rows) (h, hs) = ground (arith, h, fresh_id n rows hs)

ids_weaken :
    (n : ℕ) (rows : List ImageCache) → All (λ r. r.id < n) rows → All (λ r. r.id < n + 1) rows
ids_weaken n [] h = tt
ids_weaken n (r ∷ rows) (h, hs) = (omega (arith, h), ids_weaken n rows hs)

module _ (now : Time) (size path image_type : Text) (bytes : ℕ) (db : Cache)
    (ok : is_accepted size path ≡ true) (h : Sound db) where
  abbrev new : ImageCache
  new = record {
    id = db.next_id;
    path = path;
    size = size;
    image_type = image_type;
    file_size = bytes;
    last_accessed = now;
  }

  abbrev files : List File
  files =
      if contains db.files (local_path size path) then db.files else local_path size path ∷ db.files

  files-Confined : All IsConfined files
  files-Confined = elim (Bool-cases (contains db.files (local_path size path))) [
    | inl t ↦ rw t h.confined
    | inr f ↦ rw f (accepted-Confined size path ok, h.confined)
  ]

  new_unique : (i : ℕ) → count_id i (new ∷ db.rows) ≤ 1
  new_unique i = elim (Bool-cases (db.next_id == i)) [
    | inl t ↦
        let e : db.next_id ≡ i = ground arith in
        rw t (
          subst (λ j. 1 + count_id j db.rows ≤ 1) e
            (omega (arith, fresh_id db.next_id db.rows h.ids)))
    | inr f ↦ rw f (omega (arith, h.unique i))
  ]

  new-keys :
      find? (is_entry path size) db.rows ≡ none → (p z : Text) → count_key p z (new ∷ db.rows) ≤ 1
  new-keys n p z = elim (Bool-cases (is_entry p z new)) [
    | inl t ↦
        let e : path ≡ p = (text_eq.same_iff path p).0 (ground arith) in
        let e' : size ≡ z = (text_eq.same_iff size z).0 (ground arith) in
        rw t (
          subst (λ q. 1 + count_key q z db.rows ≤ 1) e
            (subst (λ y. 1 + count_key path y db.rows ≤ 1) e'
              (omega (arith, absent path size db.rows n))))
    | inr f ↦ rw f (omega (arith, h.keys p z))
  ]

  pub store-Sound : Sound (store now size path image_type bytes db)
  unfolding store
  store-Sound = elim (Option-cases (find? (is_entry path size) db.rows)) [
    | inl n ↦
        rw (n, store)
          (record {
            ids = (omega arith, ids_weaken db.next_id db.rows h.ids);
            unique = new_unique;
            keys = new-keys n;
            confined = files-Confined;
          })
    | inr (r, s) ↦
        rw (s, store)
          (let old = touch-Sound r.id now db h in
            record {
              ids = ids_weaken db.next_id (touch r.id now db.rows) old.ids;
              unique = old.unique;
              keys = old.keys;
              confined = files-Confined;
            })
  ]
