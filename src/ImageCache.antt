-- ===== src/ImageCache.antt =====
-- The cache of images: backend/core/image_cache.py, with the rows of `image_cache` and the files
-- under `data_dir / "image_cache"`, each named by its size and its path without leading slashes.
-- Limits are in bytes.
pub mod Rows
pub mod Pruning
pub mod Stage
pub mod Pruned
pub mod Confined
pub mod Kept
pub mod Sound
mod Tests
use scrob.Prelude.{
  ℕ, ◌+◌, ◌-◌, ◌*◌, String, Bool, true, false, not, ◌&&◌, ◌||◌, Option, none, some, List, [], ◌∷◌,
  filter, map, any, find?, length, leb, ltb, if◌then◌else◌, ◌==◌, nat_eq, string_eq, pair_eq,
  contains,
}
use scrob.Prelude.Clock.{Time, minutes}
use scrob.Prelude.Sorting.{sort_by}
use scrob.Prelude.Sums.{sum}
use scrob.Prelude.Text.{Text, text_eq, codes}
use scrob.PushState.Save.{slices}

pub record ImageCache : Type 0 where
  pub id : ℕ
  pub path : Text
  pub size : Text
  pub image_type : Text
  pub file_size : ℕ
  pub last_accessed : Time

abbrev pub File : Type 0
File = Text × Text

pub record Cache : Type 0 where
  pub rows : List ImageCache
  pub next_id : ℕ
  pub files : List File

abbrev pub prune_interval : ℕ
prune_interval = minutes 5

abbrev pub max_in_params : ℕ
max_in_params = 30000

abbrev pub ondemand : Text
ondemand = codes "ondemand"

abbrev pub collected : Text
collected = codes "collected"

-- `path.lstrip("/")`
unfoldable pub lstrip_slash : Text → Text
lstrip_slash [] = []
lstrip_slash (c ∷ path) = let rest = lstrip_slash path in if c == b'/' then rest else c ∷ path

abbrev pub local_path : Text → Text → File
local_path size path = (size, lstrip_slash path)

abbrev pub by_access : ImageCache → ImageCache → Bool
by_access a b = leb a.last_accessed b.last_accessed

abbrev pub total_size : List ImageCache → ℕ
total_size rows = sum (λ r. r.file_size) rows

-- One `delete` for each chunk.
unfoldable pub delete_chunks : List (List ℕ) → List ImageCache → List ImageCache
delete_chunks [] rows = rows
delete_chunks (ids ∷ chunks) rows =
    delete_chunks chunks (filter (λ r. not (contains ids r.id)) rows)

-- `stuck` says of which files the removal raises.
module _ (stuck : File → Bool) where
  unfoldable pub unlink : File → List File → List File
  unlink file files = if stuck file then files else filter (λ f. not (f == file)) files

  -- The loop of `_prune_type`: the total, the files and the ids to delete.
  unfoldable pub evict : ℕ → List ImageCache → ℕ → List File → ℕ × List File × List ℕ
  evict limit_bytes [] total files = (total, files, [])
  evict limit_bytes (row ∷ rows) total files = elim (leb total limit_bytes) [
    | true ↦ (total, files, [])
    | false ↦
        (let (left, rest, ids) =
            evict limit_bytes rows (total - row.file_size)
              (unlink (local_path row.size row.path) files) in
          (left, rest, row.id ∷ ids))
  ]

  unfoldable pub prune_type : Text → ℕ → ℕ → Cache → ℕ × Cache
  prune_type image_type total limit_bytes db =
      let rows = sort_by by_access (filter (λ r. r.image_type == image_type) db.rows) in
      let (left, files, ids) = evict limit_bytes rows total db.files in
      (
        left,
        record db {
          rows = delete_chunks (slices (length ids) max_in_params ids) db.rows;
          files = files;
        },
      )

  -- No limit is none.
  unfoldable pub prune_cache : Option ℕ → Cache → Cache
  prune_cache none db = db
  prune_cache (some limit_bytes) db =
      if leb (total_size db.rows) limit_bytes
      then db
      else (let (left, pruned) = prune_type ondemand (total_size db.rows) limit_bytes db in
          if ltb limit_bytes left then (prune_type collected left limit_bytes pruned).1 else pruned)

  -- With the global `_last_prune_at`.
  unfoldable pub prune_cache_bg : Time → Option ℕ → Time × Cache → Time × Cache
  prune_cache_bg now none s = s
  prune_cache_bg now (some limit_bytes) (last_prune_at, db) =
      if ltb now (last_prune_at + prune_interval)
      then (last_prune_at, db)
      else (now, prune_cache (some limit_bytes) db)

abbrev pub tvdb_size : Text
tvdb_size = codes "tvdb"

abbrev pub allowed_sizes : List Text
allowed_sizes =
    codes "w92"
    ∷ codes "w154"
    ∷ codes "w185"
    ∷ codes "w342"
    ∷ codes "w500"
    ∷ codes "w780"
    ∷ codes "w1280"
    ∷ codes "original"
    ∷ []

-- `".." in path`
unfoldable pub has_dots : Text → Bool
has_dots [] = false
has_dots (c ∷ []) = false
has_dots (c ∷ d ∷ path) = c == b'.' && d == b'.' || has_dots (d ∷ path)

abbrev pub is_rooted : Text → Bool
is_rooted [] = false
is_rooted (c ∷ path) = c == b'/'

-- The three early returns.
unfoldable pub is_accepted : Text → Text → Bool
is_accepted size path =
    if not (size == tvdb_size) && not (contains allowed_sizes size)
    then false
    else if has_dots path || not (is_rooted path)
    then false
    else not (ltb 255 (length path))

abbrev pub is_entry : Text → Text → ImageCache → Bool
is_entry path size r = r.path == path && r.size == size

abbrev pub touch : ℕ → Time → List ImageCache → List ImageCache
touch id now rows = map (λ r. if r.id == id then record r { last_accessed = now } else r) rows

-- Up to the request: the file that is there, or the cache without a stale entry.
unfoldable pub look_up : Time → Text → Text → Cache → Cache × Bool
look_up now size path db = elim (find? (is_entry path size) db.rows) [
  | none ↦ (db, false)
  | some cached ↦
      if contains db.files (local_path size path)
      then (record db { rows = touch cached.id now db.rows }, true)
      else (record db { rows = filter (λ r. not (r.id == cached.id)) db.rows }, false)
]

-- After a reply 200 of that many bytes: the file is written and the entry is inserted, or the
-- entry that another request inserted is touched.
unfoldable pub store : Time → Text → Text → Text → ℕ → Cache → Cache
store now size path image_type bytes db = record db {
  files =
      if contains db.files (local_path size path)
      then db.files
      else local_path size path ∷ db.files;
  next_id = db.next_id + 1;
  rows = elim (find? (is_entry path size) db.rows) [
    | some existing ↦ touch existing.id now db.rows
    | none ↦
        record {
          id = db.next_id;
          path = path;
          size = size;
          image_type = image_type;
          file_size = bytes;
          last_accessed = now;
        }
        ∷ db.rows
  ];
}

-- What a request answers, if it need not wait for the origin.
pub data Answer : Type 0 where
  returns : Option File → Answer
  waits : Answer

-- `download_and_cache_image` up to its request to the origin: the early returns, and the cache.
unfoldable pub begin_download : Time → Text → Text → Cache → Cache × Answer
begin_download now size path db = elim (is_accepted size path) [
  | false ↦ (db, returns none)
  | true ↦
      (let (found, is_there) = look_up now size path db in
        (found, if is_there then returns (some (local_path size path)) else waits))
]

-- The rest of it; `reply` is the number of bytes of a reply 200, and none for any other outcome.
unfoldable pub finish_download : Option ℕ → Time → Text → Text → Text → Cache → Cache × Option File
finish_download none now size path image_type db = (db, none)
finish_download (some bytes) now size path image_type db =
    (store now size path image_type bytes db, some (local_path size path))
