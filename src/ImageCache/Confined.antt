-- ===== src/ImageCache/Confined.antt =====
-- Requests and prunings that interleave, and what holds of every cache that they leave.
use scrob.Prelude.{
  ℕ, ◌-◌, ◌≤◌, ◌<◌, ◌≡◌, Bool, true, false, not, ◌||◌, Option, none, some, List, [], ◌∷◌, arith,
  filter, leb, if◌then◌else◌, ◌==◌, nat_eq, pair_eq, contains, All, All-filter, Bool-cases, inl,
  inr,
}
use scrob.Prelude.Clock.{Time}
use scrob.Prelude.Sums.{sum}
use scrob.Prelude.Text.{Text, text_eq}
use scrob.ImageCache.{
  ImageCache, File, Cache, local_path, delete_chunks, unlink, evict, prune_cache, tvdb_size,
  allowed_sizes, has_dots, is_rooted, is_entry, Answer, returns, waits, begin_download,
  finish_download,
}
use scrob.ImageCache.Rows.{IsUnique}

-- A request that waits for the origin.
pub record Waiting : Type 0 where
  pub size : Text
  pub path : Text
  pub image_type : Text

-- The cache, and the requests that wait.
pub record Service : Type 0 where
  pub cache : Cache
  pub waiting : List Waiting

-- What happens, in any order: a request arrives, the one of a number is replied to, or a pruning.
pub data Happening : Type 0 where
  arrives : Time → Waiting → Happening
  replied : Time → ℕ → Option ℕ → Happening
  prunes : (File → Bool) → Option ℕ → Happening

abbrev pub nth : ℕ → List Waiting → Option Waiting
nth n [] = none
nth n (w ∷ waiting) = if n == 0 then some w else nth (n - 1) waiting

abbrev pub drop_nth : ℕ → List Waiting → List Waiting
drop_nth n [] = []
drop_nth n (w ∷ waiting) = if n == 0 then waiting else w ∷ drop_nth (n - 1) waiting

-- Only a request that has not returned waits.
abbrev pub queued : Waiting → Answer → List Waiting → List Waiting
queued w (returns file) waiting = waiting
queued w waits waiting = w ∷ waiting

abbrev pub replied_to : Option Waiting → Time → Option ℕ → Cache → Cache
replied_to none now reply db = db
replied_to (some w) now reply db = (finish_download reply now w.size w.path w.image_type db).0

unfoldable pub happen : Happening → Service → Service
happen (arrives now w) s =
    (let (found, answer) = begin_download now w.size w.path s.cache in
      record { cache = found; waiting = queued w answer s.waiting })
happen (replied now n reply) s = record {
  cache = replied_to (nth n s.waiting) now reply s.cache;
  waiting = drop_nth n s.waiting;
}
happen (prunes stuck limit) s = record s { cache = prune_cache stuck limit s.cache }

abbrev pub run : List Happening → Service → Service
run [] s = s
run (e ∷ events) s = run events (happen e s)

abbrev pub empty : Cache
empty = record { rows = []; next_id = 1; files = [] }

abbrev pub idle : Service
idle = record { cache = empty; waiting = [] }

abbrev pub count_key : Text → Text → List ImageCache → ℕ
count_key path size rows = sum (λ r. if is_entry path size r then 1 else 0) rows

-- A file below the directory of its size, which is one of the known ones.
abbrev pub IsConfined : File → Type 0
IsConfined f =
    ((f.0 == tvdb_size || contains allowed_sizes f.0) ≡ true)
    × (has_dots f.1 ≡ false)
    × (is_rooted f.1 ≡ false)

pub record Sound (db : Cache) : Type 0 where
  pub ids : All (λ r. r.id < db.next_id) db.rows
  pub unique : IsUnique db.rows
  pub keys : (path size : Text) → count_key path size db.rows ≤ 1
  pub confined : All IsConfined db.files

-- A table that has lost rows.
pub record Smaller (rows rows' : List ImageCache) : Type 1 where
  pub measure : (f : ImageCache → ℕ) → sum f rows' ≤ sum f rows
  pub each : (P : ImageCache → Type 0) → All P rows → All P rows'

pub Smaller-Sound :
    (db : Cache) (rows : List ImageCache) (files : List File)
    → Smaller db.rows rows
    → All IsConfined files
    → Sound db
    → Sound (record db { rows = rows; files = files })
Smaller-Sound db rows files s c h = record {
  ids = s.each (λ r. r.id < db.next_id) h.ids;
  unique = λ i. omega (arith, s.measure (λ r. if r.id == i then 1 else 0), h.unique i);
  keys = λ p z. omega (arith, s.measure (λ r. if is_entry p z r then 1 else 0), h.keys p z);
  confined = c;
}

filter-le :
    (p : ImageCache → Bool) (f : ImageCache → ℕ) (rows : List ImageCache)
    → sum f (filter p rows) ≤ sum f rows
filter-le p f [] = omega arith
filter-le p f (r ∷ rows) = ground (arith, filter-le p f rows)

pub filter-Smaller : (p : ImageCache → Bool) (rows : List ImageCache) → Smaller rows (filter p rows)
filter-Smaller p rows = record {
  measure = λ f. filter-le p f rows;
  each = λ P h. All-filter P p rows h;
}

pub chunks-Smaller :
    (chunks : List (List ℕ)) (rows : List ImageCache) → Smaller rows (delete_chunks chunks rows)
unfolding delete_chunks
chunks-Smaller [] rows = record { measure = λ f. omega arith; each = λ P h. h }
chunks-Smaller (ids ∷ chunks) rows =
    let one = filter-Smaller (λ r. not (contains ids r.id)) rows in
    let more = chunks-Smaller chunks (filter (λ r. not (contains ids r.id)) rows) in
    record {
      measure = λ f. omega (arith, one.measure f, more.measure f);
      each = λ P h. more.each P (one.each P h);
    }

unlink-Confined :
    (stuck : File → Bool) (f : File) (files : List File)
    → All IsConfined files
    → All IsConfined (unlink stuck f files)
unfolding unlink
unlink-Confined stuck f files h = elim (Bool-cases (stuck f)) [
  | inl t ↦ rw t h
  | inr e ↦ rw e (All-filter IsConfined (λ g. not (g == f)) files h)
]

pub evict-Confined :
    (stuck : File → Bool) (limit : ℕ) (rows : List ImageCache) (total : ℕ) (files : List File)
    → All IsConfined files
    → All IsConfined (evict stuck limit rows total files).1
unfolding evict
evict-Confined stuck limit [] total files h = h
evict-Confined stuck limit (r ∷ rows) total files h = elim (Bool-cases (leb total limit)) [
  | inl t ↦ rw (t, evict) h
  | inr f ↦
      rw (f, evict)
        (evict-Confined stuck limit rows (total - r.file_size)
          (unlink stuck (local_path r.size r.path) files)
          (unlink-Confined stuck (local_path r.size r.path) files h))
]
