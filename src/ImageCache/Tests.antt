-- ===== src/ImageCache/Tests.antt =====
-- Three images over the limit, and a download.
use scrob.Prelude.{
  ℕ, ◌≡◌, refl, true, false, some, List, [], ◌∷◌, arith, map, contains, nat_eq, pair_eq,
}
use scrob.Prelude.Sorting.{sort_by, insert_by}
use scrob.Prelude.Text.{Text, text_eq, codes}
use scrob.PushState.Save.{slices, take, drop}
use scrob.ImageCache.{
  ImageCache, Cache, ondemand, collected, lstrip_slash, delete_chunks, unlink, evict, prune_type,
  prune_cache, is_accepted, has_dots, store, begin_download, finish_download, look_up,
}
use scrob.ImageCache.Rows.{IsUnique}
use scrob.ImageCache.Pruned.{prune_cache-Pruned}
use scrob.ImageCache.Stage.{Pruned}
use scrob.ImageCache.Confined.{
  Waiting, Happening, arrives, replied, prunes, happen, run, idle, Sound,
}
use scrob.ImageCache.Sound.{run-Sound}

abbrev image : ℕ → Text → ℕ → ℕ → ImageCache
image id image_type bytes at = record {
  id = id;
  path = codes "/a.jpg";
  size = codes "w500";
  image_type = image_type;
  file_size = bytes;
  last_accessed = at;
}

abbrev full : Cache
full = record {
  rows = image 1 ondemand 60 20 ∷ image 2 ondemand 50 10 ∷ image 3 collected 40 5 ∷ [];
  next_id = 4;
  files = [];
}

full-IsUnique : IsUnique full.rows
full-IsUnique i = ground arith

-- The older image on demand goes, not the collected one, which is older still.
pruned_once : map (λ r. r.id) (prune_cache (λ f. false) (some 100) full).rows ≡ 1 ∷ 3 ∷ []
unfolding prune_cache prune_type evict delete_chunks slices take drop unlink sort_by insert_by
    contains lstrip_slash
pruned_once = refl

prune_cache-Pruned_example : Pruned 100 full.rows (prune_cache (λ f. false) (some 100) full).rows
prune_cache-Pruned_example = prune_cache-Pruned (λ f. false) 100 full full-IsUnique

traversal_refused : is_accepted (codes "w500") (codes "/../../etc/passwd") ≡ false
unfolding is_accepted has_dots contains
traversal_refused = refl

poster_accepted : is_accepted (codes "w500") (codes "/a.jpg") ≡ true
unfolding is_accepted has_dots contains
poster_accepted = refl

abbrev poster : Waiting
poster = record { size = codes "w500"; path = codes "/a.jpg"; image_type = ondemand }

abbrev outside : Waiting
outside = record { size = codes "w500"; path = codes "/../a.jpg"; image_type = ondemand }

-- The poster is asked for twice before the first reply, and a path with dots in between.
abbrev requests : List Happening
requests =
    arrives 5 poster
    ∷ arrives 6 outside
    ∷ arrives 7 poster
    ∷ replied 8 1 (some 70)
    ∷ replied 9 0 (some 70)
    ∷ prunes (λ f. false) (some 100)
    ∷ []

downloaded :
    (map (λ r. r.id) (run requests idle).cache.rows ≡ 1 ∷ [])
    × ((run requests idle).cache.files ≡ (codes "w500", codes "a.jpg") ∷ [])
    × ((run requests idle).waiting ≡ [])
unfolding happen begin_download finish_download store is_accepted has_dots contains look_up
    lstrip_slash prune_cache
downloaded = (refl, refl, refl)

run-Sound_example : Sound (run requests idle).cache
run-Sound_example = run-Sound requests
