-- ===== src/Merge.antt =====
-- The merging of two rows of one episode: `_merge_episode_media` and
-- `reconcile_divergent_episode_media` of backend/core/episode_order.py. Tables are lists of rows.
pub mod Adopt
pub mod Adopted
pub mod Merged
pub mod Reconcile
mod Tests
use scrob.Prelude.{
  ℕ, ◌+◌, String, Bool, true, false, not, ◌&&◌, ◌||◌, Option, none, some, List, [], ◌∷◌, filter,
  map, any, find?, if◌then◌else◌, ◌==◌, nat_eq, string_eq, pair_eq, contains,
}

-- A row of rewatch_progress, playback_progress, ratings or list_items: its id, the rewatch, user or
-- list that owns it, and the media.
pub record Owned : Type 0 where
  pub id : ℕ
  pub owner : ℕ
  pub media_id : ℕ

pub record Event : Type 0 where
  pub id : ℕ
  pub user_id : ℕ
  pub media_id : ℕ

-- `source` is the number of the enumeration's member; a null `source_id` is a text of its own.
pub record CollectionFile : Type 0 where
  pub id : ℕ
  pub collection_id : ℕ
  pub source : ℕ
  pub source_id : String

-- A comment on an episode, by the identity that it names.
pub record EpisodeComment : Type 0 where
  pub tmdb_id : Option ℕ
  pub season_number : Option ℕ
  pub episode_number : Option ℕ

-- A row of playback_sessions, connection_push_states, plex_pending_pushes or media_translations, which
-- `_merge_episode_media` leaves where they are.
pub record Dependent : Type 0 where
  pub id : ℕ
  pub media_id : ℕ

pub record Episode : Type 0 where
  pub id : ℕ
  pub show_id : Option ℕ
  pub tmdb_id : Option ℕ
  pub tvdb_id : Option ℕ
  pub season_number : Option ℕ
  pub episode_number : Option ℕ

pub record Db : Type 0 where
  pub events : List Event
  pub rewatch_progress : List Owned
  pub playback_progress : List Owned
  pub ratings : List Owned
  pub list_items : List Owned
  pub collections : List Owned
  pub files : List CollectionFile
  pub comments : List EpisodeComment
  pub playback_sessions : List Dependent
  pub push_states : List Dependent
  pub pending_pushes : List Dependent
  pub translations : List Dependent
  pub episodes : List Episode

abbrev pub is_at : ℕ → ℕ → Owned → Bool
is_at owner media_id r = r.owner == owner && r.media_id == media_id

abbrev pub delete_row : ℕ → List Owned → List Owned
delete_row id t = filter (λ r. not (r.id == id)) t

abbrev pub move_row : ℕ → ℕ → List Owned → List Owned
move_row id media_id t = map (λ r. if r.id == id then record r { media_id = media_id } else r) t

-- One round of the loops: a row that clashes is dropped, any other is adopted.
unfoldable pub adopt_row : ℕ → Owned → List Owned → List Owned
adopt_row canonical row t =
    if any (is_at row.owner canonical) t then delete_row row.id t else move_row row.id canonical t

unfoldable pub adopt_rows : ℕ → List Owned → List Owned → List Owned
adopt_rows canonical [] t = t
adopt_rows canonical (row ∷ rows) t = adopt_rows canonical rows (adopt_row canonical row t)

abbrev pub at_media : ℕ → List Owned → List Owned
at_media media_id t = filter (λ r. r.media_id == media_id) t

-- The loop over the rows of `divergent`.
unfoldable pub adopt : ℕ → ℕ → List Owned → List Owned
adopt canonical divergent t = adopt_rows canonical (at_media divergent t) t

abbrev pub file_key : CollectionFile → ℕ × String
file_key f = (f.source, f.source_id)

-- The files of a clashing entry, one after another; `have` holds the keys of the entry that stays.
unfoldable pub move_file :
    ℕ
    → CollectionFile
    → List (ℕ × String) × List CollectionFile
    → List (ℕ × String) × List CollectionFile
move_file kept f (have, files) =
    if contains have (file_key f) then (have, filter (λ g. not (g.id == f.id)) files) else (
      file_key f ∷ have,
      map (λ g. if g.id == f.id then record g { collection_id = kept } else g) files,
    )

unfoldable pub move_files :
    ℕ → List CollectionFile → List (ℕ × String) × List CollectionFile → List CollectionFile
move_files kept [] s = s.1
move_files kept (f ∷ fs) s = move_files kept fs (move_file kept f s)

abbrev pub files_of : ℕ → List CollectionFile → List CollectionFile
files_of collection_id files = filter (λ f. f.collection_id == collection_id) files

-- The files after the round for one entry: those left on a dropped entry go with it.
unfoldable pub adopt_files :
    Bool → ℕ → Owned → List Owned → List CollectionFile → List CollectionFile
adopt_files keep canonical row collections files =
    elim (find? (is_at row.owner canonical) collections) [
      | none ↦ files
      | some clash ↦
          (let moved =
              if keep
              then move_files clash.id (files_of row.id files)
                  (map file_key (files_of clash.id files), files)
              else files in
            filter (λ f. not (f.collection_id == row.id)) moved)
    ]

unfoldable pub adopt_collections :
    Bool → ℕ → List Owned → List Owned → List CollectionFile → List Owned × List CollectionFile
adopt_collections keep canonical [] collections files = (collections, files)
adopt_collections keep canonical (row ∷ rows) collections files =
    adopt_collections keep canonical rows (adopt_row canonical row collections)
      (adopt_files keep canonical row collections files)

-- `a = b` of two nullable columns.
abbrev pub sql_eq : Option ℕ → Option ℕ → Bool
sql_eq (some a) (some b) = a == b
sql_eq _ _ = false

-- `column == value` where the value may be None, which asks for null.
abbrev pub is_value : Option ℕ → Option ℕ → Bool
is_value none none = true
is_value (some a) (some b) = a == b
is_value _ _ = false

abbrev pub rekey : Episode → Episode → EpisodeComment → EpisodeComment
rekey canonical divergent c =
    if is_value c.tmdb_id divergent.tmdb_id
      && is_value c.season_number divergent.season_number
      && is_value c.episode_number divergent.episode_number
    then record {
      tmdb_id = canonical.tmdb_id;
      season_number = canonical.season_number;
      episode_number = canonical.episode_number;
    }
    else c

-- `ondelete="CASCADE"`: the rows go with their media.
abbrev pub cascade : ℕ → List Dependent → List Dependent
cascade media_id t = filter (λ r. not (r.media_id == media_id)) t

unfoldable pub merge_episode_media : Bool → Bool → Episode → Episode → Db → Db
merge_episode_media keep_files rekey_comments canonical divergent db =
    let adopted = adopt canonical.id divergent.id in
    let (collections, files) =
      adopt_collections keep_files canonical.id (at_media divergent.id db.collections)
        db.collections db.files in
    record {
      events =
          map (λ e. if e.media_id == divergent.id then record e { media_id = canonical.id } else e)
            db.events;
      rewatch_progress = adopted db.rewatch_progress;
      playback_progress = adopted db.playback_progress;
      ratings = adopted db.ratings;
      list_items = adopted db.list_items;
      collections = collections;
      files = files;
      comments =
          if rekey_comments then map (rekey canonical divergent) db.comments else db.comments;
      playback_sessions = cascade divergent.id db.playback_sessions;
      push_states = cascade divergent.id db.push_states;
      pending_pushes = cascade divergent.id db.pending_pushes;
      translations = cascade divergent.id db.translations;
      episodes = filter (λ e. not (e.id == divergent.id)) db.episodes;
    }

-- A row of `EpisodeOrderMapping`.
pub record Mapping : Type 0 where
  pub tmdb_season_number : ℕ
  pub tmdb_episode_number : ℕ
  pub tvdb_id : ℕ
  pub tvdb_season_number : ℕ
  pub tvdb_episode_number : ℕ

abbrev pub is_position : ℕ → ℕ → ℕ → Episode → Bool
is_position show season episode e =
    sql_eq e.show_id (some show)
    && sql_eq e.season_number (some season)
    && sql_eq e.episode_number (some episode)

-- The TVDB id, which old rows hold in `tmdb_id`.
abbrev pub tvdb_identity : Episode → Option ℕ
tvdb_identity e = elim e.tvdb_id [ some n ↦ some n | none ↦ e.tmdb_id ]

pub record Stats : Type 0 where
  pub merged : ℕ
  pub checked : ℕ

-- `fails` says which merges raise; such a merge is rolled back.
module _ (fails : Episode → Episode → Bool) (show : ℕ) where
  unfoldable pub merge_pair : Mapping → Db × Stats → Db × Stats
  merge_pair m (db, stats) =
      elim (find? (is_position show m.tmdb_season_number m.tmdb_episode_number) db.episodes) [
        | none ↦ (db, stats)
        | some canonical ↦
            elim (find? (is_position show m.tvdb_season_number m.tvdb_episode_number) db.episodes) [
              | none ↦ (db, stats)
              | some divergent ↦
                  if canonical.id == divergent.id
                    || not (is_value (tvdb_identity divergent) (some m.tvdb_id))
                    || fails canonical divergent
                  then (db, stats)
                  else (
                    merge_episode_media false true canonical divergent db,
                    record stats { merged = stats.merged + 1 },
                  )
            ]
      ]

  unfoldable pub reconcile_mappings : List Mapping → Db × Stats → Db × Stats
  reconcile_mappings [] s = s
  reconcile_mappings (m ∷ mappings) (db, stats) = reconcile_mappings mappings (
      if m.tmdb_season_number == m.tvdb_season_number
        && m.tmdb_episode_number == m.tvdb_episode_number
      then (db, stats)
      else merge_pair m (db, record stats { checked = stats.checked + 1 }))
