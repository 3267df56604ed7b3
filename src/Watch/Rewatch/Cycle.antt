-- ===== src/Watch/Rewatch/Cycle.antt =====
-- The progress rows of rewatch cycles stay tidy.
use scrob.Prelude.{
  String, ◌≡◌, refl, Bool, true, false, not, ◌&&◌, some, List, [], ◌∷◌, ◌++◌, arith, leb, filter,
  any, find?, ◌==◌, nat_eq, Bool-cases, Option-cases, inl, inr, All, All-append, ◌⊎◌, ap, length, ℕ,
  ◌<◌, ◌≤◌,
}
use scrob.Watch.{RewatchProgress, ShowRewatch, Show, Db}
use scrob.Watch.Rewatch.{
  delete_rewatch, progress_count, maybe_complete_rewatch, insert_progress, episode_show,
  get_active_rewatch, record_rewatch_progress, total_aired_episodes,
}

abbrev pub same_key : RewatchProgress → RewatchProgress → Bool
same_key p q = q.rewatch_id == p.rewatch_id && q.media_id == p.media_id

-- The unique constraint on the pair of rewatch and media.
abbrev pub Distinct : List RewatchProgress → Type 0
Distinct [] = Unit
Distinct (p ∷ ps) = (any (same_key p) ps ≡ false) × Distinct ps

abbrev pub known : List ShowRewatch → ℕ → Bool
known rs id = any (λ r. r.id == id) rs

pub record Tidy (db : Db) : Type 0 where
  pub backed : All (λ p. known db.rewatches p.rewatch_id ≡ true) db.rewatch_progress
  pub distinct : Distinct db.rewatch_progress

any-append_one :
    (f : RewatchProgress → Bool) (ps : List RewatchProgress) (p : RewatchProgress)
    → any f ps ≡ false
    → f p ≡ false
    → any f (ps ++ p ∷ []) ≡ false
any-append_one f [] p h k = ground arith
any-append_one f (q ∷ ps) p h k = ground (arith, any-append_one f ps p)

any-last :
    (f : RewatchProgress → Bool) (ps : List RewatchProgress) (p : RewatchProgress)
    → f p ≡ true
    → any f (ps ++ p ∷ []) ≡ true
any-last f [] p h = ground arith
any-last f (q ∷ ps) p h = ground (arith, any-last f ps p)

Distinct-append_one :
    (ps : List RewatchProgress) (p : RewatchProgress)
    → any (λ q. q.rewatch_id == p.rewatch_id && q.media_id == p.media_id) ps ≡ false
    → Distinct ps
    → Distinct (ps ++ p ∷ [])
Distinct-append_one [] p h d = (refl, tt)
Distinct-append_one (q ∷ ps) p h (k, d) =
    (any-append_one (same_key q) ps p k (ground arith), Distinct-append_one ps p (ground arith) d)

any-filter :
    (f g : RewatchProgress → Bool) (ps : List RewatchProgress)
    → any f ps ≡ false
    → any f (filter g ps) ≡ false
any-filter f g [] h = refl
any-filter f g (q ∷ ps) h = ground (arith, any-filter f g ps)

Distinct-filter :
    (g : RewatchProgress → Bool) (ps : List RewatchProgress) → Distinct ps → Distinct (filter g ps)
Distinct-filter g [] d = tt
Distinct-filter g (p ∷ ps) (k, d) = elim (Bool-cases (g p)) [
  | inl t ↦ rw t (any-filter (same_key p) g ps k, Distinct-filter g ps d)
  | inr f ↦ rw f (Distinct-filter g ps d)
]

insert-Tidy :
    (p : RewatchProgress) (db : Db)
    → known db.rewatches p.rewatch_id ≡ true
    → Tidy db
    → Tidy (insert_progress p db)
unfolding insert_progress
insert-Tidy p db there t =
    elim (Bool-cases
      (any (λ q. q.rewatch_id == p.rewatch_id && q.media_id == p.media_id) db.rewatch_progress)) [
        | inl old ↦ rw (old, insert_progress) t
        | inr new ↦
            rw (new, insert_progress)
              (record {
                backed =
                    All-append (λ x. known db.rewatches x.rewatch_id ≡ true) db.rewatch_progress
                      (p ∷ []) t.backed (there, tt);
                distinct = Distinct-append_one db.rewatch_progress p new t.distinct;
              })
      ]

known-filter :
    (id j : ℕ) (rs : List ShowRewatch)
    → known rs j ≡ true
    → (j == id) ≡ false
    → known (filter (λ r. not (r.id == id)) rs) j ≡ true
known-filter id j [] h k = ground arith
known-filter id j (r ∷ rs) h k = ground (arith, known-filter id j rs)

backed-filter :
    (id : ℕ) (rs : List ShowRewatch) (ps : List RewatchProgress)
    → All (λ p. known rs p.rewatch_id ≡ true) ps
    → All
        (λ p. known (filter (λ r. not (r.id == id)) rs) p.rewatch_id ≡ true)
        (filter (λ p. not (p.rewatch_id == id)) ps)
backed-filter id rs [] h = tt
backed-filter id rs (p ∷ ps) (h, hs) = elim (Bool-cases (p.rewatch_id == id)) [
  | inl gone ↦ rw gone (backed-filter id rs ps hs)
  | inr stays ↦ rw stays (known-filter id p.rewatch_id rs h stays, backed-filter id rs ps hs)
]

delete-Tidy : (id : ℕ) (db : Db) → Tidy db → Tidy (delete_rewatch id db)
delete-Tidy id db t = record {
  backed = backed-filter id db.rewatches db.rewatch_progress t.backed;
  distinct = Distinct-filter (λ p. not (p.rewatch_id == id)) db.rewatch_progress t.distinct;
}

-- All of the show that has aired is counted in the cycle, and something has aired.
abbrev pub IsComplete : String → ShowRewatch → Db → Type 0
IsComplete today r db =
    (show : Show) × (find? (λ s. s.id == r.show_id) db.shows ≡ some show)
    × (0 < total_aired_episodes show today)
    × (total_aired_episodes show today ≤ progress_count r.id db)

leb_le : (a b : ℕ) → leb a b ≡ true → a ≤ b
leb_le a b h = ground arith

-- The outcome of the check for completion: the cycle stays, or is complete and goes with its
-- progress.
pub maybe-cases :
    (today : String) (r : ShowRewatch) (db : Db)
    → (maybe_complete_rewatch today r db ≡ db)
      ⊎ ((maybe_complete_rewatch today r db ≡ delete_rewatch r.id db) × IsComplete today r db)
unfolding maybe_complete_rewatch
maybe-cases today r db = elim (Option-cases (find? (λ s. s.id == r.show_id) db.shows)) [
  | inl e ↦ inl (rw (e, maybe_complete_rewatch))
  | inr (show, e) ↦ elim (Bool-cases (total_aired_episodes show today == 0)) [
    | inl empty ↦ inl (rw (e, maybe_complete_rewatch) (rw empty))
    | inr counted ↦
        elim (Bool-cases (leb (total_aired_episodes show today) (progress_count r.id db))) [
          | inl full ↦ inr (
            rw (e, maybe_complete_rewatch) (rw counted (rw full)),
            (show, e, ground (arith, counted), leb_le _ _ full),
          )
          | inr short ↦ inl (rw (e, maybe_complete_rewatch) (rw counted (rw short)))
        ]
  ]
]

maybe-Tidy :
    (today : String) (r : ShowRewatch) (db : Db)
    → Tidy db
    → Tidy (maybe_complete_rewatch today r db)
maybe-Tidy today r db t = elim (maybe-cases today r db) [
  | inl e ↦ rw e t
  | inr (e, all) ↦ rw e (delete-Tidy r.id db t)
]

known_of_find :
    (p : ShowRewatch → Bool) (rs : List ShowRewatch) (r : ShowRewatch)
    → find? p rs ≡ some r
    → known rs r.id ≡ true
known_of_find p [] r h = ground arith
known_of_find p (x ∷ rs) r h = ground (arith, known_of_find p rs r)

-- Recording a play keeps the progress rows tidy: at most one for an episode in a cycle, and none
-- of a cycle that is over, also where the play completes the cycle.
pub record-Tidy :
    (today : String) (user_id media_id event_id : ℕ) (db : Db)
    → Tidy db
    → Tidy (record_rewatch_progress today user_id media_id event_id db)
unfolding record_rewatch_progress
record-Tidy today user_id media_id event_id db t = elim (Option-cases (episode_show db media_id)) [
  | inl e ↦ rw (e, record_rewatch_progress) t
  | inr (show_id, e) ↦
      rw (e, record_rewatch_progress)
        (elim (Option-cases (get_active_rewatch db user_id show_id)) [
          | inl f ↦ rw f t
          | inr (r, f) ↦ rw f (
              maybe-Tidy today r _ (
                insert-Tidy
                  (record { rewatch_id = r.id; media_id = media_id; watch_event_id = event_id }) db
                  (unfold get_active_rewatch in known_of_find _ db.rewatches r f) t))
        ])
]

insert_lists :
    (p : RewatchProgress) (db : Db)
    → any
        (λ q. q.rewatch_id == p.rewatch_id && q.media_id == p.media_id)
        (insert_progress p db).rewatch_progress
      ≡ true
unfolding insert_progress
insert_lists p db =
    elim (Bool-cases
      (any (λ q. q.rewatch_id == p.rewatch_id && q.media_id == p.media_id) db.rewatch_progress)) [
        | inl old ↦ rw (old, insert_progress) old
        | inr new ↦ rw (new, insert_progress) (any-last _ db.rewatch_progress p (ground arith))
      ]

insert-rewatches : (p : RewatchProgress) (db : Db) → (insert_progress p db).rewatches ≡ db.rewatches
unfolding insert_progress
insert-rewatches p db = ground arith

deleted_known :
    (id : ℕ) (rs : List ShowRewatch) → known (filter (λ r. not (r.id == id)) rs) id ≡ false
deleted_known id [] = refl
deleted_known id (r ∷ rs) = ground (arith, deleted_known id rs)

deleted_rows :
    (id : ℕ) (ps : List RewatchProgress)
    → filter (λ p. p.rewatch_id == id) (filter (λ p. not (p.rewatch_id == id)) ps) ≡ []
deleted_rows id [] = refl
deleted_rows id (p ∷ ps) = ground (arith, deleted_rows id ps)

-- A play of an episode whose show is being rewatched is counted in the cycle, which stays; or the
-- cycle is over with it and no progress of it is left, which happens only if some episode of the
-- show has aired and the cycle, this play counted, has progress in as many as have aired.
pub record-counts :
    (today : String) (user_id media_id event_id show_id : ℕ) (r : ShowRewatch) (db : Db)
    → episode_show db media_id ≡ some show_id
    → get_active_rewatch db user_id show_id ≡ some r
    → ((any
            (λ q. q.rewatch_id == r.id && q.media_id == media_id)
            (record_rewatch_progress today user_id media_id event_id db).rewatch_progress
          ≡ true)
        × ((record_rewatch_progress today user_id media_id event_id db).rewatches ≡ db.rewatches))
      ⊎ ((known (record_rewatch_progress today user_id media_id event_id db).rewatches r.id ≡ false)
          × (progress_count r.id (record_rewatch_progress today user_id media_id event_id db) ≡ 0)
          × IsComplete today r (
              insert_progress
                (record { rewatch_id = r.id; media_id = media_id; watch_event_id = event_id })
                db))
unfolding record_rewatch_progress
record-counts today user_id media_id event_id show_id r db e f =
    let p : RewatchProgress = record {
      rewatch_id = r.id;
      media_id = media_id;
      watch_event_id = event_id;
    } in
    rw (e, record_rewatch_progress)
      (rw f (elim (maybe-cases today r (insert_progress p db)) [
        | inl stays ↦ rw stays (inl (insert_lists p db, insert-rewatches p db))
        | inr (over, all) ↦ rw over (
            inr (
              deleted_known r.id (insert_progress p db).rewatches,
              ap length (deleted_rows r.id (insert_progress p db).rewatch_progress),
              all,
            ))
      ]))
