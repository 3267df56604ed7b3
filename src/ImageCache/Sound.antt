-- ===== src/ImageCache/Sound.antt =====
-- Whatever interleaves keeps the cache sound: one entry for each image, with an id of its own, and no file
-- outside the directories of the known sizes.
use mathlib.Core.Path.{subst}
use scrob.Prelude.{
  ℕ, ◌-◌, ◌≡◌, refl, sym, Bool, true, false, Option, none, some, List, [], ◌∷◌, arith,
  if◌then◌else◌, ◌==◌, nat_eq, pair_eq, All, Bool-cases, inl, inr,
}
use scrob.Prelude.Clock.{Time}
use scrob.Prelude.Text.{Text, text_eq}
use scrob.ImageCache.{
  File, Cache, local_path, is_accepted, look_up, Answer, returns, waits, begin_download,
  finish_download,
}
use scrob.ImageCache.Confined.{
  Waiting, Service, Happening, arrives, replied, prunes, nth, drop_nth, queued, replied_to, happen,
  run, idle, Sound,
}
use scrob.ImageCache.Kept.{look_up-Sound, prune-Sound, store-Sound}

-- Of a request that waits, the path was accepted.
abbrev IsAccepted : Waiting → Type 0
IsAccepted w = is_accepted w.size w.path ≡ true

record Invariant (s : Service) : Type 0 where
  cache : Sound s.cache
  waiting : All IsAccepted s.waiting

queued-All :
    (w : Waiting) (there : Bool) (file : Option File) (waiting : List Waiting)
    → IsAccepted w
    → All IsAccepted waiting
    → All IsAccepted (queued w (if there then returns file else waits) waiting)
queued-All w true file waiting h hs = hs
queued-All w false file waiting h hs = (h, hs)

begin-refused :
    (now : Time) (size path : Text) (db : Cache)
    → is_accepted size path ≡ false
    → begin_download now size path db ≡ (db, returns none)
unfolding begin_download
begin-refused now size path db f = rw (f, begin_download) refl

begin-accepted :
    (now : Time) (size path : Text) (db : Cache)
    → is_accepted size path ≡ true
    → begin_download now size path db ≡ (
      (look_up now size path db).0,
      if (look_up now size path db).1 then returns (some (local_path size path)) else waits,
    )
unfolding begin_download
begin-accepted now size path db t = rw (t, begin_download) refl

-- What an arrival makes of the service.
abbrev arrived : Waiting → List Waiting → Cache × Answer → Service
arrived w waiting out = record { cache = out.0; waiting = queued w out.1 waiting }

begin-Invariant :
    (now : Time) (w : Waiting) (s : Service)
    → Invariant s
    → Invariant (arrived w s.waiting (begin_download now w.size w.path s.cache))
begin-Invariant now w s h =
    let out = look_up now w.size w.path s.cache in
    let file = some (local_path w.size w.path) in
    elim (Bool-cases (is_accepted w.size w.path)) [
      | inl t ↦
          subst (λ p. Invariant (arrived w s.waiting p))
            (sym (begin-accepted now w.size w.path s.cache t))
            (record {
              cache = look_up-Sound now w.size w.path s.cache h.cache;
              waiting = queued-All w out.1 file s.waiting t h.waiting;
            })
      | inr f ↦
          subst (λ p. Invariant (arrived w s.waiting p))
            (sym (begin-refused now w.size w.path s.cache f))
            (record { cache = h.cache; waiting = h.waiting })
    ]

finish-Sound :
    (reply : Option ℕ) (now : Time) (w : Waiting) (db : Cache)
    → IsAccepted w
    → Sound db
    → Sound (finish_download reply now w.size w.path w.image_type db).0
unfolding finish_download
finish-Sound none now w db ok h = h
finish-Sound (some bytes) now w db ok h = store-Sound now w.size w.path w.image_type bytes db ok h

reply-Sound :
    (n : ℕ) (now : Time) (reply : Option ℕ) (waiting : List Waiting) (db : Cache)
    → All IsAccepted waiting
    → Sound db
    → Sound (replied_to (nth n waiting) now reply db)
reply-Sound n now reply [] db hs h = h
reply-Sound n now reply (w ∷ waiting) db (ok, oks) h = elim (Bool-cases (n == 0)) [
  | inl t ↦ rw t (finish-Sound reply now w db ok h)
  | inr f ↦ rw f (reply-Sound (n - 1) now reply waiting db oks h)
]

drop-All :
    (n : ℕ) (waiting : List Waiting) → All IsAccepted waiting → All IsAccepted (drop_nth n waiting)
drop-All n [] h = tt
drop-All n (w ∷ waiting) (ok, oks) = elim (Bool-cases (n == 0)) [
  | inl t ↦ rw t oks
  | inr f ↦ rw f (ok, drop-All (n - 1) waiting oks)
]

happen-Invariant : (e : Happening) (s : Service) → Invariant s → Invariant (happen e s)
unfolding happen
happen-Invariant (arrives now w) s h = begin-Invariant now w s h
happen-Invariant (replied now n reply) s h = record {
  cache = reply-Sound n now reply s.waiting s.cache h.waiting h.cache;
  waiting = drop-All n s.waiting h.waiting;
}
happen-Invariant (prunes stuck limit) s h = record {
  cache = prune-Sound stuck limit s.cache h.cache;
  waiting = h.waiting;
}

run-Invariant : (events : List Happening) (s : Service) → Invariant s → Invariant (run events s)
run-Invariant [] s h = h
run-Invariant (e ∷ events) s h = run-Invariant events (happen e s) (happen-Invariant e s h)

-- Whatever arrivals of requests, whatever their sizes and paths, replies to those that wait and
-- prunings follow one another, from an empty cache on: entries have distinct ids, an image has at
-- most one entry, and every file is in the directory of a known size, under a path that leaves it
-- neither by dots nor by a leading slash.
pub run-Sound : (events : List Happening) → Sound (run events idle).cache
run-Sound events =
    (run-Invariant events idle (record {
      cache = record {
        ids = tt;
        unique = λ i. omega arith;
        keys = λ p z. omega arith;
        confined = tt;
      };
      waiting = tt;
    })).cache
