-- ===== src/Watch/Webhook/Echoes.antt =====
-- The queue of pushed plays: every push absorbs one echo.
use scrob.Prelude.{
  ℕ, ◌+◌, ◌≡◌, refl, Bool, false, not, ◌&&◌, Option, none, some, List, [], ◌∷◌, ◌++◌, arith, ltb,
  length, all, nat_eq, pair_eq, ap, ◌∙◌,
}
use scrob.Prelude.Clock.{Time}
use scrob.Prelude.Dict.{get, DistinctKeys, get-put, get-remove, get-filter}
use scrob.Watch.Webhook.{
  Pushed, pushed_watched_ttl, prune_pushed, mark_pushed_watched, is_fresh, or_empty, put_back,
  consume_queue, consume_recently_pushed_watched,
}

-- Echoes arriving one after another: their answers, and what is left.
pub echoes : List Time → ℕ → ℕ → Pushed → List Bool × Pushed
echoes [] u m d = ([], d)
echoes (now ∷ nows) u m d =
    let (d', absorbed) = consume_recently_pushed_watched now u m d in
    let (answers, d'') = echoes nows u m d' in (absorbed ∷ answers, d'')

-- Each echo against the push at the same place in the queue.
abbrev pub matched : List Time → List Time → List Bool
matched [] q = []
matched (now ∷ nows) [] = false ∷ matched nows []
matched (now ∷ nows) (t ∷ q) = is_fresh now t ∷ matched nows q

abbrev pub queue_of : Pushed → ℕ → ℕ → List Time
queue_of d u m = or_empty (get d (u, m))

queue-put_back : (q : List Time) (u m : ℕ) (d : Pushed) → queue_of (put_back (u, m) q d) u m ≡ q
queue-put_back [] u m d = ground (arith, get-remove (u, m) d (u, m), pair_eq.same_iff (u, m) (u, m))
queue-put_back (t ∷ q) u m d =
    ground (arith, get-put (u, m) (t ∷ q) d (u, m), pair_eq.same_iff (u, m) (u, m))

consume-queue_of :
    (now : Time) (u m : ℕ) (d : Pushed) (found : Option (List Time))
    → get d (u, m) ≡ found
    → queue_of (consume_queue now (u, m) found d).0 u m
      ≡ elim (or_empty found) [ [] ↦ [] | t ∷ q ↦ q ]
consume-queue_of now u m d none e = rw e
consume-queue_of now u m d (some []) e = rw e
consume-queue_of now u m d (some (t ∷ q)) e = queue-put_back q u m d

consume-answer :
    (now : Time) (u m : ℕ) (d : Pushed)
    → (consume_recently_pushed_watched now u m d).1
      ≡ elim (queue_of d u m) [ [] ↦ false | t ∷ q ↦ is_fresh now t ]
unfolding consume_recently_pushed_watched
consume-answer now u m d = ground arith

consume-queue :
    (now : Time) (u m : ℕ) (d : Pushed)
    → queue_of (consume_recently_pushed_watched now u m d).0 u m
      ≡ elim (queue_of d u m) [ [] ↦ [] | t ∷ q ↦ q ]
unfolding consume_recently_pushed_watched
consume-queue now u m d = consume-queue_of now u m d (get d (u, m)) refl

matched-cons :
    (now : Time) (nows q : List Time)
    → elim q [ [] ↦ false | t ∷ r ↦ is_fresh now t ] ∷ matched nows (elim q [ [] ↦ [] | t ∷ r ↦ r ])
      ≡ matched (now ∷ nows) q
matched-cons now nows [] = refl
matched-cons now nows (t ∷ q) = refl

echoes-matched :
    (nows : List Time) (u m : ℕ) (d : Pushed)
    → (echoes nows u m d).0 ≡ matched nows (queue_of d u m)
unfolding echoes
echoes-matched [] u m d = refl
echoes-matched (now ∷ nows) u m d =
    rw
      (
        consume-answer now u m d,
        echoes-matched nows u m (consume_recently_pushed_watched now u m d).0,
        consume-queue now u m d,
      )
      (matched-cons now nows (queue_of d u m))

queue-prune :
    (t : Time) (u m : ℕ) (d : Pushed)
    → DistinctKeys d
    → (ltb 5000 (length d) && all (λ s. ltb (s + pushed_watched_ttl) t) (queue_of d u m)) ≡ false
    → queue_of (prune_pushed t d) u m ≡ queue_of d u m
unfolding prune_pushed
queue-prune t u m d h k = ground (
  arith,
  get-filter (λ (e : (ℕ × ℕ) × List Time). not (all (λ s. ltb (s + pushed_watched_ttl) t) e.1)) d
      (u, m) h,
)

queue-mark :
    (t : Time) (u m : ℕ) (d : Pushed)
    → DistinctKeys d
    → (ltb 5000 (length d) && all (λ s. ltb (s + pushed_watched_ttl) t) (queue_of d u m)) ≡ false
    → queue_of (mark_pushed_watched t u m d) u m ≡ queue_of d u m ++ t ∷ []
unfolding mark_pushed_watched
queue-mark t u m d h k = ground (
  arith,
  pair_eq.same_iff (u, m) (u, m),
  get-put (u, m) (queue_of (prune_pushed t d) u m ++ t ∷ []) (prune_pushed t d) (u, m),
  queue-prune t u m d h k,
)

-- After a push at `t`, echoes of the same user and media are absorbed one for each push that is
-- queued, the oldest first and this one last, each if it comes within the ten minutes; a further
-- echo is no echo. (The table has one entry a key, and is small or has a live push of this key.)
pub echoes-mark :
    (nows : List Time) (t : Time) (u m : ℕ) (d : Pushed)
    → DistinctKeys d
    → (ltb 5000 (length d) && all (λ s. ltb (s + pushed_watched_ttl) t) (queue_of d u m)) ≡ false
    → (echoes nows u m (mark_pushed_watched t u m d)).0 ≡ matched nows (queue_of d u m ++ t ∷ [])
echoes-mark nows t u m d h k =
    echoes-matched nows u m (mark_pushed_watched t u m d)
    ∙ ap (matched nows) (queue-mark t u m d h k)
