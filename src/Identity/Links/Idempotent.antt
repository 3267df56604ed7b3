-- ===== src/Identity/Links/Idempotent.antt =====
-- A link fills what a media row lacks, once.
use scrob.Prelude.{
  ℕ, zero, suc, String, ◌≡◌, refl, true, false, Option, none, some, [], ◌∷◌, arith, ◌==◌, nat_eq,
  Option-cases, inl, inr, ◌∙◌,
}
use scrob.Prelude.Text.{Text, prefix}
use scrob.Identity.{
  ℤ, pos, negsuc, Value, null, integer, text, other, MediaRow, coerce_id, positive,
}
use scrob.Identity.Links.{
  is_blank, is_imdb_id, link_media_tmdb, link_media_tvdb, link_media_imdb, link_media_ids,
}

module _ (parse : String → Option ℤ) where
  positive-set : (n : ℤ) (k : ℕ) → positive n ≡ some k → (k == 0) ≡ false
  positive-set (pos zero) k e = ground arith
  positive-set (pos (suc n)) k e = ground arith
  positive-set (negsuc n) k e = ground arith

  coerced-set : (v : Value) (k : ℕ) → coerce_id parse v ≡ some k → (k == 0) ≡ false
  unfolding coerce_id
  coerced-set null k e = ground arith
  coerced-set (integer n) k e = positive-set n k e
  coerced-set (text s) k e = elim (Option-cases (parse s)) [
    | inl f ↦ ground arith
    | inr (n, f) ↦ positive-set n k (ground arith)
  ]
  coerced-set other k e = ground arith

  -- What each part leaves, and what it does with a row that needs nothing of it.
  tmdb-once :
      (v : Value) (m o : MediaRow)
      → o.tmdb_id ≡ (link_media_tmdb parse v m).0.tmdb_id
      → link_media_tmdb parse v o ≡ (o, false)
  unfolding link_media_tmdb
  tmdb-once v m o h = elim (Option-cases (coerce_id parse v)) [
    | inl e ↦ rw (e, link_media_tmdb) refl
    | inr (n, e) ↦ ground (arith, coerced-set v n e)
  ]

  tvdb-once :
      (v : Value) (m o : MediaRow)
      → o.tvdb_id ≡ (link_media_tvdb parse v m).0.tvdb_id
      → link_media_tvdb parse v o ≡ (o, false)
  unfolding link_media_tvdb
  tvdb-once v m o h = elim (Option-cases (coerce_id parse v)) [
    | inl e ↦ rw (e, link_media_tvdb) refl
    | inr (n, e) ↦ ground (arith, coerced-set v n e)
  ]

  prefix-blank : (t : Text) → is_imdb_id t ≡ true → is_blank (some (prefix 20 t)) ≡ false
  unfolding is_imdb_id prefix
  prefix-blank [] h = ground arith
  prefix-blank (c ∷ []) h = ground arith
  prefix-blank (c ∷ d ∷ t) h = refl

  imdb-once :
      (v : Option Text) (m o : MediaRow)
      → o.imdb_id ≡ (link_media_imdb parse v m).0.imdb_id
      → link_media_imdb parse v o ≡ (o, false)
  unfolding link_media_imdb
  imdb-once none m o h = refl
  imdb-once (some t) m o h = ground (arith, prefix-blank t)

  tvdb-keeps : (v : Value) (m : MediaRow) → (link_media_tvdb parse v m).0.tmdb_id ≡ m.tmdb_id
  unfolding link_media_tvdb
  tvdb-keeps v m = ground arith

  imdb-keeps :
      (v : Option Text) (m : MediaRow)
      → ((link_media_imdb parse v m).0.tmdb_id ≡ m.tmdb_id)
        × ((link_media_imdb parse v m).0.tvdb_id ≡ m.tvdb_id)
  unfolding link_media_imdb
  imdb-keeps none m = (refl, refl)
  imdb-keeps (some t) m = ground arith

  -- A second link with the same ids finds nothing to fill: it answers that nothing changed, and
  -- the row is what the first one left.
  link_media_twice :
      (m : MediaRow) (tmdb_id tvdb_id : Value) (imdb_id : Option Text)
      → link_media_ids parse
          (link_media_ids parse m tmdb_id tvdb_id imdb_id).0
          tmdb_id
          tvdb_id
          imdb_id
        ≡ ((link_media_ids parse m tmdb_id tvdb_id imdb_id).0, false)
  unfolding link_media_ids
  link_media_twice m a b c =
      let m1 = (link_media_tmdb parse a m).0 in
      let m2 = (link_media_tvdb parse b m1).0 in
      let m3 = (link_media_imdb parse c m2).0 in
      let kept = imdb-keeps c m2 in
      rw
        (
          tmdb-once a m m3 (kept.0 ∙ tvdb-keeps b m1),
          tvdb-once b m1 m3 kept.1,
          imdb-once c m2 m3 refl,
        )
        refl
