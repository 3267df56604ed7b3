-- ===== src/Identity/Links/Unique.antt =====
-- The ids of the shows stay unique.
use mathlib.Core.Path.{subst}
use scrob.Prelude.{
  ℕ, String, ◌≡◌, refl, Bool, true, false, not, ◌&&◌, Option, none, some, List, [], ◌∷◌, arith, any,
  ◌==◌, nat_eq, Bool-cases, Option-cases, inl, inr, ◌⊎◌,
}
use scrob.Identity.{ℤ, Value, ShowRow, coerce_id, is_id, show_tvdb_id_is_free, show_tmdb_id_is_free}
use scrob.Identity.Links.{is_unset, store_show, link_tvdb, link_tmdb, link_show_ids}

-- Two columns hold the same id; null is no id.
abbrev pub clash : Option ℕ → Option ℕ → Bool
clash none b = false
clash (some n) b = is_id n b

-- A unique column.
abbrev pub Unique : (ShowRow → Option ℕ) → List ShowRow → Type 0
Unique k [] = Unit
Unique k (s ∷ shows) = (any (λ t. clash (k s) (k t)) shows ≡ false) × Unique k shows

abbrev pub primary : ShowRow → Option ℕ
primary s = some s.id

-- The id columns of the table of shows are unique.
pub record Keys (shows : List ShowRow) : Type 0 where
  pub ids : Unique primary shows
  pub tmdb_ids : Unique (λ s. s.tmdb_id) shows
  pub tvdb_ids : Unique (λ s. s.tvdb_id) shows

module _ (k : ShowRow → Option ℕ) (s : ShowRow) where
  -- No other row than that of `s` has the id that `s` has.
  abbrev free : List ShowRow → Bool
  free shows = not (any (λ t. clash (k s) (k t) && not (t.id == s.id)) shows)

  store-clash :
      (shows : List ShowRow) (o : Option ℕ)
      → any (λ t. clash o (k t)) shows ≡ false
      → clash o (k s) ≡ false
      → any (λ t. clash o (k t)) (store_show s shows) ≡ false
  unfolding store_show
  store-clash [] o h c = refl
  store-clash (t ∷ shows) o h c = ground (arith, store-clash shows o)

  clash-sym : (a b : Option ℕ) → clash a b ≡ clash b a
  clash-sym none none = refl
  clash-sym none (some b) = refl
  clash-sym (some a) none = refl
  clash-sym (some a) (some b) = ground arith

  -- The rows after that of `s` have other ids.
  others :
      (shows : List ShowRow)
      → any (λ t. clash (some s.id) (primary t)) shows ≡ false
      → free shows ≡ true
      → (any (λ t. clash (k s) (k t)) shows ≡ false) × (store_show s shows ≡ shows)
  unfolding store_show
  others [] h f = (refl, refl)
  others (t ∷ shows) h f =
      let rest = others shows (ground arith) (ground arith) in
      (ground (arith, rest.0), ground (arith, rest.1))

  pub store-Unique :
      (shows : List ShowRow)
      → Unique primary shows
      → Unique k shows
      → free shows ≡ true
      → Unique k (store_show s shows)
  unfolding store_show
  store-Unique [] i u f = tt
  store-Unique (t ∷ shows) (i, is) (u, us) f = elim (Bool-cases (t.id == s.id)) [
    | inl same ↦
        let moved =
          subst (λ n. any (λ r. clash (some n) (primary r)) shows ≡ false)
            ((nat_eq.same_iff t.id s.id).0 same) i in
        let rest = others shows moved (ground arith) in rw (same, rest.1) (rest.0, us)
    | inr apart ↦
        let differs : clash (k t) (k s) ≡ false = ground (arith, clash-sym (k t) (k s)) in
        rw apart (store-clash shows (k t) u differs, store-Unique shows is us (ground arith))
  ]

abbrev pub Occurs : ShowRow → List ShowRow → Type 0
Occurs s [] = ⊥
Occurs s (t ∷ shows) = (t ≡ s) ⊎ Occurs s shows

any-and :
    (f g : ShowRow → Bool) (shows : List ShowRow)
    → any f shows ≡ false
    → any (λ t. f t && g t) shows ≡ false
any-and f g [] h = refl
any-and f g (t ∷ shows) h = ground (arith, any-and f g shows)

any-Occurs :
    (f : ShowRow → Bool) (s : ShowRow) (shows : List ShowRow)
    → any f shows ≡ false
    → Occurs s shows
    → f s ≡ false
any-Occurs f s [] h o = absurd o
any-Occurs f s (t ∷ shows) h (inl e) = subst (λ r. f r ≡ false) e (ground arith)
any-Occurs f s (t ∷ shows) h (inr o) = any-Occurs f s shows (ground arith) o

-- A row of a table with a unique column has no other with its id.
Occurs-free :
    (k : ShowRow → Option ℕ) (s : ShowRow) (shows : List ShowRow)
    → Unique k shows
    → Occurs s shows
    → free k s shows ≡ true
Occurs-free k s [] u o = absurd o
Occurs-free k s (t ∷ shows) (u, us) (inl e) =
    subst (λ r. free k r (t ∷ shows) ≡ true) e
      (ground (arith, any-and (λ r. clash (k t) (k r)) (λ r. not (r.id == t.id)) shows u))
Occurs-free k s (t ∷ shows) (u, us) (inr o) = ground (
  arith,
  Occurs-free k s shows us o,
  any-Occurs (λ r. clash (k t) (k r)) s shows u o,
  clash-sym k s (k t) (k s),
)

free-primary : (s : ShowRow) (shows : List ShowRow) → free primary s shows ≡ true
free-primary s [] = refl
free-primary s (t ∷ shows) = ground (arith, free-primary s shows)

module _ (parse : String → Option ℤ) (shows : List ShowRow) (s : ShowRow) (v : Value) where
  free-tvdb :
      free (λ r. r.tvdb_id) s shows ≡ true
      → free (λ r. r.tvdb_id) (link_tvdb parse shows s v).0 shows ≡ true
  unfolding link_tvdb show_tvdb_id_is_free
  free-tvdb h = elim (Option-cases (coerce_id parse v)) [
    | inl e ↦ rw (e, link_tvdb) h
    | inr (n, e) ↦
        rw (e, link_tvdb)
          (elim (Bool-cases (is_unset s.tvdb_id && show_tvdb_id_is_free shows n (some s.id))) [
            | inl t ↦ rw t (ground arith)
            | inr f ↦ rw f h
          ])
  ]

  free-tmdb :
      free (λ r. r.tmdb_id) s shows ≡ true
      → free (λ r. r.tmdb_id) (link_tmdb parse shows s v).0 shows ≡ true
  unfolding link_tmdb show_tmdb_id_is_free
  free-tmdb h = elim (Option-cases (coerce_id parse v)) [
    | inl e ↦ rw (e, link_tmdb) h
    | inr (n, e) ↦
        rw (e, link_tmdb)
          (elim (Bool-cases (is_unset s.tmdb_id && show_tmdb_id_is_free shows n (some s.id))) [
            | inl t ↦ rw t (ground arith)
            | inr f ↦ rw f h
          ])
  ]

  tvdb-rest :
      ((link_tvdb parse shows s v).0.id ≡ s.id)
      × ((link_tvdb parse shows s v).0.tmdb_id ≡ s.tmdb_id)
  unfolding link_tvdb
  tvdb-rest = ground arith

  tmdb-rest :
      ((link_tmdb parse shows s v).0.id ≡ s.id)
      × ((link_tmdb parse shows s v).0.tvdb_id ≡ s.tvdb_id)
  unfolding link_tmdb
  tmdb-rest = ground arith

-- Linking a show of the table keeps its three id columns unique, whatever ids are given.
pub link_show-Keys :
    (parse : String → Option ℤ) (shows : List ShowRow) (s : ShowRow) (tmdb_id tvdb_id : Value)
    → Keys shows
    → Occurs s shows
    → Keys (link_show_ids parse shows s tmdb_id tvdb_id).0
unfolding link_show_ids
link_show-Keys parse shows s tmdb_id tvdb_id keys o =
    let s' = (link_tvdb parse shows s tvdb_id).0 in
    let s'' = (link_tmdb parse shows s' tmdb_id).0 in
    let by_tvdb = tvdb-rest parse shows s tvdb_id in
    let by_tmdb = tmdb-rest parse shows s' tmdb_id in
    let tvdb_free : free (λ r. r.tvdb_id) s'' shows ≡ true =
      rw (by_tmdb.0, by_tmdb.1)
        (free-tvdb parse shows s tvdb_id (Occurs-free (λ r. r.tvdb_id) s shows keys.tvdb_ids o)) in
    let still : free (λ r. r.tmdb_id) s' shows ≡ true =
      rw (by_tvdb.0, by_tvdb.1) (Occurs-free (λ r. r.tmdb_id) s shows keys.tmdb_ids o) in
    record {
      ids = store-Unique primary s'' shows keys.ids keys.ids (free-primary s'' shows);
      tmdb_ids =
          store-Unique (λ r. r.tmdb_id) s'' shows keys.ids keys.tmdb_ids
            (free-tmdb parse shows s' tmdb_id still);
      tvdb_ids = store-Unique (λ r. r.tvdb_id) s'' shows keys.ids keys.tvdb_ids tvdb_free;
    }
