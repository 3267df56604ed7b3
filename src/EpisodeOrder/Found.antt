-- ===== src/EpisodeOrder/Found.antt =====
-- What stands in the dict of TVDB episodes, and what a single candidate is.
use mathlib.Core.Path.{subst}
use scrob.Prelude.{
  ℕ, ◌≡◌, refl, sym, ap, ◌∙◌, Bool, true, false, Option, none, some, List, [], ◌∷◌, arith, filter,
  any, if◌then◌else◌, ◌==◌, nat_eq, Bool-cases, Option-cases, ◌⊎◌, inl, inr,
}
use scrob.Prelude.Dict.{Dict, get, put, get-put}
use scrob.EpisodeOrder.{TvdbEpisode, Method, title_date, tvdb_by_id, only}

abbrev pub is_number : Option ℕ → ℕ → Bool
is_number none n = false
is_number (some m) n = m == n

abbrev some_or : TvdbEpisode → Option TvdbEpisode → TvdbEpisode
some_or x none = x
some_or x (some y) = y

-- An entry of the dict is the last episode of the list that has the id.
pub by_id-has :
    (id : ℕ) (e : TvdbEpisode) (episodes : List TvdbEpisode) (d : Dict ℕ TvdbEpisode)
    → get (tvdb_by_id episodes d) id ≡ some e
    → ((e.id ≡ some id) × ((q : TvdbEpisode → Bool) → q e ≡ true → any q episodes ≡ true))
      ⊎ (get d id ≡ some e)
unfolding tvdb_by_id
by_id-has id e [] d h = inr h
by_id-has id e (x ∷ episodes) d h = elim (Option-cases x.id) [
  | inl n ↦
      elim (by_id-has id e episodes d (
        subst
          (λ o. get (tvdb_by_id episodes (elim o [ none ↦ d | some i ↦ put i x d ])) id ≡ some e) n
          h)) [
            | inl (same, there) ↦ inl (same, λ q t. ground (arith, there q t))
            | inr old ↦ inr old
          ]
  | inr (i, s) ↦
      elim (by_id-has id e episodes (put i x d) (
        subst
          (λ o. get (tvdb_by_id episodes (elim o [ none ↦ d | some j ↦ put j x d ])) id ≡ some e) s
          h)) [
            | inl (same, there) ↦ inl (same, λ q t. ground (arith, there q t))
            | inr new ↦ elim (Bool-cases (i == id)) [
              | inl t ↦
                  let here : get (put i x d) id ≡ some x =
                    get-put i x d id
                    ∙ (let z : (if i == id then some x else get d id) ≡ some x = rw t refl in z) in
                  let same : x ≡ e = ap (some_or x) (sym here ∙ new) in
                  let number : i ≡ id = ground arith in
                  inl (
                    subst (λ y. y.id ≡ some id) same (s ∙ ap some number),
                    λ q u.
                        let v : q x ≡ true = subst (λ y. q y ≡ true) (sym same) u in
                        ground (arith, v),
                  )
              | inr f ↦
                  let there : get (put i x d) id ≡ get d id =
                    get-put i x d id
                    ∙ (let z : (if i == id then some x else get d id) ≡ get d id = rw f refl in
                        z) in
                  inr (sym there ∙ new)
            ]
          ]
]

pub any-filter :
    (p q : TvdbEpisode → Bool) (episodes : List TvdbEpisode)
    → any q (filter p episodes) ≡ true
    → any q episodes ≡ true
any-filter p q [] h = h
any-filter p q (e ∷ episodes) h = ground (arith, any-filter p q episodes)

abbrev pub pair_or : TvdbEpisode × Method → Option (TvdbEpisode × Method) → TvdbEpisode × Method
pair_or x none = x
pair_or x (some y) = y

pub no_match : (e : TvdbEpisode) → Option.none ≡ some e → ⊥
no_match e h = cc

pub no_entry :
    (id : ℕ) (e : TvdbEpisode) → get {K = ℕ} {V = TvdbEpisode} [] id ≡ some e → Option.none ≡ some e
unfolding get
no_entry id e h = h

pub only-one :
    (cs : List TvdbEpisode) (c : TvdbEpisode) (m : Method)
    → only cs ≡ some (c, m)
    → (cs ≡ c ∷ []) × (title_date ≡ m)
only-one [] c m h = ground arith
only-one (x ∷ []) c m h =
    (ap (λ o. (pair_or (x, title_date) o).0 ∷ []) h, ap (λ o. (pair_or (x, title_date) o).1) h)
only-one (x ∷ y ∷ cs) c m h = ground arith

abbrev pub lacks_id : TvdbEpisode → Bool
lacks_id e = elim e.id [ none ↦ true | some id ↦ false ]
