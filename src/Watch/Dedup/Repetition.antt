-- ===== src/Watch/Dedup/Repetition.antt =====
-- What a duplicate is, said without the query: backend/core/watch_dedup.py.
use scrob.Prelude.{
  ℕ, ◌+◌, ◌≤◌, ◌≡◌, ◌≢◌, refl, sym, ap, ◌∙◌, Bool, true, false, ◌&&◌, Option, none, some, List, [],
  ◌∷◌, arith, any, filter, ◌==◌, nat_eq, Bool-cases, ◌⊎◌, inl, inr,
}
use scrob.Prelude.Clock.{Time, minutes}
use scrob.Watch.{is_episode, Media, WatchEvent}
use scrob.Watch.Dedup.{
  sql_eq, same_position, same_episode_media_ids, is_media, effective_time, excluded,
  is_duplicate_of,
}

abbrev pub Among : Media → List Media → Type 0
Among m [] = ⊥
Among m (x ∷ media) = (x ≡ m) ⊎ Among m media

-- Both columns hold one number.
abbrev pub Equal : Option ℕ → Option ℕ → Type 0
Equal a b = (n : ℕ) × (a ≡ some n) × (b ≡ some n)

-- Two media rows are one episode: they agree in show, season and number, none of which is null.
pub record SameEpisode (media : List Media) (i j : ℕ) : Type 0 where
  pub anchor : Media
  pub other : Media
  pub anchor_among : Among anchor media
  pub other_among : Among other media
  pub anchor_id : anchor.id ≡ i
  pub other_id : other.id ≡ j
  pub anchor_type : is_episode anchor.media_type ≡ true
  pub show : Equal other.show_id anchor.show_id
  pub season : Equal other.season_number anchor.season_number
  pub episode : Equal other.episode_number anchor.episode_number

-- A completed play by the user, of the media or of another row of its episode, at most the window
-- away on either side, and not the row that is excluded.
pub record IsRepetition (media : List Media) (user_id media_id : ℕ) (at : Time) (window : ℕ)
    (exclude : Option ℕ) (e : WatchEvent) : Type 0 where
  pub user : e.user_id ≡ user_id
  pub of_media : (e.media_id ≡ media_id) ⊎ SameEpisode media media_id e.media_id
  pub completed : e.completed ≡ true
  pub not_after : effective_time e ≤ at + minutes window
  pub not_before : at ≤ effective_time e + minutes window
  pub not_excluded : exclude ≢ some e.id

any-Among :
    (f : Media → Bool) (media : List Media)
    → any f media ≡ true
    → (m : Media) × Among m media × (f m ≡ true)
any-Among f [] h = absurd (ground arith)
any-Among f (x ∷ media) h = elim (Bool-cases (f x)) [
  | inl t ↦ (x, inl refl, t)
  | inr n ↦
      let (m, there, holds) = any-Among f media (ground (arith, n, h)) in (m, inr there, holds)
]

Among-any :
    (f : Media → Bool) (media : List Media) (m : Media)
    → Among m media
    → f m ≡ true
    → any f media ≡ true
Among-any f [] m there h = absurd there
Among-any f (x ∷ media) m (inl e) h = let t : f x ≡ true = ap f e ∙ h in ground arith
Among-any f (x ∷ media) m (inr there) h = ground (arith, Among-any f media m there h)

sql_eq-Equal : (a b : Option ℕ) → sql_eq a b ≡ true → Equal a b
sql_eq-Equal none b h = absurd (ground arith)
sql_eq-Equal (some n) none h = absurd (ground arith)
sql_eq-Equal (some n) (some k) h = (k, ap some (ground (arith, h)), refl)

Equal-sql_eq : (a b : Option ℕ) → Equal a b → sql_eq a b ≡ true
Equal-sql_eq a b (n, e, f) = rw e (rw f (ground arith))

any-siblings :
    (p q : Media → Bool) (media : List Media) → any q (filter p media) ≡ any (λ m. p m && q m) media
any-siblings p q [] = refl
any-siblings p q (m ∷ media) = ground (arith, any-siblings p q media)

module _ (media : List Media) (user_id media_id : ℕ) (at : Time) (window : ℕ) (exclude : Option ℕ)
    (e : WatchEvent) where
  abbrev sibling : Media → Bool
  sibling m = any (λ a. a.id == media_id && is_episode a.media_type && same_position m a) media

  same_episode :
      any (λ m. m.id == e.media_id) (same_episode_media_ids media media_id) ≡ true
      → SameEpisode media media_id e.media_id
  unfolding same_episode_media_ids
  same_episode h =
      let (m, m_among, m_holds) =
        any-Among (λ m. sibling m && m.id == e.media_id) media
          (sym (any-siblings sibling (λ m. m.id == e.media_id) media) ∙ h) in
      let siblings : sibling m ≡ true = ground arith in
      let (a, a_among, a_holds) =
        any-Among (λ a. a.id == media_id && is_episode a.media_type && same_position m a) media
          siblings in
      record {
        anchor = a;
        other = m;
        anchor_among = a_among;
        other_among = m_among;
        anchor_id = ground (arith, a_holds);
        other_id = ground (arith, m_holds);
        anchor_type = ground (arith, a_holds);
        show = sql_eq-Equal m.show_id a.show_id (ground (arith, a_holds));
        season = sql_eq-Equal m.season_number a.season_number (ground (arith, a_holds));
        episode = sql_eq-Equal m.episode_number a.episode_number (ground (arith, a_holds));
      }

  listed_episode :
      SameEpisode media media_id e.media_id
      → any (λ m. m.id == e.media_id) (same_episode_media_ids media media_id) ≡ true
  unfolding same_episode_media_ids
  listed_episode h =
      let m = h.other in
      let a = h.anchor in
      let show = Equal-sql_eq m.show_id a.show_id h.show in
      let season = Equal-sql_eq m.season_number a.season_number h.season in
      let episode = Equal-sql_eq m.episode_number a.episode_number h.episode in
      let a_id = h.anchor_id in
      let m_id = h.other_id in
      let typed = h.anchor_type in
      let a_holds : (a.id == media_id && is_episode a.media_type && same_position m a) ≡ true =
        ground (arith, a_id, typed, show, season, episode) in
      let siblings : sibling m ≡ true =
        Among-any (λ a. a.id == media_id && is_episode a.media_type && same_position m a) media a
          h.anchor_among a_holds in
      any-siblings sibling (λ m. m.id == e.media_id) media
      ∙ Among-any (λ m. sibling m && m.id == e.media_id) media m h.other_among
          (ground (arith, siblings, m_id))

  of_media_row :
      is_media media media_id e.media_id ≡ true
      → (e.media_id ≡ media_id) ⊎ SameEpisode media media_id e.media_id
  of_media_row h = elim (Bool-cases (e.media_id == media_id)) [
    | inl t ↦ inl (ground (arith, t))
    | inr f ↦ inr (same_episode (ground (arith, f, h)))
  ]

  is_media_row :
      (e.media_id ≡ media_id) ⊎ SameEpisode media media_id e.media_id
      → is_media media media_id e.media_id ≡ true
  is_media_row (inl t) = ground (arith, t)
  is_media_row (inr h) = ground (arith, listed_episode h)

  kept : (x : Option ℕ) → excluded x e ≡ false → x ≢ some e.id
  kept none h = λ t. cc
  kept (some i) h = λ t. ground (arith, t)

  kept_back : (x : Option ℕ) → x ≢ some e.id → excluded x e ≡ false
  kept_back none h = refl
  kept_back (some i) h = elim (Bool-cases (e.id == i)) [
    | inl t ↦ absurd (h (ap some (ground (arith, t))))
    | inr f ↦ f
  ]

  abbrev tested : Bool
  tested = is_duplicate_of media user_id media_id at window exclude e

  pub test-IsRepetition : tested ≡ true → IsRepetition media user_id media_id at window exclude e
  unfolding is_duplicate_of
  test-IsRepetition h = record {
    user = ground (arith, h);
    of_media = of_media_row (ground (arith, h));
    completed = ground (arith, h);
    not_after = ground (arith, h);
    not_before = ground (arith, h);
    not_excluded = kept exclude (ground (arith, h));
  }

  pub IsRepetition-test : IsRepetition media user_id media_id at window exclude e → tested ≡ true
  unfolding is_duplicate_of
  IsRepetition-test h = ground (
    arith,
    h.user,
    is_media_row h.of_media,
    h.completed,
    h.not_after,
    h.not_before,
    kept_back exclude h.not_excluded,
  )
