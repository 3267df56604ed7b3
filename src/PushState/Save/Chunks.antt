-- ===== src/PushState/Save/Chunks.antt =====
-- Cutting the rows into slices changes nothing of what a sequence of statements does.
use scrob.Prelude.{
  ℕ, zero, suc, ◌≤◌, ◌≡◌, ◌↔◌, refl, Bool, true, false, ◌||◌, Option, none, some, List, [], ◌∷◌,
  ◌++◌, arith, length, if◌then◌else◌, ◌==◌, nat_eq, pair_eq, contains, contains-append, ap, sym,
  ◌∙◌,
}
use scrob.Prelude.Clock.{Time}
use scrob.Prelude.Dict.{Dict, get, put, DistinctKeys, get-put, get-eq-none}
use scrob.Prelude.Text.{text_eq}
use scrob.PushState.{delete_chunk, Item, Table}
use scrob.PushState.Save.{take, drop, slices, upsert, upsert_slices}

pub concat {ℓ} : {A : Type ℓ} → List (List A) → List A
concat [] = []
concat (xs ∷ xss) = xs ++ concat xss

take-drop {ℓ} : {A : Type ℓ} (n : ℕ) (xs : List A) → take n xs ++ drop n xs ≡ xs
unfolding take drop
take-drop zero xs = refl
take-drop (suc n) [] = refl
take-drop (suc n) (x ∷ xs) = ap (λ ys. x ∷ ys) (take-drop n xs)

length-drop {ℓ} : {A : Type ℓ} (n : ℕ) (xs : List A) → length (drop n xs) ≤ length xs
unfolding drop
length-drop zero xs = omega arith
length-drop (suc n) [] = omega arith
length-drop (suc n) (x ∷ xs) = omega (arith, length-drop n xs)

-- Enough fuel: every slice takes at least one element.
pub concat-slices {ℓ} :
    {A : Type ℓ} (fuel n : ℕ) (xs : List A)
    → length xs ≤ fuel
    → concat (slices fuel (suc n) xs) ≡ xs
unfolding slices concat take drop
concat-slices zero n [] h = refl
concat-slices zero n (x ∷ xs) h = absurd (omega (arith, h))
concat-slices (suc fuel) n [] h = refl
concat-slices (suc fuel) n (x ∷ xs) h =
    ap (λ ys. x ∷ (take n xs ++ ys))
      (concat-slices fuel n (drop n xs) (omega (arith, h, length-drop n xs)))
    ∙ ap (λ ys. x ∷ ys) (take-drop n xs)

upsert-append :
    (c : ℕ) (now : Time) (xs ys : Dict Item (Option ℕ)) (t : Table)
    → upsert c now (xs ++ ys) t ≡ upsert c now ys (upsert c now xs t)
unfolding upsert
upsert-append c now [] ys t = refl
upsert-append c now ((item, v) ∷ xs) ys t = upsert-append c now xs ys (put (c, item) (v, now) t)

pub upsert-concat :
    (c : ℕ) (now : Time) (xss : List (Dict Item (Option ℕ))) (t : Table)
    → upsert_slices c now xss t ≡ upsert c now (concat xss) t
unfolding upsert_slices upsert concat
upsert-concat c now [] t = refl
upsert-concat c now (xs ∷ xss) t =
    upsert-concat c now xss (upsert c now xs t) ∙ sym (upsert-append c now xs (concat xss) t)

item_eq : (i item : Item) → ((i == item) ≡ true) ↔ (i ≡ item)
item_eq i item = ground (arith, text_eq.same_iff i.1 item.1)

pub get-upsert :
    (c : ℕ) (now : Time) (rows : Dict Item (Option ℕ)) (t : Table) (c' : ℕ) (item : Item)
    → DistinctKeys rows
    → get (upsert c now rows t) (c', item) ≡ elim (if c' == c then get rows item else none) [
      | none ↦ get t (c', item)
      | some v ↦ some (v, now)
    ]
unfolding upsert get
get-upsert c now [] t c' item h = ground arith
get-upsert c now ((i, v) ∷ rows) t c' item (h, hs) = ground (
  arith,
  get-upsert c now rows (put (c, i) (v, now) t) c' item hs,
  get-put (c, i) (v, now) t (c', item),
  get-eq-none rows i h,
  item_eq i item,
)

-- Whether one of the slices names the media id.
unfoldable pub listed : List (List ℕ) → ℕ → Bool
listed [] m = false
listed (ids ∷ rest) m = contains ids m || listed rest m

pub listed-concat : (xss : List (List ℕ)) (m : ℕ) → listed xss m ≡ contains (concat xss) m
unfolding listed concat contains
listed-concat [] m = refl
listed-concat (ids ∷ rest) m =
    ground (arith, contains-append ids (concat rest) m, listed-concat rest m)

pub listed-slices :
    (ids : List ℕ) (m : ℕ) → listed (slices (length ids) delete_chunk ids) m ≡ contains ids m
listed-slices ids m =
    listed-concat _ m ∙ ap (λ xs. contains xs m) (concat-slices (length ids) 4999 ids (omega arith))
