-- ===== src/DeviceGrant/Service.antt =====
-- The service as a whole: the requests that reach it one after another, and what is true of every
-- row however long it runs.
pub mod Invariant
mod Tests
use scrob.Prelude.{
  ℕ, ◌+◌, String, ◌≡◌, refl, ◌≤◌, arith, inl, inr, Bool, Bool-cases, true, false, not, ◌||◌, ◌==◌,
  List, [], ◌∷◌, ◌++◌, All, All-append, All-filter, nat_eq,
}
use scrob.Prelude.Clock.{Time}
use scrob.Prelude.Text.{Text, text_eq, codes, strip}
use scrob.DeviceGrant.{Grant, Server, Response}
use scrob.DeviceGrant.Handlers.{
  is_dead, new_grant, device_code, device_token_exchange, device_token_refresh, device_token,
}
use scrob.DeviceGrant.Approval.{
  device_pending, device_approve, list_device_grants, revoke_device_grant, load_pending_grant,
}
use scrob.DeviceGrant.Machine.{Change, Evolves, same, change, create}
use scrob.DeviceGrant.Rows.{Found-cases, select-All, store-All}
use scrob.DeviceGrant.Refines.{
  device_code-Evolves, exchange-Evolves, refresh-Evolves, approve-Evolves, revoke-Evolves,
}

-- A request with the clock and the random values that its handler draws. `exchange` and `refresh`
-- are what a `token` request with the grant type for it comes to.
pub data Request : Type 0 where
  code : Time → List Text → String → Text → Text → Request
  token : Time → Text → String → String → String → Request
  exchange : Time → String → String → Request
  refresh : Time → String → String → Request
  describe : Time → Text → Request
  approve : Time → ℕ → Text → Text → Text → Request
  listing : ℕ → Request
  revoke : Time → ℕ → ℕ → Request

unfoldable pub serve : (String → String) → Request → Server → Server × Response
serve hash (code now cs raw name scope) s = device_code hash now cs raw name scope s
serve hash (token now grant_type device_raw refresh_raw fresh) s =
    device_token hash now grant_type device_raw refresh_raw fresh s
serve hash (exchange now raw fresh) s = device_token_exchange hash now raw fresh s
serve hash (refresh now raw fresh) s = device_token_refresh hash now raw fresh s
serve hash (describe now c) s = device_pending now c s
serve hash (approve now user c action name) s = device_approve now user c action name s
serve hash (listing user) s = list_device_grants user s
serve hash (revoke now user id) s = revoke_device_grant now user id s

unfoldable pub run : (String → String) → List Request → Server → Server
run hash [] s = s
run hash (r ∷ rs) s = run hash rs (serve hash r s).0

-- The hash of the device code that a request draws.
abbrev pub Draws : (String → Type 0) → (String → String) → Request → Type 0
Draws D hash (code now cs raw name scope) = D (hash raw)
Draws D hash _ = Unit

describe-Evolves :
    (D : String → Type 0) (now : Time) (c : Text) (s : Server)
    → Evolves D s (device_pending now c s).0
unfolding device_pending
describe-Evolves D now c s = elim (Found-cases (load_pending_grant now c s)) [
  | inl e ↦ rw (e, device_pending) same
  | inr (inl e) ↦ rw (e, device_pending) same
  | inr (inr (g, e)) ↦ rw (e, device_pending) same
]

token-Evolves :
    (D : String → Type 0) (hash : String → String) (now : Time) (s : Server) (grant_type : Text)
    (device_raw refresh_raw fresh : String)
    → Evolves D s (device_token hash now grant_type device_raw refresh_raw fresh s).0
unfolding device_token
token-Evolves D hash now s grant_type device_raw refresh_raw fresh =
    elim (Bool-cases (
      strip grant_type == codes "urn:ietf:params:oauth:grant-type:device_code"
      || strip grant_type == codes "device_code")) [
        | inl t ↦ rw t (exchange-Evolves D hash now s device_raw fresh)
        | inr f ↦ rw f (elim (Bool-cases (strip grant_type == codes "refresh_token")) [
          | inl t ↦ rw t (refresh-Evolves D hash now s refresh_raw fresh)
          | inr g ↦ rw g same
        ])
      ]

-- Every request is a step of the state machine: the table stays as it is, a pending grant is
-- added to what the housekeeping leaves, or one row that the handler selected makes a `Change`.
pub serve-Evolves :
    (D : String → Type 0) (hash : String → String) (r : Request) (s : Server)
    → Draws D hash r
    → Evolves D s (serve hash r s).0
unfolding serve list_device_grants
serve-Evolves D hash (code now cs raw name scope) s d =
    device_code-Evolves D hash now s cs raw name scope d
serve-Evolves D hash (token now grant_type device_raw refresh_raw fresh) s d =
    token-Evolves D hash now s grant_type device_raw refresh_raw fresh
serve-Evolves D hash (exchange now raw fresh) s d = exchange-Evolves D hash now s raw fresh
serve-Evolves D hash (refresh now raw fresh) s d = refresh-Evolves D hash now s raw fresh
serve-Evolves D hash (describe now c) s d = describe-Evolves D now c s
serve-Evolves D hash (approve now user c action name) s d =
    approve-Evolves D now s user c action name
serve-Evolves D hash (listing user) s d = same
serve-Evolves D hash (revoke now user id) s d = revoke-Evolves D now s user id

-- A predicate of rows that every change keeps and that new grants have, if their ids start at `n`.
pub record Closed (D : String → Type 0) (n : ℕ) (P : Grant → Type 0) : Type 0 where
  pub keeps : (g g' : Grant) → Change g g' → P g → P g'
  pub starts :
      (s : Server) (now : Time) (h : String) (c name : Text)
      → D h
      → n ≤ s.next_id
      → P (new_grant s now h c name)

module _ (D : String → Type 0) (n : ℕ) (P : Grant → Type 0) (closed : Closed D n P) where
  -- `P` holds of all rows, and ids from `n` on are still to come.
  abbrev pub Always : Server → Type 0
  Always s = All P s.grants × (n ≤ s.next_id)

  Evolves-Always : (s s' : Server) → Evolves D s s' → Always s → Always s'
  Evolves-Always s s' same h = h
  Evolves-Always s s' (change p {g = g} {g' = g'} found c) (h, k) =
      (store-All P g' s.grants (closed.keeps g g' c (select-All P p s g found h)) h, k)
  Evolves-Always s s' (create now hash c name d) (h, k) = (
    All-append P _ _ (All-filter P (λ g. not (is_dead now g)) s.grants h)
        (closed.starts s now hash c name d k, tt),
    omega arith,
  )

  pub run-Always :
      (hash : String → String) (rs : List Request) (s : Server)
      → All (Draws D hash) rs
      → Always s
      → Always (run hash rs s)
  unfolding run
  run-Always hash [] s d h = h
  run-Always hash (r ∷ rs) s (d, ds) h =
      run-Always hash rs (serve hash r s).0 ds (Evolves-Always s _ (serve-Evolves D hash r s d) h)
