-- ===== src/DeviceGrant/Service/Invariant.antt =====
-- Invariants of the rows of `oauth_device_grants`, over any sequence of requests.
use scrob.Prelude.{
  ℕ, ◌<◌, String, ◌≡◌, ◌≢◌, refl, Bool, true, false, none, some, List, arith, inl, inr, Bool-cases,
  Option-cases, ◌+◌, ◌==◌, string_eq, nat_eq, All, All-map,
}
use scrob.Prelude.Clock.{Time}
use scrob.DeviceGrant.{
  pending, approved, Grant, Server, AccessToken, Response, tokens, select, is_none, commit,
}
use scrob.DeviceGrant.Handlers.{new_grant, device_token_exchange, exchange_grant, poll, issue}
use scrob.DeviceGrant.Approval.{user_from_device_grant}
use scrob.DeviceGrant.Machine.{
  Change, slowed, polled, timed_out, issued, rotated, revoked, accepted, rejected,
}
use scrob.DeviceGrant.Rows.{Found-cases, select-All, select-holds, store-only}
use scrob.DeviceGrant.Service.{Request, Draws, Closed, run, run-Always}

abbrev pub Anything : String → Type 0
Anything h = Unit

-- What the columns of a row say of each other.
pub record IsValid (g : Grant) : Type 0 where
  pub issued_approved : is_none g.token_issued_at ≡ false → g.status ≡ approved
  pub approved_owned :
      g.status ≡ approved → (is_none g.user_id ≡ false) × (is_none g.approved_at ≡ false)
  pub refresh_issued : is_none g.refresh_token_hash ≡ is_none g.token_issued_at
  pub prev_issued : is_none g.prev_refresh_token_hash ≡ false → is_none g.token_issued_at ≡ false
  pub pending_unowned : g.status ≡ pending → is_none g.user_id ≡ true

Change-IsValid : (g g' : Grant) → Change g g' → IsValid g → IsValid g'
Change-IsValid _ _ (slowed g now free) v = ground arith
Change-IsValid _ _ (polled g now free) v = ground arith
Change-IsValid _ _ (timed_out g now free st late) v = ground arith
Change-IsValid _ _ (issued g now h free ok) v = ground arith
Change-IsValid _ _ (rotated g now h live ok held) v = ground arith
Change-IsValid _ _ (revoked g now live) v = ground arith
Change-IsValid _ _ (accepted g now user name p l) v = ground arith
Change-IsValid _ _ (rejected g now user p l) v = ground arith

IsValid-Closed : Closed Anything 0 IsValid
unfolding new_grant
IsValid-Closed = record { keeps = Change-IsValid; starts = λ s now h c name d k. ground arith }

-- Only an approved grant has had tokens issued; an approved grant has its user and its date; a
-- refresh token is stored exactly for issued grants; a pending grant has no user. All of it stays
-- true of every row, whatever the requests.
pub run-IsValid :
    (hash : String → String) (rs : List Request) (s : Server)
    → All (Draws Anything hash) rs
    → All IsValid s.grants
    → All IsValid (run hash rs s).grants
run-IsValid hash rs s d h =
    (run-Always Anything 0 IsValid IsValid-Closed hash rs s d (h, omega arith)).0

-- The rows with this id, if any, are revoked.
abbrev pub GoneId : ℕ → Grant → Type 0
GoneId id g = g.id ≡ id → is_none g.revoked_at ≡ false

Change-GoneId : (id : ℕ) (g g' : Grant) → Change g g' → GoneId id g → GoneId id g'
Change-GoneId id _ _ (slowed g now free) v = v
Change-GoneId id _ _ (polled g now free) v = v
Change-GoneId id _ _ (timed_out g now free st late) v = v
Change-GoneId id _ _ (issued g now h free ok) v = v
Change-GoneId id _ _ (rotated g now h live ok held) v = v
Change-GoneId id _ _ (revoked g now live) v = λ e. refl
Change-GoneId id _ _ (accepted g now user name p l) v = v
Change-GoneId id _ _ (rejected g now user p l) v = v

GoneId-Closed : (id : ℕ) → Closed Anything (id + 1) (GoneId id)
unfolding new_grant
GoneId-Closed id = record {
  keeps = Change-GoneId id;
  starts = λ s now h c name d k e. absurd (omega arith);
}

unbacked :
    (users : List ℕ) (a : AccessToken) (s : Server)
    → All (GoneId a.jti) s.grants
    → user_from_device_grant users a s ≡ none
unfolding user_from_device_grant
unbacked users a s h = elim (Option-cases a.sub) [
  | inl e ↦ rw (e, user_from_device_grant)
  | inr (u, e) ↦
      rw (e, user_from_device_grant)
        (elim (Found-cases (select (λ g. g.id == a.jti) s)) [
          | inl f ↦ rw f
          | inr (inl f) ↦ rw f
          | inr (inr (g, f)) ↦ rw f (
              ground (
                arith,
                select-holds (λ x. x.id == a.jti) s g f,
                select-All (GoneId a.jti) (λ x. x.id == a.jti) s g f h,
              ))
        ])
]

-- Once the rows with an id are revoked, no sequence of requests makes a device token of that
-- grant name a user again; the id itself is never given to a new grant.
pub run-revoked :
    (hash : String → String) (rs : List Request) (s : Server) (users : List ℕ) (a : AccessToken)
    → All (Draws Anything hash) rs
    → a.jti < s.next_id
    → All (GoneId a.jti) s.grants
    → user_from_device_grant users a (run hash rs s) ≡ none
run-revoked hash rs s users a d k h =
    unbacked users a (run hash rs s)
      (run-Always Anything (a.jti + 1) (GoneId a.jti) (GoneId-Closed a.jti) hash rs s d
        (h, omega arith)).0

-- The rows with this device code, if any, have had their tokens.
abbrev pub Spent : String → Grant → Type 0
Spent h g = g.device_code_hash ≡ h → is_none g.token_issued_at ≡ false

Change-Spent : (h : String) (g g' : Grant) → Change g g' → Spent h g → Spent h g'
Change-Spent h _ _ (slowed g now free) v = v
Change-Spent h _ _ (polled g now free) v = v
Change-Spent h _ _ (timed_out g now free st late) v = v
Change-Spent h _ _ (issued g now h' free ok) v = λ e. refl
Change-Spent h _ _ (rotated g now h' live ok held) v = v
Change-Spent h _ _ (revoked g now live) v = v
Change-Spent h _ _ (accepted g now user name p l) v = v
Change-Spent h _ _ (rejected g now user p l) v = v

-- The device codes drawn later have other hashes.
abbrev pub Other : String → String → Type 0
Other h k = k ≢ h

Spent-Closed : (h : String) → Closed (Other h) 0 (Spent h)
unfolding new_grant
Spent-Closed h = record { keeps = Change-Spent h; starts = λ s now k c name d n e. absurd (d e) }

abbrev pub gives_tokens : Response → Bool
gives_tokens r = elim r [ tokens a t ↦ true | _ ↦ false ]

refused :
    (hash : String → String) (now : Time) (raw fresh : String) (s : Server)
    → All (Spent (hash raw)) s.grants
    → gives_tokens (device_token_exchange hash now raw fresh s).1 ≡ false
unfolding device_token_exchange exchange_grant
refused hash now raw fresh s h = elim (Bool-cases (raw == "")) [
  | inl empty ↦ rw empty
  | inr given ↦ rw given (elim (Found-cases (select (λ g. g.device_code_hash == hash raw) s)) [
    | inl f ↦ rw f
    | inr (inl f) ↦ rw f
    | inr (inr (g, f)) ↦
        let has = select-All (Spent (hash raw)) (λ x. x.device_code_hash == hash raw) s g f h in
        let is = select-holds (λ x. x.device_code_hash == hash raw) s g f in
        rw (f, has ((string_eq.same_iff g.device_code_hash (hash raw)).0 is))
  ])
]

abbrev issued_row : (String → String) → Time → String → Grant → Grant
issued_row hash now fresh g = record g {
  last_polled_at = some now;
  refresh_token_hash = some (hash fresh);
  prev_refresh_token_hash = none;
  token_issued_at = some now;
  last_seen_at = some now;
}

issuing :
    (hash : String → String) (now : Time) (fresh : String) (g : Grant) (s : Server)
    → gives_tokens (exchange_grant hash now fresh g s).1 ≡ true
    → (exchange_grant hash now fresh g s).0 ≡ commit (issued_row hash now fresh g) s
unfolding exchange_grant poll issue
issuing hash now fresh g s h = ground arith

-- An exchange that issues tokens issues them to the one row with the code, which is then spent.
issued_Spent :
    (hash : String → String) (now : Time) (raw fresh : String) (s : Server)
    → gives_tokens (device_token_exchange hash now raw fresh s).1 ≡ true
    → All (Spent (hash raw)) (device_token_exchange hash now raw fresh s).0.grants
unfolding device_token_exchange
issued_Spent hash now raw fresh s h = elim (Bool-cases (raw == "")) [
  | inl empty ↦ absurd (cc (rw (empty, device_token_exchange) at h))
  | inr given ↦ elim (Found-cases (select (λ g. g.device_code_hash == hash raw) s)) [
    | inl f ↦ absurd (cc (rw (given, f, device_token_exchange) at h))
    | inr (inl f) ↦ absurd (cc (rw (given, f, device_token_exchange) at h))
    | inr (inr (g, f)) ↦
        rw (given, f, issuing hash now fresh g s (rw (given, f, device_token_exchange) at h))
          (All-map _ (λ x k e. k ((string_eq.same_iff x.device_code_hash (hash raw)).1 e))
            (store-only (λ x. x.device_code_hash == hash raw)
              (λ x. is_none x.token_issued_at ≡ false) g (issued_row hash now fresh g) s f refl
              refl))
  ]
]

-- A device code is good for one exchange: after an exchange that issued tokens, no later exchange
-- of the same code issues any, whatever requests come between, as long as no new grant draws a
-- code with the same hash.
pub exchange_once :
    (hash : String → String) (now now' : Time) (raw fresh fresh' : String) (s : Server)
    (rs : List Request)
    → gives_tokens (device_token_exchange hash now raw fresh s).1 ≡ true
    → All (Draws (Other (hash raw)) hash) rs
    → gives_tokens
        (device_token_exchange hash now' raw fresh'
          (run hash rs (device_token_exchange hash now raw fresh s).0)).1
      ≡ false
exchange_once hash now now' raw fresh fresh' s rs h d =
    refused hash now' raw fresh' _
      (run-Always (Other (hash raw)) 0 (Spent (hash raw)) (Spent-Closed (hash raw)) hash rs
        (device_token_exchange hash now raw fresh s).0 d
        (issued_Spent hash now raw fresh s h, omega arith)).0
