-- ===== src/DeviceGrant.antt =====
-- The OAuth 2.0 device grants: backend/models/oauth_device.py, the /auth/device handlers of
-- backend/routers/auth.py and `_user_from_device_grant` of backend/dependencies.py.
-- The clock, the random codes and tokens, and SHA-256 are arguments; rate limits are left out.
pub mod Handlers
pub mod Approval
pub mod Machine
pub mod Rows
pub mod Refines
pub mod Service
pub mod Replay
pub mod Codes
use scrob.Prelude.{
  ℕ, ◌+◌, ◌-◌, String, Bool, true, false, not, ◌&&◌, ◌||◌, Option, none, some, List, [], ◌∷◌, ◌++◌,
  length, ltb, leb, if◌then◌else◌, ◌==◌, nat_eq, string_eq, filter, any,
}
use scrob.Prelude.Clock.{Time, seconds, minutes, hours, days}
use scrob.Prelude.Text.{Text, codes, text_eq, strip, prefix, lower, upper}

pub data Status : Type 0 where
  pending approved denied expired : Status

-- A row of `oauth_device_grants`.
pub record Grant : Type 0 where
  pub id : ℕ
  pub device_code_hash : String
  pub user_code : Text
  pub client_name : Text
  pub scope : Text
  pub status : Status
  pub interval : ℕ
  pub user_id : Option ℕ
  pub created_at : Time
  pub expires_at : Time
  pub last_polled_at : Option Time
  pub approved_at : Option Time
  pub token_issued_at : Option Time
  pub last_seen_at : Option Time
  pub revoked_at : Option Time
  pub refresh_token_hash : Option String
  pub prev_refresh_token_hash : Option String

-- The table, with the next value of its identity column.
pub record Server : Type 0 where
  pub grants : List Grant
  pub next_id : ℕ

pub data OauthError : Type 0 where
  invalid_request invalid_grant slow_down expired_token access_denied authorization_pending :
      OauthError
  unsupported_grant_type : OauthError

-- The claims of an access token: `sub`, `scope` and `jti`; its lifetime is that of the module.
pub record AccessToken : Type 0 where
  pub sub : Option ℕ
  pub scope : Text
  pub jti : ℕ

pub data Response : Type 0 where
  oauth_error : OauthError → Response
  tokens : AccessToken → String → Response
  code_issued : String → Text → Response
  pending_grant : Text → Text → Time → Response
  status_is : Status → Response
  grants_are : List Grant → Response
  revoked : Response
  http_error : ℕ → Response

abbrev pub device_code_ttl : ℕ
device_code_ttl = minutes 15

abbrev pub device_poll_interval : ℕ
device_poll_interval = 5

abbrev pub user_code_alphabet : Text
user_code_alphabet = codes "ABCDEFGHJKMNPQRSTUVWXYZ23456789"

unfoldable pub in_alphabet : ℕ → Bool
in_alphabet c = any (λ d. c == d) user_code_alphabet

-- `f"{s[:4]}-{s[4:]}"` of eight characters, and "" of any other number.
unfoldable pub dashed : Text → Text
dashed (a ∷ b ∷ c ∷ d ∷ e ∷ f ∷ g ∷ h ∷ []) = a ∷ b ∷ c ∷ d ∷ b'-' ∷ e ∷ f ∷ g ∷ h ∷ []
dashed _ = []

unfoldable pub normalize_user_code : Text → Text
normalize_user_code value = dashed (filter in_alphabet (upper value))

-- `scalar_one_or_none`: several rows raise.
pub data Found : Type 0 where
  nothing several : Found
  one : Grant → Found

unfoldable pub scalar_one_or_none : List Grant → Found
scalar_one_or_none [] = nothing
scalar_one_or_none (g ∷ []) = one g
scalar_one_or_none (g ∷ g' ∷ gs) = several

abbrev pub select : (Grant → Bool) → Server → Found
select p s = scalar_one_or_none (filter p s.grants)

abbrev pub holds : {A : Type 0} → (A → Bool) → Option A → Bool
holds p none = false
holds p (some a) = p a

abbrev pub is_none : {A : Type 0} → Option A → Bool
is_none none = true
is_none (some a) = false

-- A commit of one changed row.
unfoldable pub store : Grant → List Grant → List Grant
store g [] = []
store g (h ∷ hs) = (if h.id == g.id then g else h) ∷ store g hs

abbrev pub commit : Grant → Server → Server
commit g s = record s { grants = store g s.grants }

abbrev pub status_beq : Status → Status → Bool
status_beq pending pending = true
status_beq approved approved = true
status_beq denied denied = true
status_beq expired expired = true
status_beq _ _ = false
