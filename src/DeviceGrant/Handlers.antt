-- ===== src/DeviceGrant/Handlers.antt =====
-- The handlers of backend/routers/auth.py that a device calls. `hash` is SHA-256.
use scrob.Prelude.{
  ◌+◌, String, Bool, not, ◌&&◌, ◌||◌, none, some, List, [], ◌∷◌, ◌++◌, ltb, leb, if◌then◌else◌,
  ◌==◌, nat_eq, string_eq, filter, any,
}
use scrob.Prelude.Clock.{Time, seconds, days}
use scrob.Prelude.Text.{Text, codes, text_eq, strip, prefix, lower}
use scrob.DeviceGrant.{
  pending, approved, denied, expired, Grant, Server, AccessToken, Response, oauth_error, tokens,
  code_issued, http_error, invalid_request, invalid_grant, slow_down, expired_token, access_denied,
  authorization_pending, unsupported_grant_type, device_code_ttl, device_poll_interval, nothing,
  several, one, select, holds, is_none, commit, status_beq,
}

-- The housekeeping of `device_code`: the rows that it deletes.
unfoldable pub is_dead : Time → Grant → Bool
is_dead now g =
    ((status_beq g.status pending || status_beq g.status expired) && ltb g.expires_at now)
    || (status_beq g.status denied && ltb (g.created_at + days 7) now)
    || holds (λ t. ltb (t + days 30) now) g.revoked_at

-- `x.strip()[:120]`
abbrev pub clean : Text → Text
clean s = prefix 120 (strip s)

abbrev pub or_else : Text → Text → Text
or_else [] d = d
or_else (c ∷ s) d = c ∷ s

-- The first of the six candidates that no row has; the empty text if all clash.
unfoldable pub pick_code : List Text → List Grant → Text
pick_code [] gs = []
pick_code (c ∷ cs) gs =
    let rest = pick_code cs gs in if any (λ g. g.user_code == c) gs then rest else c

unfoldable pub new_grant : Server → Time → String → Text → Text → Grant
new_grant s now device_hash user_code client_name = record {
  id = s.next_id;
  device_code_hash = device_hash;
  user_code = user_code;
  client_name = client_name;
  scope = codes "write";
  status = pending;
  interval = device_poll_interval;
  user_id = none;
  created_at = now;
  expires_at = now + device_code_ttl;
  last_polled_at = none;
  approved_at = none;
  token_issued_at = none;
  last_seen_at = none;
  revoked_at = none;
  refresh_token_hash = none;
  prev_refresh_token_hash = none;
}

abbrev pub alive : Time → Server → List Grant
alive now s = filter (λ g. not (is_dead now g)) s.grants

abbrev pub access_token : Grant → AccessToken
access_token g = record { sub = g.user_id; scope = g.scope; jti = g.id }

module _ (hash : String → String) where
  -- A scope other than "write" is refused, so "write" is what is stored. A hash that a row has is
  -- refused by its unique constraint; that of `user_code` holds by `pick_code`. An error rolls back.
  unfoldable pub device_code : Time → List Text → String → Text → Text → Server → Server × Response
  unfolding new_grant
  device_code now candidates device_raw client_name scope s =
      let user_code = pick_code candidates (alive now s) in
      if not (lower (strip (or_else scope (codes "write"))) == codes "write")
      then (s, http_error 400)
      else if user_code == []
      then (s, http_error 503)
      else if any (λ g. g.device_code_hash == hash device_raw) (alive now s)
      then (s, http_error 500)
      else (
        record s {
          grants =
              alive now s
              ++ new_grant s now (hash device_raw) user_code
                  (or_else (clean client_name) (codes "Unknown app"))
                ∷ [];
          next_id = s.next_id + 1;
        },
        code_issued device_raw user_code,
      )

  unfoldable pub issue : Time → String → Grant → Server → Server × Response
  issue now fresh g s =
      let g' : Grant = record g {
        refresh_token_hash = some (hash fresh);
        prev_refresh_token_hash = none;
        token_issued_at = some now;
        last_seen_at = some now;
      } in
      (commit g' s, tokens (access_token g') fresh)

  -- The polling interval was kept: the answer is by the grant's status.
  unfoldable pub poll : Time → String → Grant → Server → Server × Response
  poll now fresh g s =
      if (status_beq g.status pending || status_beq g.status expired) && leb g.expires_at now
      then (commit (record g { status = expired }) s, oauth_error expired_token)
      else elim g.status [
        | expired ↦ (commit g s, oauth_error expired_token)
        | denied ↦ (commit g s, oauth_error access_denied)
        | pending ↦ (commit g s, oauth_error authorization_pending)
        | approved ↦ issue now fresh g s
      ]

  unfoldable pub exchange_grant : Time → String → Grant → Server → Server × Response
  exchange_grant now fresh g s =
      if not (is_none g.token_issued_at)
      then (s, oauth_error invalid_grant)
      else if holds (λ t. ltb now (t + seconds g.interval)) g.last_polled_at
      then (
        commit (record g { interval = g.interval + 5; last_polled_at = some now }) s,
        oauth_error slow_down,
      )
      else poll now fresh (record g { last_polled_at = some now }) s

  unfoldable pub device_token_exchange : Time → String → String → Server → Server × Response
  device_token_exchange now raw fresh s =
      if raw == ""
      then (s, oauth_error invalid_request)
      else elim (select (λ g. g.device_code_hash == hash raw) s) [
        | nothing ↦ (s, oauth_error invalid_grant)
        | several ↦ (s, http_error 500)
        | one g ↦ exchange_grant now fresh g s
      ]

  -- No row has the token: a row that had it before its last rotation is revoked.
  unfoldable pub replay : Time → String → Server → Server × Response
  replay now raw s = elim (select (λ g. holds (λ h. h == hash raw) g.prev_refresh_token_hash) s) [
    | nothing ↦ (s, oauth_error invalid_grant)
    | several ↦ (s, http_error 500)
    | one g ↦
        if is_none g.revoked_at
        then (commit (record g { revoked_at = some now }) s, oauth_error invalid_grant)
        else (s, oauth_error invalid_grant)
  ]

  unfoldable pub rotate : Time → String → Grant → Server → Server × Response
  rotate now fresh g s =
      if not (is_none g.revoked_at) || not (status_beq g.status approved)
      then (s, oauth_error invalid_grant)
      else (let g' : Grant = record g {
        prev_refresh_token_hash = g.refresh_token_hash;
        refresh_token_hash = some (hash fresh);
        last_seen_at = some now;
      } in
          (commit g' s, tokens (access_token g') fresh))

  unfoldable pub device_token_refresh : Time → String → String → Server → Server × Response
  device_token_refresh now raw fresh s =
      if raw == ""
      then (s, oauth_error invalid_request)
      else elim (select (λ g. holds (λ h. h == hash raw) g.refresh_token_hash) s) [
        | nothing ↦ replay now raw s
        | several ↦ (s, http_error 500)
        | one g ↦ rotate now fresh g s
      ]

  -- The grant type says which of the two it is; the other parameter of the request is not read.
  unfoldable pub device_token : Time → Text → String → String → String → Server → Server × Response
  device_token now grant_type device_raw refresh_raw fresh s =
      if strip grant_type == codes "urn:ietf:params:oauth:grant-type:device_code"
        || strip grant_type == codes "device_code"
      then device_token_exchange now device_raw fresh s
      else if strip grant_type == codes "refresh_token"
      then device_token_refresh now refresh_raw fresh s
      else (s, oauth_error unsupported_grant_type)
