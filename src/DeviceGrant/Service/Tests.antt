-- ===== src/DeviceGrant/Service/Tests.antt =====
-- A device that is authorised, polls, refreshes and is revoked.
use text.Mathlib.TextEquality.{eq_iff}
use scrob.Prelude.{
  ◌+◌, String, ◌≡◌, ◌≢◌, refl, true, false, none, some, List, [], ◌∷◌, arith, All, string_eq,
  nat_eq,
}
use scrob.Prelude.Clock.{minutes}
use scrob.Prelude.Text.{codes, upper, strip, lstrip, lower, prefix, is_space}
use scrob.DeviceGrant.{
  Grant, Server, AccessToken, approved, oauth_error, tokens, invalid_grant, store,
  scalar_one_or_none, normalize_user_code, dashed, in_alphabet,
}
use scrob.DeviceGrant.Handlers.{
  device_code, pick_code, is_dead, new_grant, device_token_exchange, exchange_grant, poll, issue,
  device_token_refresh, rotate, replay, access_token,
}
use scrob.DeviceGrant.Approval.{
  device_approve, load_pending_grant, revoke_device_grant, user_from_device_grant,
}
use scrob.DeviceGrant.Machine.{Evolves}
use scrob.DeviceGrant.Replay.{refresh-replay}
use scrob.DeviceGrant.Service.{Request, code, refresh, approve, revoke, serve, run, serve-Evolves}
use scrob.DeviceGrant.Service.Invariant.{
  Anything, IsValid, GoneId, gives_tokens, run-IsValid, run-revoked, exchange_once,
}

program : Unit {0}
unfolding upper strip lstrip lower prefix is_space store scalar_one_or_none normalize_user_code
    dashed in_alphabet device_code pick_code is_dead new_grant device_token_exchange exchange_grant
    poll issue device_token_refresh rotate replay device_approve load_pending_grant
    revoke_device_grant user_from_device_grant serve run
program = tt

-- For a test the digest of a token is the token.
abbrev digest : String → String
digest s = s

abbrev start : Server
start = record { grants = []; next_id = 1 }

abbrev asked : Request
asked = code (minutes 1) (codes "ABCD-2345" ∷ []) "dev" (codes "Kodi") []

abbrev granted : Request
granted = approve (minutes 2) 7 (codes "abcd 2345") (codes "Approve") []

abbrev ready : List Request
ready = asked ∷ granted ∷ []

ready_exchange :
    gives_tokens (device_token_exchange digest (minutes 3) "dev" "r1" (run digest ready start)).1
    ≡ true
unfolding program
ready_exchange = refl

serve-Evolves_example : Evolves Anything start (serve digest asked start).0
serve-Evolves_example = serve-Evolves Anything digest asked start tt

run-IsValid_example : All IsValid (run digest ready start).grants
run-IsValid_example = run-IsValid digest ready start (tt, (tt, tt)) tt

abbrev paired : Server
paired = (device_token_exchange digest (minutes 3) "dev" "r1" (run digest ready start)).0

abbrev stopped : Server
stopped = (serve digest (revoke (minutes 4) 7 1) paired).0

abbrev token : AccessToken
token = record { sub = some 7; scope = codes "write"; jti = 1 }

backed : user_from_device_grant (7 ∷ []) token paired ≡ some 7
unfolding program
backed = refl

stopped_GoneId : All (GoneId 1) stopped.grants
unfolding program
stopped_GoneId = (λ e. refl, tt)

stopped_next : 1 + 1 ≡ stopped.next_id
unfolding program
stopped_next = refl

run-revoked_example :
    user_from_device_grant
      (7 ∷ [])
      token
      (run digest (refresh (minutes 5) "r1" "r2" ∷ asked ∷ []) stopped)
    ≡ none
run-revoked_example =
    run-revoked digest (refresh (minutes 5) "r1" "r2" ∷ asked ∷ []) stopped (7 ∷ []) token
      (tt, (tt, tt)) (omega (arith, stopped_next)) stopped_GoneId

exchange_once_example :
    gives_tokens
      (device_token_exchange digest
        (minutes 9)
        "dev"
        "r3"
        (run digest (refresh (minutes 5) "r1" "r2" ∷ []) paired)).1
    ≡ false
exchange_once_example =
    exchange_once digest (minutes 3) (minutes 9) "dev" "r1" "r3" (run digest ready start)
      (refresh (minutes 5) "r1" "r2" ∷ []) ready_exchange (tt, tt)

abbrev row : Grant
row = record {
  id = 1;
  device_code_hash = "dev";
  user_code = codes "ABCD-2345";
  client_name = codes "Kodi";
  scope = codes "write";
  status = approved;
  interval = 5;
  user_id = some 7;
  created_at = minutes 1;
  expires_at = minutes 16;
  last_polled_at = some (minutes 3);
  approved_at = some (minutes 2);
  token_issued_at = some (minutes 3);
  last_seen_at = some (minutes 3);
  revoked_at = none;
  refresh_token_hash = some "r1";
  prev_refresh_token_hash = none;
}

abbrev single : Server
single = record { grants = row ∷ []; next_id = 2 }

new_ne_old : ◌≢◌ {A = String} "r2" "r1"
new_ne_old = ground (arith, eq_iff "r2" "r1")

refresh-replay_example :
    ((device_token_refresh digest (minutes 5) "r1" "r2" single).1 ≡ tokens (access_token row) "r2")
    × ((device_token_refresh digest
          (minutes 6)
          "r1"
          "r9"
          (device_token_refresh digest (minutes 5) "r1" "r2" single).0).1
        ≡ oauth_error invalid_grant)
    × All
        (GoneId 1)
        (device_token_refresh digest
          (minutes 6)
          "r1"
          "r9"
          (device_token_refresh digest (minutes 5) "r1" "r2" single).0).0.grants
unfolding scalar_one_or_none
refresh-replay_example =
    refresh-replay digest (minutes 5) (minutes 6) "r1" "r2" "r9" single row refl refl refl refl
      new_ne_old refl refl
