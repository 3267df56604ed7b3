-- ===== src/DeviceGrant/Approval.antt =====
-- The handlers of backend/routers/auth.py that a signed-in user calls, and the check of a device
-- token in backend/dependencies.py.
use scrob.Prelude.{
  ℕ, Bool, not, ◌&&◌, ◌||◌, Option, none, some, List, [], ◌∷◌, ltb, leb, if◌then◌else◌, ◌==◌,
  nat_eq, string_eq, filter, find?,
}
use scrob.Prelude.Clock.{Time}
use scrob.Prelude.Text.{Text, codes, text_eq, strip, lower}
use scrob.DeviceGrant.{
  pending, approved, denied, Grant, Server, AccessToken, Response, pending_grant, status_is,
  grants_are, revoked, http_error, normalize_user_code, Found, nothing, several, one, select, holds,
  is_none, commit, status_beq,
}
use scrob.DeviceGrant.Handlers.{clean, or_else}

-- `_load_pending_grant`: `nothing` is its 404.
unfoldable pub load_pending_grant : Time → Text → Server → Found
load_pending_grant now user_code s =
    let wanted = normalize_user_code user_code in
    if wanted == [] then nothing else elim (select (λ g. g.user_code == wanted) s) [
      | nothing ↦ nothing
      | several ↦ several
      | one g ↦ if not (status_beq g.status pending) || leb g.expires_at now then nothing else one g
    ]

unfoldable pub device_pending : Time → Text → Server → Server × Response
device_pending now user_code s = elim (load_pending_grant now user_code s) [
  | nothing ↦ (s, http_error 404)
  | several ↦ (s, http_error 500)
  | one g ↦ (s, pending_grant g.client_name g.scope g.created_at)
]

unfoldable pub device_approve : Time → ℕ → Text → Text → Text → Server → Server × Response
device_approve now user user_code action name s =
    let verb = lower (strip action) in
    if verb == codes "approve"
    then elim (load_pending_grant now user_code s) [
      | nothing ↦ (s, http_error 404)
      | several ↦ (s, http_error 500)
      | one g ↦ (
        commit
            (record g {
              user_id = some user;
              status = approved;
              approved_at = some now;
              client_name = or_else (clean name) g.client_name;
            })
            s,
        status_is approved,
      )
    ]
    else if verb == codes "deny"
    then elim (load_pending_grant now user_code s) [
      | nothing ↦ (s, http_error 404)
      | several ↦ (s, http_error 500)
      | one g ↦ (commit (record g { user_id = some user; status = denied }) s, status_is denied)
    ]
    else (s, http_error 400)

abbrev pub owned : ℕ → ℕ → Grant → Bool
owned user id g = g.id == id && holds (λ u. u == user) g.user_id

-- Newest approval first.
abbrev approved_time : Grant → ℕ
approved_time g = elim g.approved_at [ none ↦ 0 | some t ↦ t ]

unfoldable pub insert_newest : Grant → List Grant → List Grant
insert_newest g [] = g ∷ []
insert_newest g (h ∷ hs) =
    let rest = insert_newest g hs in
    if ltb (approved_time g) (approved_time h) then h ∷ rest else g ∷ h ∷ hs

unfoldable pub newest_first : List Grant → List Grant
unfolding insert_newest
newest_first [] = []
newest_first (g ∷ gs) = insert_newest g (newest_first gs)

unfoldable pub list_device_grants : ℕ → Server → Server × Response
unfolding newest_first
list_device_grants user s = (
  s,
  grants_are (
      newest_first (
        filter
          (λ g.
            holds (λ u. u == user) g.user_id
            && status_beq g.status approved
            && is_none g.revoked_at)
          s.grants)),
)

unfoldable pub revoke_device_grant : Time → ℕ → ℕ → Server → Server × Response
revoke_device_grant now user id s = elim (select (owned user id) s) [
  | nothing ↦ (s, http_error 404)
  | several ↦ (s, http_error 500)
  | one g ↦
      if is_none g.revoked_at
      then (commit (record g { revoked_at = some now }) s, revoked)
      else (s, revoked)
]

-- `_user_from_device_grant`, on a token whose claims are numbers: the user, if the grant still
-- backs it. `users` are the ids of the user rows.
unfoldable pub user_from_device_grant : List ℕ → AccessToken → Server → Option ℕ
user_from_device_grant users token s = elim token.sub [
  | none ↦ none
  | some user ↦ elim (select (λ g. g.id == token.jti) s) [
    | one g ↦
        if not (status_beq g.status approved)
          || not (is_none g.revoked_at)
          || not (holds (λ u. u == user) g.user_id)
        then none
        else find? (λ u. u == user) users
    | _ ↦ none
  ]
]
