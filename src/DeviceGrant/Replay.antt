-- ===== src/DeviceGrant/Replay.antt =====
-- A refresh token that was rotated away and comes back: `_device_token_refresh`.
use scrob.Prelude.{
  String, ◌≡◌, ◌≢◌, refl, Bool, true, false, some, arith, ◌==◌, string_eq, nat_eq, All, All-map,
}
use scrob.Prelude.Clock.{Time}
use scrob.DeviceGrant.{
  Grant, Server, oauth_error, tokens, invalid_grant, select, holds, is_none, commit, approved, one,
  nothing,
}
use scrob.DeviceGrant.Handlers.{device_token_refresh, rotate, replay, access_token}
use scrob.DeviceGrant.Rows.{store-id, store-only, select-holds, select-nothing, select-store}
use scrob.DeviceGrant.Service.Invariant.{GoneId}

-- The row has the hash as its refresh token; as the one before.
abbrev pub has_token : String → Grant → Bool
has_token h g = holds (λ k. k == h) g.refresh_token_hash

abbrev pub had_token : String → Grant → Bool
had_token h g = holds (λ k. k == h) g.prev_refresh_token_hash

abbrev rotated_row : (String → String) → Time → String → Grant → Grant
rotated_row hash now fresh g = record g {
  prev_refresh_token_hash = g.refresh_token_hash;
  refresh_token_hash = some (hash fresh);
  last_seen_at = some now;
}

refresh-rotates :
    (hash : String → String) (now : Time) (raw fresh : String) (s : Server) (g : Grant)
    → (raw == "") ≡ false
    → select (has_token (hash raw)) s ≡ one g
    → is_none g.revoked_at ≡ true
    → g.status ≡ approved
    → device_token_refresh hash now raw fresh s
      ≡ (commit (rotated_row hash now fresh g) s, tokens (access_token g) fresh)
unfolding device_token_refresh rotate
refresh-rotates hash now raw fresh s g n f live ok = rw (n, f) (ground arith)

refresh-revokes :
    (hash : String → String) (now : Time) (raw fresh : String) (s : Server) (g : Grant)
    → (raw == "") ≡ false
    → select (has_token (hash raw)) s ≡ nothing
    → select (had_token (hash raw)) s ≡ one g
    → is_none g.revoked_at ≡ true
    → device_token_refresh hash now raw fresh s
      ≡ (commit (record g { revoked_at = some now }) s, oauth_error invalid_grant)
unfolding device_token_refresh replay
refresh-revokes hash now raw fresh s g n f p live = rw (n, f) (rw (p, replay) (rw live))

not_true : (b : Bool) → (b ≡ true → b ≡ false) → b ≡ false
not_true true h = h refl
not_true false h = refl

-- A refresh with the token of a grant that is approved and not revoked rotates it: the answer is
-- the new token. If the very next request presents the old one again, the answer is an error and
-- the grant is revoked. (The tokens' hashes differ, the id is a key, and no row had the old token as
-- its previous one.)
pub refresh-replay :
    (hash : String → String) (now now' : Time) (raw fresh fresh' : String) (s : Server) (g : Grant)
    → (raw == "") ≡ false
    → select (has_token (hash raw)) s ≡ one g
    → is_none g.revoked_at ≡ true
    → g.status ≡ approved
    → hash fresh ≢ hash raw
    → select (λ x. x.id == g.id) s ≡ one g
    → select (had_token (hash raw)) s ≡ nothing
    → ((device_token_refresh hash now raw fresh s).1 ≡ tokens (access_token g) fresh)
      × ((device_token_refresh hash now' raw fresh' (device_token_refresh hash now raw fresh s).0).1
          ≡ oauth_error invalid_grant)
      × All
          (GoneId g.id)
          (device_token_refresh hash now' raw fresh'
            (device_token_refresh hash now raw fresh s).0).0.grants
refresh-replay hash now now' raw fresh fresh' s g n f live ok differ key new =
    let g1 = rotated_row hash now fresh g in
    let s1 = commit g1 s in
    let lost : has_token (hash raw) g1 ≡ false =
      ground (arith, string_eq.same_iff (hash fresh) (hash raw)) in
    let gone : select (has_token (hash raw)) s1 ≡ nothing =
      select-nothing (has_token (hash raw)) s1 (
        All-map _ (λ x. not_true (has_token (hash raw) x))
          (store-only (has_token (hash raw)) (λ x. has_token (hash raw) x ≡ false) g g1 s f refl
            lost)) in
    let found : select (had_token (hash raw)) s1 ≡ one g1 =
      select-store (had_token (hash raw)) g g1 s key new
        (select-holds (has_token (hash raw)) s g f) in
    rw
      (
        refresh-rotates hash now raw fresh s g n f live ok,
        refresh-revokes hash now' raw fresh' s1 g1 n gone found live,
      )
      (
        refl,
        refl,
        store-id (λ x. is_none x.revoked_at ≡ false) (record g1 { revoked_at = some now' }) _ refl,
      )
