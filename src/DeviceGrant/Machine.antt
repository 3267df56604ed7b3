-- ===== src/DeviceGrant/Machine.antt =====
-- The life of a grant as a state machine: every handler of /auth/device leaves the table as it was,
-- adds a new pending grant, or makes one of the changes below to one row.
use scrob.Prelude.{
  ℕ, ◌+◌, ◌<◌, ◌≤◌, String, ◌≡◌, Bool, true, false, ◌||◌, none, some, [], ◌∷◌, ◌++◌, string_eq,
  nat_eq,
}
use scrob.Prelude.Clock.{Time}
use scrob.Prelude.Text.{Text, text_eq}
use scrob.DeviceGrant.{
  pending, approved, denied, expired, Grant, Server, one, select, is_none, commit, status_beq,
}
use scrob.DeviceGrant.Handlers.{alive, new_grant}

pub data Change : Grant → Grant → Type 0 where
  slowed :
      (g : Grant) (now : Time)
      → is_none g.token_issued_at ≡ true
      → Change g (record g { interval = g.interval + 5; last_polled_at = some now })
  polled :
      (g : Grant) (now : Time)
      → is_none g.token_issued_at ≡ true
      → Change g (record g { last_polled_at = some now })
  timed_out :
      (g : Grant) (now : Time)
      → is_none g.token_issued_at ≡ true
      → (status_beq g.status pending || status_beq g.status expired) ≡ true
      → g.expires_at ≤ now
      → Change g (record g { last_polled_at = some now; status = expired })
  issued :
      (g : Grant) (now : Time) (h : String)
      → is_none g.token_issued_at ≡ true
      → g.status ≡ approved
      → Change g (record g {
        last_polled_at = some now;
        refresh_token_hash = some h;
        prev_refresh_token_hash = none;
        token_issued_at = some now;
        last_seen_at = some now;
      })
  rotated :
      (g : Grant) (now : Time) (h : String)
      → is_none g.revoked_at ≡ true
      → status_beq g.status approved ≡ true
      → is_none g.refresh_token_hash ≡ false
      → Change g (record g {
        prev_refresh_token_hash = g.refresh_token_hash;
        refresh_token_hash = some h;
        last_seen_at = some now;
      })
  revoked :
      (g : Grant) (now : Time)
      → is_none g.revoked_at ≡ true
      → Change g (record g { revoked_at = some now })
  accepted :
      (g : Grant) (now : Time) (user : ℕ) (name : Text)
      → status_beq g.status pending ≡ true
      → now < g.expires_at
      → Change g (record g {
        user_id = some user;
        status = approved;
        approved_at = some now;
        client_name = name;
      })
  rejected :
      (g : Grant) (now : Time) (user : ℕ)
      → status_beq g.status pending ≡ true
      → now < g.expires_at
      → Change g (record g { user_id = some user; status = denied })

-- `Drawn h` says which hashes of device codes a new grant may have.
pub data Evolves (Drawn : String → Type 0) (s : Server) : Server → Type 0 where
  same : Evolves Drawn s s
  change :
      (p : Grant → Bool) {g g' : Grant}
      → select p s ≡ one g
      → Change g g'
      → Evolves Drawn s (commit g' s)
  create :
      (now : Time) (h : String) (user_code name : Text)
      → Drawn h
      → Evolves Drawn s (record s {
        grants = alive now s ++ new_grant s now h user_code name ∷ [];
        next_id = s.next_id + 1;
      })
