-- ===== src/DeviceGrant/Refines.antt =====
-- Every handler of /auth/device is a step of the grants' state machine.
use mathlib.Core.Path.{subst}
use scrob.Prelude.{
  any, ap, ◌∙◌, ℕ, ◌+◌, ◌<◌, String, ◌≡◌, refl, Bool, true, false, not, ◌||◌, Option, none, some,
  List, [], arith, ltb, leb, leb→le, inl, inr, Bool-cases, ◌==◌, string_eq, nat_eq, if◌then◌else◌,
}
use scrob.Prelude.Clock.{Time, seconds}
use scrob.Prelude.Text.{Text, codes, text_eq, strip, lower}
use scrob.DeviceGrant.{
  Status, pending, approved, denied, expired, Grant, Server, nothing, one, select, holds, is_none,
  status_beq, normalize_user_code,
}
use scrob.DeviceGrant.Handlers.{
  alive, device_code, pick_code, or_else, clean, issue, poll, exchange_grant, device_token_exchange,
  replay, rotate, device_token_refresh,
}
use scrob.DeviceGrant.Approval.{load_pending_grant, device_approve, owned, revoke_device_grant}
use scrob.DeviceGrant.Machine.{
  slowed, polled, timed_out, issued, rotated, revoked, accepted, rejected, Evolves, same, change,
  create,
}
use scrob.DeviceGrant.Rows.{select-holds, Found-cases}

held_of : (p : String → Bool) (o : Option String) → holds p o ≡ true → is_none o ≡ false
held_of p none h = ground arith
held_of p (some a) h = refl

module _ (D : String → Type 0) (hash : String → String) (now : Time) (s : Server) where
  pub device_code-Evolves :
      (candidates : List Text) (raw : String) (client_name scope : Text)
      → D (hash raw)
      → Evolves D s (device_code hash now candidates raw client_name scope s).0
  unfolding device_code
  device_code-Evolves candidates raw client_name scope drawn =
      elim (Bool-cases (lower (strip (or_else scope (codes "write"))) == codes "write")) [
        | inr other ↦ rw other same
        | inl write ↦ rw write (elim (Bool-cases (pick_code candidates (alive now s) == [])) [
          | inl clash ↦ rw clash same
          | inr fresh ↦
              rw fresh
                (elim (Bool-cases (any (λ g. g.device_code_hash == hash raw) (alive now s))) [
                  | inl taken ↦ rw taken same
                  | inr free ↦ rw free (create now (hash raw) _ _ drawn)
                ])
        ])
      ]

  module _ (fresh : String) (p : Grant → Bool) (g : Grant) (found : select p s ≡ one g) where
    poll-Evolves :
        is_none g.token_issued_at ≡ true
        → (st : Status) → g.status ≡ st
        → Evolves D s (poll hash now fresh (record g { last_polled_at = some now }) s).0
    unfolding poll issue
    poll-Evolves free approved e = rw e (change p found (issued g now (hash fresh) free e))
    poll-Evolves free denied e = rw e (change p found (polled g now free))
    poll-Evolves free pending e = elim (Bool-cases (leb g.expires_at now)) [
      | inl late ↦ rw (e, late) (change p found (timed_out g now free (rw e) (leb→le _ _ late)))
      | inr early ↦ rw (e, early) (change p found (polled g now free))
    ]
    poll-Evolves free expired e = elim (Bool-cases (leb g.expires_at now)) [
      | inl late ↦ rw (e, late) (change p found (timed_out g now free (rw e) (leb→le _ _ late)))
      | inr early ↦ rw (e, early) (change p found (polled g now free))
    ]

    exchange_grant-Evolves : Evolves D s (exchange_grant hash now fresh g s).0
    unfolding exchange_grant
    exchange_grant-Evolves = elim (Bool-cases (is_none g.token_issued_at)) [
      | inr used ↦ rw used same
      | inl free ↦
          rw free
            (elim (Bool-cases (holds (λ t. ltb now (t + seconds g.interval)) g.last_polled_at)) [
              | inl fast ↦ rw fast (change p found (slowed g now free))
              | inr slow ↦ rw slow (poll-Evolves free g.status refl)
            ])
    ]

    rotate-Evolves :
        is_none g.refresh_token_hash ≡ false → Evolves D s (rotate hash now fresh g s).0
    unfolding rotate
    rotate-Evolves held = elim (Bool-cases (is_none g.revoked_at)) [
      | inr gone ↦ rw gone same
      | inl live ↦ elim (Bool-cases (status_beq g.status approved)) [
        | inr other ↦ rw (live, other) same
        | inl ok ↦ rw (live, ok) (change p found (rotated g now (hash fresh) live ok held))
      ]
    ]

  pub exchange-Evolves :
      (raw fresh : String) → Evolves D s (device_token_exchange hash now raw fresh s).0
  unfolding device_token_exchange
  exchange-Evolves raw fresh = elim (Bool-cases (raw == "")) [
    | inl empty ↦ rw empty same
    | inr given ↦ rw given (elim (Found-cases (select (λ g. g.device_code_hash == hash raw) s)) [
      | inl e ↦ rw e same
      | inr (inl e) ↦ rw e same
      | inr (inr (g, e)) ↦ rw e (exchange_grant-Evolves fresh _ g e)
    ])
  ]

  replay-Evolves : (raw : String) → Evolves D s (replay hash now raw s).0
  unfolding replay
  replay-Evolves raw =
      elim (Found-cases (select (λ g. holds (λ h. h == hash raw) g.prev_refresh_token_hash) s)) [
        | inl e ↦ rw (e, replay) same
        | inr (inl e) ↦ rw (e, replay) same
        | inr (inr (g, e)) ↦
            rw (e, replay)
              (elim (Bool-cases (is_none g.revoked_at)) [
                | inr gone ↦ rw gone same
                | inl live ↦ rw live (change _ e (revoked g now live))
              ])
      ]

  pub refresh-Evolves :
      (raw fresh : String) → Evolves D s (device_token_refresh hash now raw fresh s).0
  unfolding device_token_refresh
  refresh-Evolves raw fresh = elim (Bool-cases (raw == "")) [
    | inl empty ↦ rw empty same
    | inr given ↦
        rw given
          (elim (Found-cases (select (λ g. holds (λ h. h == hash raw) g.refresh_token_hash) s)) [
            | inl e ↦ rw e (replay-Evolves raw)
            | inr (inl e) ↦ rw e same
            | inr (inr (g, e)) ↦ rw e (
                rotate-Evolves fresh _ g e
                  (held_of (λ h. h == hash raw) g.refresh_token_hash (select-holds _ s g e)))
          ])
  ]

still_pending :
    (now : Time) (g g' : Grant)
    → (if not (status_beq g'.status pending) || leb g'.expires_at now then nothing else one g')
      ≡ one g
    → (g' ≡ g) × (status_beq g'.status pending ≡ true) × (now < g'.expires_at)
still_pending now g g' h = ground arith

-- The row that `_load_pending_grant` returns.
loaded :
    (now : Time) (code : Text) (s : Server) (g : Grant)
    → load_pending_grant now code s ≡ one g
    → (select (λ x. x.user_code == normalize_user_code code) s ≡ one g)
      × (status_beq g.status pending ≡ true)
      × (now < g.expires_at)
unfolding load_pending_grant
loaded now code s g h = elim (Bool-cases (normalize_user_code code == [])) [
  | inl empty ↦ absurd (cc (rw (empty, load_pending_grant) at h))
  | inr given ↦ elim (Found-cases (select (λ x. x.user_code == normalize_user_code code) s)) [
    | inl e ↦ absurd (cc (rw (given, e, load_pending_grant) at h))
    | inr (inl e) ↦ absurd (cc (rw (given, e, load_pending_grant) at h))
    | inr (inr (g', e)) ↦
        let (same_row, p, l) = still_pending now g g' (rw (given, e, load_pending_grant) at h) in
        (
          e ∙ ap one same_row,
          subst (λ x. status_beq x.status pending ≡ true) same_row p,
          subst (λ x. now < x.expires_at) same_row l,
        )
  ]
]

module _ (D : String → Type 0) (now : Time) (s : Server) (user : ℕ) where
  pub approve-Evolves :
      (code action name : Text) → Evolves D s (device_approve now user code action name s).0
  unfolding device_approve
  approve-Evolves code action name = elim (Bool-cases (lower (strip action) == codes "approve")) [
    | inl agreed ↦ rw agreed (elim (Found-cases (load_pending_grant now code s)) [
      | inl e ↦ rw e same
      | inr (inl e) ↦ rw e same
      | inr (inr (g, e)) ↦
          let (f, p, l) = loaded now code s g e in
          rw e (change _ f (accepted g now user (or_else (clean name) g.client_name) p l))
    ])
    | inr other ↦ rw other (elim (Bool-cases (lower (strip action) == codes "deny")) [
      | inr bad ↦ rw bad same
      | inl deny ↦ rw deny (elim (Found-cases (load_pending_grant now code s)) [
        | inl e ↦ rw e same
        | inr (inl e) ↦ rw e same
        | inr (inr (g, e)) ↦
            let (f, p, l) = loaded now code s g e in rw e (change _ f (rejected g now user p l))
      ])
    ])
  ]

  pub revoke-Evolves : (id : ℕ) → Evolves D s (revoke_device_grant now user id s).0
  unfolding revoke_device_grant
  revoke-Evolves id = elim (Found-cases (select (owned user id) s)) [
    | inl e ↦ rw (e, revoke_device_grant) same
    | inr (inl e) ↦ rw (e, revoke_device_grant) same
    | inr (inr (g, e)) ↦
        rw (e, revoke_device_grant)
          (elim (Bool-cases (is_none g.revoked_at)) [
            | inr gone ↦ rw gone same
            | inl live ↦ rw live (change _ e (revoked g now live))
          ])
  ]
