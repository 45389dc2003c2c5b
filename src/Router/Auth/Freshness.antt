-- ===== src/Router/Auth/Freshness.antt =====
-- Step 12 of authenticate: which timestamps pass.
use sprut.Router.Auth.{check_timestamp}
use sprut.Base.{
  refl, inr, ◌-◌, lt→ltb, tests, arith, inl, ltb, ◌%◌, Bool-cases, le→ltb, ◌↔◌, ◌≡◌, ◌+◌, ◌^◌, ◌≤◌,
  ◌<◌, ℕ,
}
use sprut.Io.{challenge_expired, ok, err}

-- Of clocks below 2^63 exactly those timestamps pass that are not in the future and not older than the
-- lifetime: the 60 seconds that the code means to allow for are never granted.
pub check_timestamp_iff :
    {S : Type 0} (timestamp now challenge_ttl : ℕ) (s : S)
    → timestamp < 2 ^ 63
    → now < 2 ^ 63
    → challenge_ttl < 2 ^ 63
    → (check_timestamp timestamp now challenge_ttl s ≡ ok tt s)
      ↔ ((timestamp ≤ now) × (now ≤ timestamp + challenge_ttl))
unfolding check_timestamp
check_timestamp_iff timestamp now challenge_ttl s a b c =
    elim (Bool-cases (ltb ((now + 60) % 2 ^ 64) timestamp)) [
      | inl future ↦ rw future ((λ e. cc), (λ h. absurd (omega (tests, future))))
      | inr near ↦
          rw near (elim (Bool-cases (ltb challenge_ttl ((now + 2 ^ 64 - timestamp) % 2 ^ 64))) [
            | inl old ↦ rw old ((λ e. cc), (λ h. absurd (omega (tests, old))))
            | inr fresh ↦ rw fresh ((λ e. omega (tests, fresh)), (λ h. refl))
          ])
    ]

-- A timestamp that lies up to 60 seconds in the future is refused as expired.
pub check_timestamp_ahead :
    {S : Type 0} (timestamp now challenge_ttl : ℕ) (s : S)
    → now < timestamp
    → timestamp ≤ now + 60
    → now < 2 ^ 63
    → challenge_ttl < 2 ^ 63
    → check_timestamp timestamp now challenge_ttl s ≡ err challenge_expired s
unfolding check_timestamp
check_timestamp_ahead timestamp now challenge_ttl s a b c d =
    rw (le→ltb ((now + 60) % 2 ^ 64) timestamp (omega arith))
      (rw (lt→ltb challenge_ttl ((now + 2 ^ 64 - timestamp) % 2 ^ 64) (omega arith)))
