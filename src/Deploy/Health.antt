-- ===== src/Deploy/Health.antt =====
-- internal/deploy/deploy.go: waitHealthy, the loop that dials a container until it answers. Times are in
-- milliseconds. What a round meets is an input: whether the request is cancelled, whether the
-- connection is made, and how long the dial took; the sleep behind it is 500 ms.
use orxies.Prelude.{ℕ, zero, suc, ◌+◌, ◌-◌, ◌*◌, ◌≤◌, ◌≢◌, Bool, ltb, if◌then◌else◌, arith}

pub record Attempt : Type 0 where
  pub cancelled : Bool
  pub connected : Bool
  pub took : ℕ

pub data Health : Type 0 where
  healthy cancelled unreachable out_of_fuel : Health

-- The rounds from the one numbered `i` on.
unfoldable pub poll : ℕ → ℕ → ℕ → (ℕ → Attempt) → ℕ → Health
poll zero now deadline attempt i = Health.out_of_fuel
poll (suc fuel) now deadline attempt i =
    let next = poll fuel (now + (attempt i).took + 500) deadline attempt (suc i) in
    if ltb now deadline
    then if (attempt i).cancelled
      then Health.cancelled
      else if (attempt i).connected
      then Health.healthy
      else next
    else Health.unreachable

abbrev pub health_timeout : ℕ
health_timeout = 30000

-- A round lasts 500 ms at least, so the deadline ends the loop in its round 61 at the latest.
unfoldable pub wait_healthy : ℕ → (ℕ → Attempt) → Health
unfolding poll
wait_healthy now attempt = poll 61 now (now + health_timeout) attempt 0

poll-ends :
    (fuel now deadline : ℕ) (attempt : ℕ → Attempt) (i : ℕ)
    → deadline - now ≤ 500 * fuel
    → poll (suc fuel) now deadline attempt i ≢ Health.out_of_fuel
unfolding poll
poll-ends zero now deadline attempt i h = ground arith
poll-ends (suc fuel) now deadline attempt i h =
    ground
      (arith, poll-ends fuel (now + (attempt i).took + 500) deadline attempt (suc i) (omega arith))

-- The wait for a container always ends: whatever the dials answer and however long they take, the
-- loop has an answer within the 61 rounds that are granted to it.
pub wait_healthy-ends :
    (now : ℕ) (attempt : ℕ → Attempt) → wait_healthy now attempt ≢ Health.out_of_fuel
unfolding wait_healthy
wait_healthy-ends now attempt = poll-ends 60 now (now + health_timeout) attempt 0 (omega arith)
