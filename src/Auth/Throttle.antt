-- ===== src/Auth/Throttle.antt =====
-- internal/auth/throttle.go: failed logins for each address, and lockouts.
-- Times are nanoseconds since Go's zero time, which is 0. A difference of times is only compared
-- with a positive duration, so the subtraction that stops at 0 gives the same answers.
pub mod Pruning
pub mod Lockout
pub mod Flood
mod Tests
use orxies.Prelude.{
  ℕ, suc, ◌+◌, ◌-◌, Bool, true, false, ◌&&◌, not, List, [], Option, none, some, ltb, leb,
  if◌then◌else◌, length, Text, text_key, lookup, insert, delete, keep,
}
use orxies.Prelude.Int.{ℤ, pos, sub_ℕ}

pub record Attempt : Type 0 where
  pub fails : ℕ
  pub last : ℕ
  pub lock_until : ℕ

pub record Throttle : Type 0 where
  pub m : List (Text × Attempt)
  pub max : ℕ
  pub lockout : ℕ
  pub window : ℕ
  pub max_keys : ℕ

-- 15 minutes.
abbrev quarter_hour : ℕ
quarter_hour = 900_000_000_000

abbrev pub new_throttle : Throttle
new_throttle = record {
  m = [];
  max = 5;
  lockout = quarter_hour;
  window = quarter_hour;
  max_keys = 4096;
}

abbrev pub after : ℕ → ℕ → Bool
after now t = ltb t now

-- The answer of `Blocked`, with `later` the time that `time.Until` reads.
unfoldable pub blocked_at : ℕ → ℕ → Option Attempt → Bool × ℤ
blocked_at now later none = (false, pos 0)
blocked_at now later (some a) =
    if after now a.lock_until then (false, pos 0) else (true, sub_ℕ a.lock_until later)

unfoldable pub blocked : Throttle → ℕ → ℕ → Text → Bool × ℤ
blocked t now later key = blocked_at now later (lookup key t.m)

-- The test by which `prune` drops an entry, and `prune`.
unfoldable pub is_stale : ℕ → ℕ → Attempt → Bool
is_stale window now a = after now a.lock_until && ltb window (now - a.last)

unfoldable pub prune : Throttle → ℕ → Throttle
prune t now =
    if ltb (length t.m) t.max_keys
    then t
    else record t { m = keep (λ k a. not (is_stale t.window now a)) t.m }

abbrev pub or_new : Option Attempt → Attempt
or_new none = record { fails = 0; last = 0; lock_until = 0 }
or_new (some a) = a

-- One failure more: `fails` after the reset of a quiet record and the increment.
abbrev pub fails_now : ℕ → ℕ → Attempt → ℕ
fails_now window now a = (if ltb window (now - a.last) then 0 else a.fails) + 1

unfoldable pub bump : Throttle → ℕ → Attempt → Attempt
bump t now a =
    if leb t.max (fails_now t.window now a)
    then record { fails = 0; last = now; lock_until = now + t.lockout }
    else record { fails = fails_now t.window now a; last = now; lock_until = a.lock_until }

-- `Fail` behind its `prune`.
unfoldable pub record_failure : Throttle → ℕ → Text → Throttle
record_failure t now key = record t { m = insert key (bump t now (or_new (lookup key t.m))) t.m }

unfoldable pub fail : Throttle → ℕ → Text → Throttle
fail t now key = record_failure (prune t now) now key

unfoldable pub reset : Throttle → Text → Throttle
reset t key = record t { m = delete key t.m }
