-- ===== src/Proxy/Limiter.antt =====
-- internal/proxy/ratelimit.go: the three limits of one site.
-- Time is in nanoseconds, and an amount of tokens in billionths of a token, so that the refill
-- `elapsed.Seconds() * rps` is the whole number (now - last) * rps. An amount is an integer: two
-- goroutines read the clock before they take the lock, so `now` can lie before `last`. The
-- source's float64 rounds the same amounts. A nil limiter is `none`.
pub mod Levels
pub mod Requests
pub mod Gate
pub mod Rate
pub mod Sweeps
pub mod Slots
mod Tests
use orxies.Prelude.{
  ℕ, ◌+◌, ◌*◌, Bool, true, false, List, [], Option, none, some, leb, if◌then◌else◌, Text, text_key,
  lookup, insert, keep, length, not,
}
use orxies.Prelude.Int.{ℤ, pos, pos_part, sub_ℕ, ◌+ℤ◌, ◌-ℤ◌, ltb_ℤ}

abbrev pub one_token : ℕ
one_token = 1_000_000_000

abbrev pub max_buckets : ℕ
max_buckets = 50_000

-- 30 seconds.
abbrev pub sweep_interval : ℕ
sweep_interval = 30_000_000_000

pub record TokenBucket : Type 0 where
  pub tokens : ℤ
  pub last : ℕ

pub record Limiter : Type 0 where
  pub rps : ℕ
  pub burst : ℕ
  pub bs : List (Text × TokenBucket)
  pub last_sweep : ℕ
  pub global : Option TokenBucket
  pub global_rps : ℕ
  pub global_burst : ℕ
  pub in_flight : ℤ
  pub max_in_flight : ℕ

abbrev leb_ℤ : ℤ → ℤ → Bool
leb_ℤ a b = not (ltb_ℤ b a)

abbrev at_least_zero : ℤ → ℤ
at_least_zero n = if ltb_ℤ n (pos 0) then pos 0 else n

unfoldable pub new_limiter : ℤ → ℤ → ℕ → Option Limiter
unfolding ◌+ℤ◌
new_limiter rps burst now =
    if leb_ℤ rps (pos 0)
    then none
    else some (record {
      rps = pos_part rps;
      burst = pos_part (rps +ℤ at_least_zero burst);
      bs = [];
      last_sweep = now;
      global = none;
      global_rps = 0;
      global_burst = 0;
      in_flight = pos 0;
      max_in_flight = 0;
    })

set_global : ℕ → ℕ → ℕ → Limiter → Limiter
set_global rps burst now l = record l {
  global_rps = rps;
  global_burst = burst;
  global = some (record { tokens = pos (burst * one_token); last = now });
}

unfoldable pub with_global : Option Limiter → ℤ → ℤ → ℕ → Option Limiter
unfolding ◌+ℤ◌ set_global
with_global none rps burst now = none
with_global (some l) rps burst now =
    if leb_ℤ rps (pos 0)
    then some l
    else some (set_global (pos_part rps) (pos_part (rps +ℤ at_least_zero burst)) now l)

unfoldable pub with_max_in_flight : Option Limiter → ℤ → Option Limiter
with_max_in_flight none n = none
with_max_in_flight (some l) n =
    if leb_ℤ n (pos 0) then some l else some (record l { max_in_flight = pos_part n })

-- What `allowGlobal` and `allowPerIP` do to a bucket: refill since the last visit, cap, and take
-- one token if there is one.
unfoldable pub filled : ℕ → ℕ → TokenBucket → ℤ
unfolding ◌+ℤ◌
filled rate now tb = tb.tokens +ℤ sub_ℕ (now * rate) (tb.last * rate)

unfoldable pub refill : ℕ → ℕ → ℕ → TokenBucket → TokenBucket
refill rate burst now tb = record {
  tokens =
      if ltb_ℤ (pos (burst * one_token)) (filled rate now tb)
      then pos (burst * one_token)
      else filled rate now tb;
  last = now;
}

unfoldable pub take_one : TokenBucket → TokenBucket × Bool
take_one tb =
    if ltb_ℤ tb.tokens (pos one_token)
    then (tb, false)
    else (record tb { tokens = tb.tokens -ℤ pos one_token }, true)

unfoldable pub spend : ℕ → ℕ → ℕ → TokenBucket → TokenBucket × Bool
spend rate burst now tb = take_one (refill rate burst now tb)

unfoldable pub allow_global : Limiter → ℕ → Limiter × Bool
allow_global l now = elim l.global [
  | none ↦ (l, true)
  | some tb ↦
      let (tb', ok) = spend l.global_rps l.global_burst now tb in
      (record l { global = some tb' }, ok)
]

-- The test of `sweepLocked`, and the sweep.
unfoldable pub is_idle : ℕ → ℕ → ℕ → TokenBucket → Bool
is_idle rate burst now tb = leb_ℤ (pos (burst * one_token)) (filled rate now tb)

unfoldable pub sweep_locked : Limiter → ℕ → Limiter
sweep_locked l now = record l { bs = keep (λ k tb. not (is_idle l.rps l.burst now tb)) l.bs }

unfoldable pub maybe_sweep : Limiter → ℕ → Limiter
maybe_sweep l now =
    if leb (l.last_sweep + sweep_interval) now
    then record (sweep_locked l now) { last_sweep = now }
    else l

unfoldable pub admit : Limiter → ℕ → Text → Option TokenBucket → Limiter × Bool
admit l now key none = if leb max_buckets (length l.bs) then (l, false) else (
  record l {
    bs = insert key (record { tokens = sub_ℕ (l.burst * one_token) one_token; last = now }) l.bs;
  },
  true,
)
admit l now key (some tb) =
    let (tb', ok) = spend l.rps l.burst now tb in (record l { bs = insert key tb' l.bs }, ok)

unfoldable pub allow_per_ip : Limiter → ℕ → Text → Limiter × Bool
allow_per_ip l now key = let swept = maybe_sweep l now in admit swept now key (lookup key swept.bs)

-- The clock is read twice: `now` by the global check, `later` by the one per address.
abbrev pub then_per_ip : Limiter × Bool → ℕ → Text → Limiter × Bool
then_per_ip (l, false) later key = (l, false)
then_per_ip (l, true) later key = allow_per_ip l later key

unfoldable pub allow : Option Limiter → ℕ → ℕ → Text → Option Limiter × Bool
allow none now later key = (none, true)
allow (some l) now later key =
    let (l', ok) = then_per_ip (allow_global l now) later key in (some l', ok)

-- The closure that `Acquire` returns: one that does nothing, or one that gives its slot back and
-- remembers in `once` whether it has run.
pub data Release : Type 0 where
  noop : Release
  give_back : (once : Bool) → Release

unfoldable pub acquire : Option Limiter → Option Limiter × Option Release
unfolding ◌+ℤ◌
acquire none = (none, some noop)
acquire (some l) =
    if leb l.max_in_flight 0
    then (some l, some noop)
    else if leb_ℤ (pos l.max_in_flight) l.in_flight
    then (some l, none)
    else (some (record l { in_flight = l.in_flight +ℤ pos 1 }), some (give_back false))

unfoldable pub release : Release → Option Limiter → Release × Option Limiter
unfolding ◌-ℤ◌
release noop l = (noop, l)
release (give_back true) l = (give_back true, l)
release (give_back false) none = (give_back true, none)
release (give_back false) (some l) =
    (give_back true, some (record l { in_flight = l.in_flight -ℤ pos 1 }))

abbrev pub tracked : Option Limiter → ℕ
tracked none = 0
tracked (some l) = length l.bs

abbrev pub in_flight : Option Limiter → ℤ
in_flight none = pos 0
in_flight (some l) = l.in_flight
