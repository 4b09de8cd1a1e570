-- ===== src/Proxy/Limiter/Tests.antt =====
-- Runs of the limiter, and its theorems at concrete requests.
use orxies.Prelude.{
  ℕ, ◌+◌, ◌*◌, ◌≤◌, ◌≡◌, refl, true, List, [], ◌∷◌, none, some, arith, Text, codes, text_key,
  text_eq, lookup, insert, keep, length,
}
use orxies.Prelude.Int.{pos, negsuc, ◌+ℤ◌, ◌-ℤ◌}
use orxies.Proxy.Limiter.{
  Limiter, one_token, max_buckets, filled, refill, take_one, spend, new_limiter, with_global,
  with_max_in_flight, allow_global, allow_per_ip, allow, maybe_sweep, sweep_locked, is_idle, admit,
  acquire, release,
}
use orxies.Proxy.Limiter.Levels.{IsValid, level}
use orxies.Proxy.Limiter.Gate.{admitted}
use orxies.Proxy.Limiter.Rate.{ask, per_ip_rate_bound, site_rate_bound}
use orxies.Proxy.Limiter.Sweeps.{allow_per_ip-Capped, sweep_keeps_answers}
use orxies.Proxy.Limiter.Slots.{
  Traffic, Event, arrive, call, run, outstanding, Accounted, run-Accounted,
}

program : Unit {0}
unfolding filled refill take_one spend new_limiter with_global with_max_in_flight allow_global
    allow_per_ip allow maybe_sweep sweep_locked is_idle admit acquire release ◌+ℤ◌ ◌-ℤ◌ lookup
    insert keep
program = tt

abbrev second : ℕ
second = 1_000_000_000

-- One request a second, a burst of one more, and a site-wide budget of three.
abbrev small : Limiter
small = record {
  rps = 1;
  burst = 2;
  bs = [];
  last_sweep = 0;
  global = some (record { tokens = pos (3 * one_token); last = 0 });
  global_rps = 3;
  global_burst = 3;
  in_flight = pos 0;
  max_in_flight = 1;
}

built :
    with_max_in_flight (with_global (new_limiter (pos 1) (pos 1) 0) (pos 3) (negsuc 4) 0) (pos 1)
    ≡ some small
unfolding program
built = refl

disabled : new_limiter (negsuc 0) (pos 5) 7 ≡ none
unfolding program
disabled = refl

abbrev bursts : List (ℕ × Text)
bursts =
    (0, codes "a") ∷ (0, codes "a") ∷ (0, codes "a") ∷ (0, codes "b") ∷ (second, codes "a") ∷ []

admitted_a : admitted allow_per_ip (λ j. text_eq j (codes "a")) small bursts ≡ 3
unfolding program admitted
admitted_a = refl

small-IsValid : IsValid small
small-IsValid = record { positive = omega arith; distinct = tt }

per_ip_rate_bound_example :
    admitted allow_per_ip (λ j. text_eq j (codes "a")) small bursts * one_token + 0 * 1
    ≤ 2 * one_token + second * 1
per_ip_rate_bound_example =
    per_ip_rate_bound small (codes "a") 0 second bursts small-IsValid (omega arith)

abbrev spread : List (ℕ × (ℕ × Text))
spread = (0, (0, codes "a")) ∷ (0, (0, codes "b")) ∷ (0, (1, codes "c")) ∷ (0, (2, codes "d")) ∷ []

admitted-spread : admitted ask (λ x. true) (some small) spread ≡ 3
unfolding program admitted
admitted-spread = refl

site_rate_bound_example :
    admitted ask (λ x. true) (some small) spread * one_token + 0 * 3 ≤ 3 * one_token + second * 3
site_rate_bound_example =
    site_rate_bound small (record { tokens = pos (3 * one_token); last = 0 }) 0 second spread refl
      (omega arith)

allow_per_ip-Capped_example : length (allow_per_ip small 5 (codes "a")).0.bs ≤ max_buckets
allow_per_ip-Capped_example = allow_per_ip-Capped small 5 (codes "a") (omega arith)

-- An address that was served long ago, when the sweep is due.
abbrev idle : Limiter
idle = record small { bs = (codes "a", record { tokens = pos 0; last = 0 }) ∷ [] }

idle-IsValid : IsValid idle
unfolding lookup
idle-IsValid = record { positive = omega arith; distinct = (refl, tt) }

sweep_keeps_answers_example :
    ((allow_per_ip idle (40 * second) (codes "a")).1
      ≡ (admit idle (40 * second) (codes "a") (lookup (codes "a") idle.bs)).1)
    × (level (allow_per_ip idle (40 * second) (codes "a")).0 (codes "a") (50 * second)
        ≡ level
            (admit idle (40 * second) (codes "a") (lookup (codes "a") idle.bs)).0
            (codes "a")
            (50 * second))
sweep_keeps_answers_example =
    sweep_keeps_answers idle (40 * second) (codes "a") (codes "a") (50 * second) idle-IsValid
      (omega arith) (omega arith)

-- The first request holds the only slot; its closure is called twice.
abbrev quiet : Traffic
quiet = record { limiter = some small; held = [] }

abbrev history : List Event
history = arrive ∷ arrive ∷ call 0 ∷ call 0 ∷ arrive ∷ []

run-Accounted_example : Accounted (run quiet history).limiter (outstanding (run quiet history).held)
unfolding outstanding
run-Accounted_example = run-Accounted quiet history (refl, omega arith)
