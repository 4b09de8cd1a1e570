-- ===== src/Auth/Throttle/Tests.antt =====
-- Runs of the throttle, and its theorems at concrete histories.
use orxies.Prelude.{
  ℕ, ◌+◌, ◌*◌, ◌≡◌, refl, true, false, List, [], ◌∷◌, none, some, arith, codes, text_key, lookup,
  insert, delete, keep, length,
}
use orxies.Prelude.Int.{pos}
use orxies.Auth.Throttle.{
  Throttle, new_throttle, blocked_at, blocked, is_stale, prune, bump, record_failure, fail, reset,
}
use orxies.Auth.Throttle.Pruning.{
  Event, fails, resets, asks, after_event, after_unpruned, answers, Alike, answers_unpruned,
}
use orxies.Auth.Throttle.Lockout.{fail_all, blocked-burst}
use orxies.Auth.Throttle.Flood.{flood, flood_grows}

program : Unit {0}
unfolding blocked_at blocked is_stale prune bump record_failure fail reset lookup insert delete keep
program = tt

abbrev minute : ℕ
minute = 60_000_000_000

abbrev times : List ℕ
times = 2 * minute ∷ 3 * minute ∷ 4 * minute ∷ 5 * minute ∷ []

locked :
    blocked
      (fail_all new_throttle (codes "ip") (minute ∷ times))
      (19 * minute)
      (19 * minute)
      (codes "ip")
    ≡ (true, pos minute)
unfolding program fail_all
locked = refl

blocked-burst_example :
    (blocked (fail_all new_throttle (codes "ip") (minute ∷ times)) (20 * minute) 0 (codes "ip")).0
    ≡ true
unfolding program
blocked-burst_example =
    blocked-burst new_throttle (codes "ip") minute times (20 * minute) 0 tt refl (omega arith)
      (omega arith) (omega arith)

-- A throttle that prunes at every failure.
abbrev eager : Throttle
eager = record new_throttle { max_keys = 0; max = 2 }

abbrev history : List (ℕ × Event)
history =
    (minute, fails (codes "a"))
    ∷ (2 * minute, fails (codes "b"))
    ∷ (30 * minute, fails (codes "a"))
    ∷ (31 * minute, asks (codes "a"))
    ∷ (31 * minute, fails (codes "a"))
    ∷ (32 * minute, asks (codes "a"))
    ∷ (33 * minute, resets (codes "a"))
    ∷ (33 * minute, asks (codes "a"))
    ∷ []

history-answers :
    answers after_event eager history
    ≡ none ∷ none ∷ none ∷ some false ∷ none ∷ some true ∷ none ∷ some false ∷ []
unfolding program answers
history-answers = refl

eager-Alike : Alike 0 eager eager
eager-Alike = record { distinct = tt; max = refl; lockout = refl; window = refl; agree = λ k. refl }

answers_unpruned_example : answers after_event eager history ≡ answers after_unpruned eager history
answers_unpruned_example = answers_unpruned eager eager 0 history eager-Alike (omega arith)

-- A map that may hold one address, and is given three.
abbrev narrow : Throttle
narrow = record new_throttle { max_keys = 1 }

flood_grows_example :
    length (flood narrow minute (codes "a" ∷ codes "b" ∷ codes "c" ∷ [])).m ≡ 0 + 3
unfolding lookup
flood_grows_example =
    flood_grows narrow minute (codes "a" ∷ codes "b" ∷ codes "c" ∷ []) tt (refl, (refl, (refl, tt)))
      (ground arith)
