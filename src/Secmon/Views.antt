-- ===== src/Secmon/Views.antt =====
-- internal/secmon/secmon.go: the lists and the numbers that the page shows beside the counts.
pub mod Tails
use orxies.Prelude.{
  ℕ, zero, suc, ◌+◌, ◌-◌, ◌*◌, ◌/◌, ◌%◌, ◌^◌, Bool, true, false, ◌||◌, not, List, [], ◌∷◌, ◌++◌,
  Option, ltb, leb, ◌==◌, if◌then◌else◌, Text, codes, replicate, set, get_or,
}
use orxies.Prelude.Decimal.{print_int}
use orxies.Secmon.{Kind, Event, earlier, later}

abbrev pub reverse : List Event → List Event
reverse [] = []
reverse (e ∷ es) = reverse es ++ (e ∷ [])

-- The loop of `tailFiltered` over the events from the last one on.
unfoldable pub filtered : (Event → Bool) → ℕ → List Event → List Event
filtered keep n [] = []
filtered keep zero (e ∷ es) = []
filtered keep (suc n) (e ∷ es) =
    let kept = filtered keep n es in
    let passed = filtered keep (suc n) es in if keep e then e ∷ kept else passed

unfoldable pub tail_filtered : List Event → ℕ → (Event → Bool) → List Event
unfolding filtered
tail_filtered events n keep = filtered keep n (reverse events)

abbrev pub is_failure : Kind → Bool
is_failure Kind.failed_password = true
is_failure Kind.invalid_user = true
is_failure Kind.max_auth_tries = true
is_failure _ = false

abbrev pub is_plain_failure : Kind → Bool
is_plain_failure Kind.failed_password = true
is_plain_failure Kind.invalid_user = true
is_plain_failure _ = false

abbrev pub hour : ℕ
hour = 3600000000000

abbrev pub minute : ℕ
minute = 60000000000

abbrev pub buckets : ℕ
buckets = 24

-- The start of the first bucket, `Truncate`d to the hour.
abbrev pub start_of : ℕ → ℕ
start_of now = (now - 23 * hour) / hour * hour

abbrev pub in_bucket : List ℕ → ℕ → List ℕ
in_bucket out i = if ltb i buckets then set out i ((get_or out i 0 + 1) % 2 ^ 32) else out

unfoldable pub bucket_failures : ℕ → List Event → List ℕ → List ℕ
bucket_failures start [] out = out
bucket_failures start (e ∷ es) out = bucket_failures start es (
    if not (is_plain_failure e.kind) || (e.time == 0 || ltb e.time start)
    then out
    else in_bucket out ((e.time - start) / hour))

unfoldable pub hourly_failures : List Event → ℕ → List ℕ
unfolding bucket_failures
hourly_failures events now = bucket_failures (start_of now) events (replicate buckets 0)

unfoldable pub widen : List Event → ℕ × ℕ → ℕ × ℕ
widen [] w = w
widen (e ∷ es) (from, to) = widen es (earlier from e.time, later to e.time)

-- `windowOf` of the two sets of `build`.
unfoldable pub window_of : List Event → List Event → ℕ × ℕ
unfolding widen
window_of auth bans = widen bans (widen auth (0, 0))

unfoldable pub human_window : ℕ × ℕ → Text
human_window (from, to) =
    let d = (to - from) / minute * minute in
    if from == 0 || to == 0
    then codes "no dated events in the parsed window"
    else if leb (48 * hour) d
    then print_int (d / hour / 24) ++ codes " days of log tail"
    else if leb hour d
    then print_int (d / hour) ++ codes "h of log tail"
    else print_int (d / minute) ++ codes "m of log tail"
