-- ===== src/Metrics/Tests.antt =====
-- Runs of the counters, and their theorems at concrete requests.
use orxies.Prelude.{ℕ, ◌≤◌, ◌≡◌, refl, List, [], ◌∷◌, arith, lookup, insert, nat_key}
use orxies.Metrics.{
  Sample, new_site, observe, millis, record_sample, sum_live, pct, sorted_latencies, snapshot,
}
use orxies.Metrics.Window.{record_all, in_window, reqs_last_1m-in_window}
use orxies.Metrics.Percentiles.{percentiles_ordered}
use orxies.Metrics.Ring.{Holds, latest, new_site-Holds, record_all-Holds}

program : Unit {0}
unfolding new_site record_sample sum_live pct sorted_latencies snapshot record_all in_window lookup
    insert observe millis
program = tt

abbrev ok_sample : Sample
ok_sample = record { status = 200; bytes = 10; latency = 3_000_000 }

abbrev events : List (ℕ × Sample)
events = (100, ok_sample) ∷ (140, ok_sample) ∷ (140, ok_sample) ∷ (165, ok_sample) ∷ []

three_live : (snapshot (record_all new_site events) 170).reqs_last_1m ≡ 3
unfolding program
three_live = refl

reqs_last_1m-in_window_example :
    (snapshot (record_all new_site events) 170).reqs_last_1m ≡ in_window 170 events
reqs_last_1m-in_window_example = reqs_last_1m-in_window 170 events (omega arith) (omega arith)

percentiles_ordered_example :
    ((snapshot new_site 9).p50 ≤ (snapshot new_site 9).p95)
    × ((snapshot new_site 9).p95 ≤ (snapshot new_site 9).p99)
percentiles_ordered_example = percentiles_ordered new_site 9

record_all-Holds_example : Holds (latest [] events) (record_all new_site events)
record_all-Holds_example = record_all-Holds new_site [] events new_site-Holds
