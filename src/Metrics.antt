-- ===== src/Metrics.antt =====
-- internal/metrics/metrics.go: the counters of one domain, and the registry of them.
-- Counters wrap at their width. Seconds are Unix seconds, latencies nanoseconds. A byte count and a
-- status are not negative: they come from `countingWriter`.
pub mod Window
pub mod Percentiles
pub mod Ring
mod Tests
use orxies.Prelude.{
  ℕ, zero, suc, ◌+◌, ◌-◌, ◌*◌, ◌/◌, ◌%◌, ◌^◌, Bool, true, false, ◌&&◌, ◌||◌, not, List, [], ◌∷◌,
  Option, none, some, map, ltb, leb, ◌==◌, if◌then◌else◌, length, get_elem?, get_or, set, take,
  replicate, Text, text_key, nat_key, lookup, insert, keep,
}

abbrev pub bucket_count : ℕ
bucket_count = 60

abbrev pub lat_ring_size : ℕ
lat_ring_size = 1024

abbrev pub u32 : ℕ
u32 = 2 ^ 32

abbrev pub u64 : ℕ
u64 = 2 ^ 64

pub record Sample : Type 0 where
  pub status : ℕ
  pub bytes : ℕ
  pub latency : ℕ

pub record Bucket : Type 0 where
  pub ts_unix : ℕ
  pub reqs : ℕ
  pub bytes : ℕ
  pub errors : ℕ

abbrev pub empty_bucket : Bucket
empty_bucket = record { ts_unix = 0; reqs = 0; bytes = 0; errors = 0 }

pub record Site : Type 0 where
  pub total_requests : ℕ
  pub total_bytes : ℕ
  pub total_errors : ℕ
  pub buckets : List Bucket
  pub bucket_at : ℕ
  pub latency : List ℕ
  pub latency_idx : ℕ
  pub latency_n : ℕ
  pub status_counts : List (ℕ × ℕ)

pub new_site : Site
new_site = record {
  total_requests = 0;
  total_bytes = 0;
  total_errors = 0;
  buckets = replicate bucket_count empty_bucket;
  bucket_at = 0;
  latency = replicate lat_ring_size 0;
  latency_idx = 0;
  latency_n = 0;
  status_counts = [];
}

abbrev pub is_err : Sample → Bool
is_err sm = leb 500 sm.status || sm.status == 0

-- The latency in milliseconds, as a uint32, with 1 for anything below one.
unfoldable pub millis : ℕ → ℕ
millis latency = let ms = latency / 1_000_000 % u32 in if (ms == 0) && ltb 0 latency then 1 else ms

-- The slot of a second: reset if it holds another second, then counted up.
abbrev pub current : ℕ → Bucket → Bucket
current now b = if b.ts_unix == now then b else record empty_bucket { ts_unix = now }

unfoldable pub observe : ℕ → Sample → Bucket → Bucket
observe now sm b = record {
  ts_unix = (current now b).ts_unix;
  reqs = ((current now b).reqs + 1) % u32;
  bytes = ((current now b).bytes + sm.bytes) % u64;
  errors = ((current now b).errors + (if is_err sm then 1 else 0)) % u32;
}

abbrev pub count_of : Option ℕ → ℕ
count_of none = 0
count_of (some n) = n

unfoldable pub record_sample : Site → ℕ → Sample → Site
unfolding observe millis
record_sample s now sm = record {
  total_requests = (s.total_requests + 1) % u64;
  total_bytes = (s.total_bytes + sm.bytes) % u64;
  total_errors = (s.total_errors + (if is_err sm then 1 else 0)) % u64;
  buckets =
      set s.buckets (now % bucket_count)
        (observe now sm (get_or s.buckets (now % bucket_count) empty_bucket));
  bucket_at = now;
  latency = set s.latency s.latency_idx (millis sm.latency);
  latency_idx = (s.latency_idx + 1) % lat_ring_size;
  latency_n = if ltb s.latency_n lat_ring_size then s.latency_n + 1 else s.latency_n;
  status_counts =
      insert sm.status ((count_of (lookup sm.status s.status_counts) + 1) % u64) s.status_counts;
}

pub record Snapshot : Type 0 where
  pub total_requests : ℕ
  pub total_bytes : ℕ
  pub total_errors : ℕ
  pub reqs_last_1m : ℕ
  pub bytes_last_1m : ℕ
  pub errs_last_1m : ℕ
  pub reqs_per_sec : List ℕ
  pub p50 : ℕ
  pub p95 : ℕ
  pub p99 : ℕ
  pub status_counts : List (ℕ × ℕ)

-- A bucket inside the 60 seconds that end at `now`.
abbrev pub is_live : ℕ → Bucket → Bool
is_live now b = not (b.ts_unix == 0 || leb bucket_count (now - b.ts_unix))

unfoldable pub sum_live : (Bucket → ℕ) → ℕ → List Bucket → ℕ
sum_live field now [] = 0
sum_live field now (b ∷ bs) = (if is_live now b then field b else 0) + sum_live field now bs

-- The loop over the offsets `60 - n` to 59 of the series, oldest second first.
unfoldable pub series : ℕ → ℕ → List Bucket → List ℕ
series zero now bs = []
series (suc n) now bs =
    let ts = now - n in
    let b = get_or bs (ts % bucket_count) empty_bucket in
    (if b.ts_unix == ts then b.reqs else 0) ∷ series n now bs

-- `sort.Slice` by `<`, as an insertion sort.
unfoldable pub insert_sorted : ℕ → List ℕ → List ℕ
insert_sorted a [] = a ∷ []
insert_sorted a (b ∷ bs) =
    let later = b ∷ insert_sorted a bs in if leb a b then a ∷ b ∷ bs else later

unfoldable pub sort : List ℕ → List ℕ
unfolding insert_sorted
sort [] = []
sort (a ∷ xs) = insert_sorted a (sort xs)

unfoldable pub pct : List ℕ → ℕ → ℕ
pct [] p = 0
pct (a ∷ xs) p =
    let n = length (a ∷ xs) in
    let i = n * p / 100 in get_or (a ∷ xs) (if leb n i then n - 1 else i) 0

unfoldable pub sorted_latencies : Site → List ℕ
unfolding sort
sorted_latencies s = sort (take s.latency_n s.latency)

unfoldable pub snapshot : Site → ℕ → Snapshot
unfolding sum_live series pct sorted_latencies
snapshot s now = record {
  total_requests = s.total_requests;
  total_bytes = s.total_bytes;
  total_errors = s.total_errors;
  reqs_last_1m = sum_live (λ b. b.reqs) now s.buckets % u64;
  bytes_last_1m = sum_live (λ b. b.bytes) now s.buckets % u64;
  errs_last_1m = sum_live (λ b. b.errors) now s.buckets % u64;
  reqs_per_sec = series bucket_count now s.buckets;
  p50 = pct (sorted_latencies s) 50;
  p95 = pct (sorted_latencies s) 95;
  p99 = pct (sorted_latencies s) 99;
  status_counts = s.status_counts;
}

abbrev pub Registry : Type 0
Registry = List (Text × Site)

unfoldable pub site_for : Registry → Text → Registry × Site
unfolding new_site
site_for r domain = elim (lookup domain r) [
  | some s ↦ (r, s)
  | none ↦ (insert domain new_site r, new_site)
]

pub snapshot_all : Registry → ℕ → List (Text × Snapshot)
snapshot_all r now = map (λ e. (e.0, snapshot e.1 now)) r

-- `keep` of the source is a map from a domain to a Boolean, false where it is absent.
unfoldable pub prune : Registry → (Text → Bool) → Registry
prune r wanted = keep (λ d s. wanted d) r
