-- ===== src/Metrics/Ring.antt =====
-- The ring of latencies.
use orxies.Prelude.{
  ℕ, zero, suc, ◌+◌, ◌-◌, ◌%◌, ◌<◌, ◌≡◌, ◌≢◌, refl, List, [], ◌∷◌, ◌∙◌, ap, arith, ltb,
  if◌then◌else◌, length, get_or, set, length-set, length-replicate, min,
}
use orxies.Metrics.{lat_ring_size, Sample, Site, new_site, millis, record_sample}
use orxies.Metrics.Window.{record_all}

-- The latencies of the events, the latest first, before those of `earlier`.
abbrev pub latest : List ℕ → List (ℕ × Sample) → List ℕ
latest earlier [] = earlier
latest earlier ((t, sm) ∷ es) = latest (millis sm.latency ∷ earlier) es

get_or-set_self : (i v : ℕ) (xs : List ℕ) → i < length xs → get_or (set xs i v) i 0 ≡ v
get_or-set_self i v [] h = elim h [ ]
get_or-set_self zero v (x ∷ xs) h = refl
get_or-set_self (suc i) v (x ∷ xs) h = get_or-set_self i v xs (omega arith)

get_or-set_ne : (i j v : ℕ) (xs : List ℕ) → i ≢ j → get_or (set xs i v) j 0 ≡ get_or xs j 0
get_or-set_ne i j v [] h = refl
get_or-set_ne zero zero v (x ∷ xs) h = absurd (h refl)
get_or-set_ne zero (suc j) v (x ∷ xs) h = refl
get_or-set_ne (suc i) zero v (x ∷ xs) h = refl
get_or-set_ne (suc i) (suc j) v (x ∷ xs) h = get_or-set_ne i j v xs (λ e. h (ap suc e))

-- The ring holds the latest latencies of a history, and points at the slot after the latest.
pub record Holds (history : List ℕ) (s : Site) : Type 0 where
  pub size : length s.latency ≡ lat_ring_size
  pub next : s.latency_idx ≡ length history % lat_ring_size
  pub counted : s.latency_n ≡ min (length history) lat_ring_size
  pub kept :
      (i : ℕ)
      → i < length history
      → i < lat_ring_size
      → get_or s.latency ((length history - 1 - i) % lat_ring_size) 0 ≡ get_or history i 0

record_sample-kept :
    (s : Site) (history : List ℕ) (t : ℕ) (sm : Sample) (i : ℕ)
    → Holds history s
    → i < length (millis sm.latency ∷ history)
    → i < lat_ring_size
    → get_or
        (set s.latency s.latency_idx (millis sm.latency))
        ((length (millis sm.latency ∷ history) - 1 - i) % lat_ring_size)
        0
      ≡ get_or (millis sm.latency ∷ history) i 0
record_sample-kept s history t sm zero h lt small =
    let here : (length (millis sm.latency ∷ history) - 1 - 0) % lat_ring_size ≡ s.latency_idx =
      omega (arith, h.next) in
    rw here
      (get_or-set_self s.latency_idx (millis sm.latency) s.latency (omega (arith, h.next, h.size)))
record_sample-kept s history t sm (suc i) h lt small =
    let there : (length (millis sm.latency ∷ history) - 1 - suc i) % lat_ring_size
        ≡ (length history - 1 - i) % lat_ring_size =
      ap (λ n. n % lat_ring_size) (omega arith) in
    rw there (
      get_or-set_ne s.latency_idx ((length history - 1 - i) % lat_ring_size) (millis sm.latency)
        s.latency (omega (arith, h.next))
      ∙ h.kept i (omega arith) (omega arith))

ring_fill :
    (n k : ℕ)
    → n ≡ min k lat_ring_size
    → (if ltb n lat_ring_size then n + 1 else n) ≡ min (suc k) lat_ring_size
ring_fill n k h = ground arith

record_sample-Holds :
    (s : Site) (history : List ℕ) (t : ℕ) (sm : Sample)
    → Holds history s
    → Holds (millis sm.latency ∷ history) (record_sample s t sm)
unfolding record_sample
record_sample-Holds s history t sm h = record {
  size = length-set s.latency s.latency_idx (millis sm.latency) ∙ h.size;
  next = omega (arith, h.next);
  counted = ring_fill s.latency_n (length history) h.counted;
  kept = λ i lt small. record_sample-kept s history t sm i h lt small;
}

pub new_site-Holds : Holds [] new_site
unfolding new_site
new_site-Holds = record {
  size = length-replicate {A = ℕ} lat_ring_size 0;
  next = omega arith;
  counted = omega arith;
  kept = λ i lt small. absurd (omega arith);
}

-- The ring always holds the last 1024 latencies of what was recorded, or all of them if they are
-- fewer, each in the slot that its turn gives.
pub record_all-Holds :
    (s : Site) (history : List ℕ) (es : List (ℕ × Sample))
    → Holds history s
    → Holds (latest history es) (record_all s es)
unfolding record_all
record_all-Holds s history [] h = h
record_all-Holds s history ((t, sm) ∷ es) h =
    record_all-Holds (record_sample s t sm) (millis sm.latency ∷ history) es
      (record_sample-Holds s history t sm h)
