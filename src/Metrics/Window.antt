-- ===== src/Metrics/Window.antt =====
-- The last minute of requests.
use orxies.Prelude.{
  ℕ, zero, suc, ◌+◌, ◌-◌, ◌%◌, ◌≤◌, ◌<◌, ◌≡◌, refl, ◌⊎◌, inl, inr, List, [], ◌∷◌, arith, ltb,
  if◌then◌else◌, length, get_or, set, length-set, length-replicate, replicate, ◌∙◌,
}
use orxies.Metrics.{
  bucket_count, u32, Sample, Bucket, empty_bucket, Site, new_site, observe, record_sample, is_live,
  sum_live, snapshot,
}

unfoldable pub record_all : Site → List (ℕ × Sample) → Site
record_all s [] = s
record_all s ((now, sm) ∷ es) = record_all (record_sample s now sm) es

-- The events of the 60 seconds that end at `now`.
unfoldable pub in_window : ℕ → List (ℕ × Sample) → ℕ
in_window now [] = 0
in_window now ((t, sm) ∷ es) = (if ltb (now - t) bucket_count then 1 else 0) + in_window now es

-- Slot `i` and those after it hold seconds of their own residue, none after `last`, and no more
-- than `n` requests each.
abbrev Slots : ℕ → ℕ → ℕ → List Bucket → Type 0
Slots i last n [] = Unit
Slots i last n (b ∷ bs) =
    ((b.ts_unix ≡ 0) ⊎ (b.ts_unix % bucket_count ≡ i))
    × (b.ts_unix ≤ last)
    × (b.reqs ≤ n)
    × Slots (i + 1) last n bs

reqs_live : ℕ → Bucket → ℕ
reqs_live now b = if is_live now b then b.reqs else 0

sum-set :
    (now i : ℕ) (bs : List Bucket) (v : Bucket)
    → i < length bs
    → sum_live (λ b. b.reqs) now (set bs i v) + reqs_live now (get_or bs i empty_bucket)
      ≡ sum_live (λ b. b.reqs) now bs + reqs_live now v
unfolding sum_live reqs_live
sum-set now zero [] v h = elim h [ ]
sum-set now (suc i) [] v h = elim h [ ]
sum-set now zero (b ∷ bs) v h = omega arith
sum-set now (suc i) (b ∷ bs) v h = omega (arith, sum-set now i bs v (omega arith))

Slots-get :
    (j last n i : ℕ) (bs : List Bucket)
    → Slots j last n bs
    → i < length bs
    → let b = get_or bs i empty_bucket in
      ((b.ts_unix ≡ 0) ⊎ (b.ts_unix % bucket_count ≡ j + i)) × (b.ts_unix ≤ last) × (b.reqs ≤ n)
Slots-get j last n zero [] s h = elim h [ ]
Slots-get j last n (suc i) [] s h = elim h [ ]
Slots-get j last n zero (b ∷ bs) s h = ground arith
Slots-get j last n (suc i) (b ∷ bs) s h =
    ground (arith, Slots-get (j + 1) last n i bs s.3 (omega arith))

Slots-later :
    (j last last' n n' : ℕ) (bs : List Bucket)
    → last ≤ last'
    → n ≤ n'
    → Slots j last n bs
    → Slots j last' n' bs
Slots-later j last last' n n' [] h k s = tt
Slots-later j last last' n n' (b ∷ bs) h k s =
    (s.0, omega arith, omega arith, Slots-later (j + 1) last last' n n' bs h k s.3)

Slots-set :
    (j last n i : ℕ) (bs : List Bucket) (v : Bucket)
    → Slots j last n bs
    → v.ts_unix % bucket_count ≡ j + i
    → v.ts_unix ≤ last
    → v.reqs ≤ n
    → Slots j last n (set bs i v)
Slots-set j last n i [] v s r t q = tt
Slots-set j last n zero (b ∷ bs) v s r t q = (inr (omega arith), t, q, s.3)
Slots-set j last n (suc i) (b ∷ bs) v s r t q =
    (s.0, s.1, s.2, Slots-set (j + 1) last n i bs v s.3 (omega arith) t q)

-- What one observation adds to the live requests, seen from a later second.
observe-live :
    (now t n last : ℕ) (sm : Sample) (b : Bucket)
    → 1 ≤ t
    → last ≤ t
    → t ≤ now
    → n < u32 - 1
    → (b.ts_unix ≡ 0) ⊎ (b.ts_unix % bucket_count ≡ t % bucket_count)
    → b.ts_unix ≤ last
    → b.reqs ≤ n
    → reqs_live now (observe t sm b)
      ≡ reqs_live now b + (if ltb (now - t) bucket_count then 1 else 0)
unfolding reqs_live observe
observe-live now t n last sm b one le now_le small slot old few = ground arith

observe-ts_unix : (t : ℕ) (sm : Sample) (b : Bucket) → (observe t sm b).ts_unix ≡ t
unfolding observe
observe-ts_unix t sm b = ground arith

observe-reqs : (t n : ℕ) (sm : Sample) (b : Bucket) → b.reqs ≤ n → (observe t sm b).reqs ≤ n + 1
unfolding observe
observe-reqs t n sm b h = ground arith

record Inv (last n : ℕ) (s : Site) : Type 0 where
  sixty : length s.buckets ≡ bucket_count
  slots : Slots 0 last n s.buckets

record_sample-Inv :
    (s : Site) (last n t : ℕ) (sm : Sample)
    → last ≤ t
    → n < u32 - 1
    → Inv last n s
    → Inv t (n + 1) (record_sample s t sm)
unfolding record_sample
record_sample-Inv s last n t sm le small v =
    let b = get_or s.buckets (t % bucket_count) empty_bucket in
    let old = Slots-get 0 last n (t % bucket_count) s.buckets v.slots (omega (arith, v.sixty)) in
    let ts = observe-ts_unix t sm b in
    record {
      sixty = length-set s.buckets (t % bucket_count) _ ∙ v.sixty;
      slots =
          Slots-set 0 t (n + 1) (t % bucket_count) s.buckets _
            (Slots-later 0 last t n (n + 1) s.buckets le (omega arith) v.slots) (omega (arith, ts))
            (omega (arith, ts)) (observe-reqs t n sm b old.2);
    }

record_sample-live :
    (s : Site) (last n t now : ℕ) (sm : Sample)
    → 1 ≤ t
    → last ≤ t
    → t ≤ now
    → n < u32 - 1
    → Inv last n s
    → sum_live (λ b. b.reqs) now (record_sample s t sm).buckets
      ≡ sum_live (λ b. b.reqs) now s.buckets + (if ltb (now - t) bucket_count then 1 else 0)
unfolding record_sample
record_sample-live s last n t now sm one le now_le small v =
    let i = t % bucket_count in
    let b = get_or s.buckets i empty_bucket in
    let within : i < length s.buckets = omega (arith, v.sixty) in
    let old = Slots-get 0 last n i s.buckets v.slots within in
    omega (
      arith,
      sum-set now i s.buckets (observe t sm b) within,
      observe-live now t n last sm b one le now_le small (omega (arith, old)) old.1 old.2,
    )

-- The times of the events rise from `last` to at most `now`, and are after second 0.
abbrev pub Rising : ℕ → List (ℕ × Sample) → ℕ → Type 0
Rising last [] now = last ≤ now
Rising last ((t, sm) ∷ es) now = (1 ≤ t) × (last ≤ t) × Rising t es now

Rising-le : (last now : ℕ) (es : List (ℕ × Sample)) → Rising last es now → last ≤ now
Rising-le last now [] r = r
Rising-le last now ((t, sm) ∷ es) r = omega (arith, r.1, Rising-le t now es r.2)

record_all-live :
    (s : Site) (last n now : ℕ) (es : List (ℕ × Sample))
    → Rising last es now
    → n + length es < u32
    → Inv last n s
    → sum_live (λ b. b.reqs) now (record_all s es).buckets
      ≡ sum_live (λ b. b.reqs) now s.buckets + in_window now es
unfolding record_all in_window
record_all-live s last n now [] r few v = omega arith
record_all-live s last n now ((t, sm) ∷ es) r few v =
    let small : n < u32 - 1 = omega arith in
    let s' = record_sample s t sm in
    omega (
      arith,
      record_sample-live s last n t now sm r.0 r.1 (Rising-le t now es r.2) small v,
      record_all-live s' t (n + 1) now es r.2 (omega arith)
          (record_sample-Inv s last n t sm r.1 small v),
    )

Slots-empty : (k i : ℕ) → Slots i 0 0 (replicate k empty_bucket)
Slots-empty zero i = tt
Slots-empty (suc k) i = (inl refl, omega arith, omega arith, Slots-empty k (i + 1))

live-empty : (k now : ℕ) → sum_live (λ b. b.reqs) now (replicate k empty_bucket) ≡ 0
unfolding sum_live
live-empty zero now = refl
live-empty (suc k) now = omega (arith, live-empty k now)

in_window-le : (now : ℕ) (es : List (ℕ × Sample)) → in_window now es ≤ length es
unfolding in_window
in_window-le now [] = omega arith
in_window-le now ((t, sm) ∷ es) = ground (arith, in_window-le now es)

-- The ring of sixty buckets counts exactly: after any requests in the order of time, fewer than
-- 2 ^ 32, a snapshot reports as many as fall in the 60 seconds before it.
pub reqs_last_1m-in_window :
    (now : ℕ) (es : List (ℕ × Sample))
    → Rising 0 es now
    → length es < u32
    → (snapshot (record_all new_site es) now).reqs_last_1m ≡ in_window now es
unfolding snapshot new_site
reqs_last_1m-in_window now es r few = omega (
  arith,
  record_all-live new_site 0 0 now es r (omega arith) (record {
    sixty = length-replicate bucket_count empty_bucket;
    slots = Slots-empty bucket_count 0;
  }),
  live-empty bucket_count now,
  in_window-le now es,
)
