-- ===== src/Secmon/Counts/Sums.antt =====
-- internal/secmon/secmon.go: the totals are the sums of the counts by address.
use orxies.Prelude.{
  ℕ, suc, ◌+◌, ◌≡◌, refl, sym, ap, ◌∙◌, List, [], ◌∷◌, Option, none, some, Text, text_eq, text_key,
  is_empty, lookup, insert, arith, Bool-cases, Option-cases, inl, inr,
}
use orxies.Secmon.{Kind, Event, IpStat}
use orxies.Secmon.Counts.{
  touch, Counts, failure, invalid, success, other, counted_as, count_event, count_events,
}

abbrev pub sum_of : (IpStat → ℕ) → List (Text × IpStat) → ℕ
sum_of f [] = 0
sum_of f ((ip, st) ∷ stats) = f st + sum_of f stats

abbrev value_or : (IpStat → ℕ) → Option IpStat → ℕ
value_or f none = 0
value_or f (some st) = f st

sum_of-insert :
    (f : IpStat → ℕ) (ip : Text) (st : IpStat) (stats : List (Text × IpStat))
    → sum_of f (insert ip st stats) + value_or f (lookup ip stats) ≡ sum_of f stats + f st
unfolding insert lookup
sum_of-insert f ip st [] = omega arith
sum_of-insert f ip st ((j, w) ∷ stats) = elim (Bool-cases (text_eq j ip)) [
  | inl same ↦ rw same (omega arith)
  | inr apart ↦ rw apart (omega (arith, sum_of-insert f ip st stats))
]

-- The totals are the sums over the addresses.
pub record IsTallied (c : Counts) : Type 0 where
  pub failures : sum_of (λ s. s.failures) c.stats ≡ c.total_failures
  pub invalid_users : sum_of (λ s. s.invalid_users) c.stats ≡ c.total_invalid_users
  pub successes : sum_of (λ s. s.successes) c.stats ≡ c.total_successes

touch-values :
    (stats : List (Text × IpStat)) (ip : Text) (t : ℕ)
    → ((touch stats ip t).failures ≡ value_or (λ s. s.failures) (lookup ip stats))
      × ((touch stats ip t).invalid_users ≡ value_or (λ s. s.invalid_users) (lookup ip stats))
      × ((touch stats ip t).successes ≡ value_or (λ s. s.successes) (lookup ip stats))
unfolding touch
touch-values stats ip t = elim (Option-cases (lookup ip stats)) [
  | inl new ↦ rw new (refl, refl, refl)
  | inr (st, old) ↦ rw old (refl, refl, refl)
]

-- An entry that is put back with so much more in each count.
put-sum :
    (f : IpStat → ℕ) (stats : List (Text × IpStat)) (ip : Text) (st : IpStat) (n more : ℕ)
    → f st ≡ value_or f (lookup ip stats) + more
    → sum_of f stats ≡ n
    → sum_of f (insert ip st stats) ≡ n + more
put-sum f stats ip st n more e h = omega (arith, sum_of-insert f ip st stats)

-- The entry of an address is put back with `a`, `b` and `d` more, and so are the totals.
put-IsTallied :
    (c : Counts) (ip : Text) (t : ℕ) (st : IpStat) (c' : Counts) (a b d : ℕ)
    → c'.stats ≡ insert ip st c.stats
    → st.failures ≡ (touch c.stats ip t).failures + a
    → st.invalid_users ≡ (touch c.stats ip t).invalid_users + b
    → st.successes ≡ (touch c.stats ip t).successes + d
    → c'.total_failures ≡ c.total_failures + a
    → c'.total_invalid_users ≡ c.total_invalid_users + b
    → c'.total_successes ≡ c.total_successes + d
    → IsTallied c
    → IsTallied c'
put-IsTallied c ip t st c' a b d same f i s ft it st' h =
    let v = touch-values c.stats ip t in
    record {
      failures =
          ap (sum_of (λ x. x.failures)) same
          ∙ put-sum (λ x. x.failures) c.stats ip st c.total_failures a (f ∙ ap (λ n. n + a) v.0)
              h.failures
          ∙ sym ft;
      invalid_users =
          ap (sum_of (λ x. x.invalid_users)) same
          ∙ put-sum (λ x. x.invalid_users) c.stats ip st c.total_invalid_users b
              (i ∙ ap (λ n. n + b) v.1) h.invalid_users
          ∙ sym it;
      successes =
          ap (sum_of (λ x. x.successes)) same
          ∙ put-sum (λ x. x.successes) c.stats ip st c.total_successes d (s ∙ ap (λ n. n + d) v.2)
              h.successes
          ∙ sym st';
    }

module _ (c : Counts) (e : Event) (h : IsTallied c) where
  abbrev entry : IpStat
  entry = touch c.stats e.ip e.time

  failure-IsTallied : IsTallied (failure c e entry)
  failure-IsTallied =
      put-IsTallied c e.ip e.time (record entry { failures = suc entry.failures })
        (failure c e entry) 1 0 0 refl (omega arith) (omega arith) (omega arith) (omega arith)
        (omega arith) (omega arith) h

  success-IsTallied : IsTallied (success c e entry)
  success-IsTallied =
      put-IsTallied c e.ip e.time (record entry { successes = suc entry.successes })
        (success c e entry) 0 0 1 refl (omega arith) (omega arith) (omega arith) (omega arith)
        (omega arith) (omega arith) h

  other-IsTallied : IsTallied (other c e entry)
  other-IsTallied =
      put-IsTallied c e.ip e.time entry (other c e entry) 0 0 0 refl (omega arith) (omega arith)
        (omega arith) (omega arith) (omega arith) (omega arith) h

  counted_as-IsTallied : (kind : Kind) → IsTallied (counted_as c e entry kind)
  counted_as-IsTallied Kind.failed_password = failure-IsTallied
  counted_as-IsTallied Kind.max_auth_tries = failure-IsTallied
  counted_as-IsTallied Kind.invalid_user =
      put-IsTallied c e.ip e.time (record entry { invalid_users = suc entry.invalid_users })
        (invalid c e entry) 0 1 0 refl (omega arith) (omega arith) (omega arith) (omega arith)
        (omega arith) (omega arith) h
  counted_as-IsTallied Kind.accepted_password = success-IsTallied
  counted_as-IsTallied Kind.accepted_key = success-IsTallied
  counted_as-IsTallied Kind.ban = other-IsTallied
  counted_as-IsTallied Kind.unban = other-IsTallied

count_event-IsTallied : (c : Counts) (e : Event) → IsTallied c → IsTallied (count_event c e)
unfolding count_event
count_event-IsTallied c e h = elim (Bool-cases (is_empty e.ip)) [
  | inl bare ↦ rw bare h
  | inr known ↦ rw known (counted_as-IsTallied c e h e.kind)
]

-- However many events are counted, the failures, the invalid users and the successes of all
-- addresses together are the totals of the page.
pub count_events-IsTallied :
    (c : Counts) (es : List Event) → IsTallied c → IsTallied (count_events c es)
unfolding count_events
count_events-IsTallied c [] h = h
count_events-IsTallied c (e ∷ es) h =
    count_events-IsTallied (count_event c e) es (count_event-IsTallied c e h)
