-- ===== src/Secmon/Hijacks/Alerts.antt =====
-- internal/secmon/secmon.go: which logins classifyHijacks raises, and on what grounds.
use orxies.Prelude.{
  ap, lookup, text_key, ℕ, suc, ◌+◌, ◌≤◌, ◌<◌, ◌≡◌, ◌⊎◌, refl, leb, if◌then◌else◌, codes, List, [],
  ◌∷◌, Option, none, some, Text, sort_by, insert_sorted, All, sort_by-All, arith, Bool-cases, inl,
  inr,
}
use orxies.Secmon.{Kind, Event, IpStat, Hijack}
use orxies.Secmon.Hijacks.{
  prior_of, failures_or, alert_of, is_password, password_reason, is_group, add_login, classified,
  group_logins, hijack_less, classify_hijacks,
}

-- The grounds of an alert: 20 failures or more, or else a login by password.
abbrev pub Grounds : Kind → ℕ → Text → Type 0
Grounds kind prior severity =
    ((20 ≤ prior) × (severity ≡ codes "high"))
    ⊎ ((prior < 20) × (kind ≡ Kind.accepted_password) × (severity ≡ codes "medium"))

-- Below the threshold only the kind counts.
password-medium :
    (kind : Kind) (reason : Text) (alert : Text × Text)
    → (if is_password kind then some (codes "medium", reason) else none) ≡ some alert
    → (kind ≡ Kind.accepted_password) × (alert.0 ≡ codes "medium")
password-medium Kind.failed_password reason (severity, r) a = absurd (ground (arith, a))
password-medium Kind.invalid_user reason (severity, r) a = absurd (ground (arith, a))
password-medium Kind.accepted_password reason (severity, r) a = (refl, ground (arith, a))
password-medium Kind.accepted_key reason (severity, r) a = absurd (ground (arith, a))
password-medium Kind.max_auth_tries reason (severity, r) a = absurd (ground (arith, a))
password-medium Kind.ban reason (severity, r) a = absurd (ground (arith, a))
password-medium Kind.unban reason (severity, r) a = absurd (ground (arith, a))

alert_of-Grounds :
    (kind : Kind) (prior : ℕ) (alert : Text × Text)
    → alert_of kind prior ≡ some alert
    → Grounds kind prior alert.0
unfolding alert_of
alert_of-Grounds kind prior (severity, reason) a = elim (Bool-cases (leb 20 prior)) [
  | inl many ↦ inl (ground (arith, many), ground (arith, many, a))
  | inr few ↦
      let (by, medium) =
        password-medium kind (password_reason prior) (severity, reason) (ground (arith, few, a)) in
      inr (ground (arith, few), by, medium)
]

-- The failures of an address: wrong passwords and invalid users.
abbrev pub failed_at : Option IpStat → ℕ
failed_at none = 0
failed_at (some st) = st.failures + st.invalid_users

failures_or-failed_at : (o : Option IpStat) → failures_or o ≡ failed_at o
failures_or-failed_at none = refl
failures_or-failed_at (some st) = refl

prior_of-failed_at :
    (stats : List (Text × IpStat)) (ip : Text) → prior_of stats ip ≡ failed_at (lookup ip stats)
unfolding prior_of
prior_of-failed_at stats ip = failures_or-failed_at (lookup ip stats)

-- A group stands on the failures of its own address, which are ground for an alert of just its
-- severity.
pub record IsJustified (stats : List (Text × IpStat)) (h : Hijack) : Type 0 where
  pub prior : h.prior_failures ≡ failed_at (lookup h.ip stats)
  pub grounds : Grounds h.kind h.prior_failures h.severity
  pub counted : 1 ≤ h.count

abbrev pub logins : List Hijack → ℕ
logins [] = 0
logins (h ∷ hs) = h.count + logins hs

abbrev pub by_password : Kind → ℕ
by_password Kind.accepted_password = 1
by_password _ = 0

abbrev alerting : Option (Text × Text) → ℕ
alerting none = 0
alerting (some alert) = 1

-- A login that is ground for an alert counts one.
abbrev pub grounded : Kind → ℕ → ℕ
grounded kind prior = if leb 20 prior then 1 else by_password kind

weak :
    (kind : Kind) (reason : Text)
    → alerting (if is_password kind then some (codes "medium", reason) else none) ≡ by_password kind
weak Kind.failed_password reason = refl
weak Kind.invalid_user reason = refl
weak Kind.accepted_password reason = refl
weak Kind.accepted_key reason = refl
weak Kind.max_auth_tries reason = refl
weak Kind.ban reason = refl
weak Kind.unban reason = refl

alerting-alert_of : (kind : Kind) (prior : ℕ) → alerting (alert_of kind prior) ≡ grounded kind prior
unfolding alert_of
alerting-alert_of kind prior = elim (Bool-cases (leb 20 prior)) [
  | inl many ↦ rw many refl
  | inr few ↦ rw few (weak kind (password_reason prior))
]

-- The logins that are ground for an alert.
unfoldable pub alerts : List (Text × IpStat) → List Event → ℕ
alerts stats [] = 0
alerts stats (e ∷ es) = grounded e.kind (failed_at (lookup e.ip stats)) + alerts stats es

module _ (stats : List (Text × IpStat)) where
  add_login-IsJustified :
      (e : Event) (alert : Text × Text) (hs : List Hijack)
      → alert_of e.kind (prior_of stats e.ip) ≡ some alert
      → All (IsJustified stats) hs
      → All (IsJustified stats) (add_login e (prior_of stats e.ip) alert hs)
  unfolding add_login
  add_login-IsJustified e alert [] a h = (
    record {
      prior = prior_of-failed_at stats e.ip;
      grounds = alert_of-Grounds e.kind (prior_of stats e.ip) alert a;
      counted = omega arith;
    },
    tt,
  )
  add_login-IsJustified e alert (g ∷ gs) a h = elim (Bool-cases (is_group e g)) [
    | inl own ↦
        rw own (record { prior = h.0.prior; grounds = h.0.grounds; counted = omega arith }, h.1)
    | inr other ↦ rw other (h.0, add_login-IsJustified e alert gs a h.1)
  ]

  classified-IsJustified :
      (e : Event) (hs : List Hijack) (o : Option (Text × Text))
      → alert_of e.kind (prior_of stats e.ip) ≡ o
      → All (IsJustified stats) hs
      → All (IsJustified stats) (classified e (prior_of stats e.ip) hs o)
  classified-IsJustified e hs none a h = h
  classified-IsJustified e hs (some alert) a h = add_login-IsJustified e alert hs a h

  group_logins-IsJustified :
      (es : List Event) (hs : List Hijack)
      → All (IsJustified stats) hs
      → All (IsJustified stats) (group_logins stats es hs)
  unfolding group_logins
  group_logins-IsJustified [] hs h = h
  group_logins-IsJustified (e ∷ es) hs h =
      group_logins-IsJustified es _
        (classified-IsJustified e hs (alert_of e.kind (prior_of stats e.ip)) refl h)

  logins-add_login :
      (e : Event) (prior : ℕ) (alert : Text × Text) (hs : List Hijack)
      → logins (add_login e prior alert hs) ≡ suc (logins hs)
  unfolding add_login
  logins-add_login e prior alert [] = refl
  logins-add_login e prior alert (g ∷ gs) = elim (Bool-cases (is_group e g)) [
    | inl own ↦ rw own (omega arith)
    | inr other ↦ rw other (omega (arith, logins-add_login e prior alert gs))
  ]

  logins-classified :
      (e : Event) (prior : ℕ) (hs : List Hijack) (o : Option (Text × Text))
      → logins (classified e prior hs o) ≡ alerting o + logins hs
  logins-classified e prior hs none = omega arith
  logins-classified e prior hs (some alert) = omega (arith, logins-add_login e prior alert hs)

  logins-group_logins :
      (es : List Event) (hs : List Hijack)
      → logins (group_logins stats es hs) ≡ alerts stats es + logins hs
  unfolding group_logins alerts
  logins-group_logins [] hs = omega arith
  logins-group_logins (e ∷ es) hs =
      let prior = prior_of stats e.ip in
      let o = alert_of e.kind prior in
      omega (
        arith,
        logins-classified e prior hs o,
        logins-group_logins es (classified e prior hs o),
        alerting-alert_of e.kind prior,
        ap (grounded e.kind) (prior_of-failed_at stats e.ip),
      )

  logins-insert_sorted :
      (h : Hijack) (hs : List Hijack)
      → logins (insert_sorted hijack_less h hs) ≡ h.count + logins hs
  unfolding insert_sorted
  logins-insert_sorted h [] = refl
  logins-insert_sorted h (g ∷ gs) = elim (Bool-cases (hijack_less g h)) [
    | inl first ↦ rw first (omega (arith, logins-insert_sorted h gs))
    | inr second ↦ rw second refl
  ]

  logins-sort_by : (hs : List Hijack) → logins (sort_by hijack_less hs) ≡ logins hs
  unfolding sort_by
  logins-sort_by [] = refl
  logins-sort_by (h ∷ hs) =
      omega (arith, logins-insert_sorted h (sort_by hijack_less hs), logins-sort_by hs)

  -- Every group that is raised stands on the failures of its own address: at least 20 of them for a
  -- high one, and else a password login for a medium one. And no login is lost: the groups count as
  -- many logins as there are grounds for an alert.
  pub classify_hijacks-IsJustified :
      (successes : List Event)
      → All (IsJustified stats) (classify_hijacks successes stats)
        × (logins (classify_hijacks successes stats) ≡ alerts stats successes)
  unfolding classify_hijacks
  classify_hijacks-IsJustified successes = (
    sort_by-All (IsJustified stats) hijack_less (group_logins stats successes [])
        (group_logins-IsJustified successes [] tt),
    omega
        (arith, logins-sort_by (group_logins stats successes []), logins-group_logins successes []),
  )
