-- ===== src/Secmon/Hijacks.antt =====
-- internal/secmon/secmon.go: classifyHijacks, the successful logins that deserve attention.
-- The groups are kept in the order of their first login, which is the source's `order`.
pub mod Alerts
use orxies.Prelude.{
  ℕ, suc, ◌+◌, Bool, true, false, ◌&&◌, ◌||◌, not, List, [], ◌∷◌, ◌++◌, Option, none, some, leb,
  ltb, ◌==◌, if◌then◌else◌, Text, text_eq, text_key, codes, lookup, sort_by,
}
use orxies.Prelude.Decimal.{print_int}
use orxies.Secmon.{Kind, Event, IpStat, Hijack, earlier, later}

abbrev pub threshold : ℕ
threshold = 20

abbrev pub em_dash : Text
em_dash = 226 ∷ 128 ∷ 148 ∷ []

abbrev pub failures_or : Option IpStat → ℕ
failures_or none = 0
failures_or (some st) = st.failures + st.invalid_users

unfoldable pub prior_of : List (Text × IpStat) → Text → ℕ
unfolding lookup
prior_of stats ip = failures_or (lookup ip stats)

abbrev pub is_password : Kind → Bool
is_password Kind.accepted_password = true
is_password _ = false

abbrev pub landed_reason : ℕ → Text
landed_reason prior =
    codes "succeeded from an address with "
    ++ print_int prior
    ++ codes " failed attempts "
    ++ em_dash
    ++ codes " possible brute-force success"

abbrev pub prior_note : ℕ → Text
prior_note prior =
    if ltb 0 prior
    then codes " (" ++ print_int prior ++ codes " failed attempt(s) from this address)"
    else []

abbrev pub password_reason : ℕ → Text
password_reason prior =
    codes "password login "
    ++ em_dash
    ++ codes " should be impossible once key-only auth is enforced"
    ++ prior_note prior

-- The severity and the reason, `none` for a login that is no alert.
unfoldable pub alert_of : Kind → ℕ → Option (Text × Text)
alert_of kind prior =
    if leb threshold prior
    then some (codes "high", landed_reason prior)
    else if is_password kind
    then some (codes "medium", password_reason prior)
    else none

abbrev pub same_kind : Kind → Kind → Bool
same_kind Kind.failed_password Kind.failed_password = true
same_kind Kind.invalid_user Kind.invalid_user = true
same_kind Kind.accepted_password Kind.accepted_password = true
same_kind Kind.accepted_key Kind.accepted_key = true
same_kind Kind.max_auth_tries Kind.max_auth_tries = true
same_kind Kind.ban Kind.ban = true
same_kind Kind.unban Kind.unban = true
same_kind _ _ = false

abbrev pub is_group : Event → Hijack → Bool
is_group e h = text_eq h.ip e.ip && text_eq h.user e.user && same_kind h.kind e.kind

abbrev pub with_login : Event → Hijack → Hijack
with_login e h = record h {
  count = suc h.count;
  first = earlier h.first e.time;
  last = later h.last e.time;
}

abbrev pub new_group : Event → ℕ → Text × Text → Hijack
new_group e prior (severity, reason) = record {
  ip = e.ip;
  user = e.user;
  kind = e.kind;
  count = 0;
  first = e.time;
  last = e.time;
  reason = reason;
  severity = severity;
  prior_failures = prior;
}

-- A login is added to its group, or begins one.
unfoldable pub add_login : Event → ℕ → Text × Text → List Hijack → List Hijack
add_login e prior alert [] = with_login e (new_group e prior alert) ∷ []
add_login e prior alert (h ∷ hs) =
    let rest = add_login e prior alert hs in if is_group e h then with_login e h ∷ hs else h ∷ rest

abbrev pub classified : Event → ℕ → List Hijack → Option (Text × Text) → List Hijack
classified e prior hs none = hs
classified e prior hs (some alert) = add_login e prior alert hs

unfoldable pub group_logins : List (Text × IpStat) → List Event → List Hijack → List Hijack
unfolding add_login alert_of prior_of
group_logins stats [] hs = hs
group_logins stats (e ∷ es) hs =
    let prior = prior_of stats e.ip in
    group_logins stats es (classified e prior hs (alert_of e.kind prior))

abbrev pub is_high : Hijack → Bool
is_high h = text_eq h.severity (codes "high")

abbrev pub hijack_less : Hijack → Hijack → Bool
hijack_less a b =
    if is_high a && is_high b || not (is_high a) && not (is_high b)
    then ltb b.last a.last
    else is_high a

unfoldable pub classify_hijacks : List Event → List (Text × IpStat) → List Hijack
unfolding group_logins sort_by
classify_hijacks successes stats = sort_by hijack_less (group_logins stats successes [])
