-- ===== src/Secmon/Build.antt =====
-- internal/secmon/secmon.go: a whole snapshot, `build`, and the cache of the Reader.
-- `disk` is what reading a file gives.
use orxies.Prelude.{
  ℕ, ◌-◌, ◌*◌, ◌^◌, Bool, true, false, ◌&&◌, ◌||◌, not, List, [], ◌∷◌, ◌++◌, Option, none, some,
  ltb, ◌==◌, if◌then◌else◌, length, take, Text, codes, is_empty, text_key,
}
use orxies.Prelude.Int.{ℤ, pos, negsuc}
use orxies.Secmon.{Event, IpStat, UserStat, Hijack}
use orxies.Secmon.Authlog.{TimeParsers, parse_auth_log}
use orxies.Secmon.Fail2ban.{parse_fail2ban_log}
use orxies.Secmon.Counts.{
  Counts, no_counts, count_events, BanCounts, count_bans, mark_banned, attackers, top_attackers,
  top_usernames,
}
use orxies.Secmon.Hijacks.{em_dash, classify_hijacks}
use orxies.Secmon.Views.{
  reverse, tail_filtered, is_failure, hourly_failures, window_of, human_window,
}

pub record MonitorConfig : Type 0 where
  pub auth_log : Text
  pub fail2ban_log : Text
  pub tail_bytes : ℤ
  pub max_events : ℤ
  pub cache_ttl : ℤ

abbrev pub positive_or : ℤ → ℕ → ℕ
positive_or (negsuc n) d = d
positive_or (pos n) d = if n == 0 then d else n

abbrev pub default_tail_bytes : ℕ
default_tail_bytes = 4 * 2 ^ 20

abbrev pub tail_bytes_of : MonitorConfig → ℕ
tail_bytes_of c = positive_or c.tail_bytes default_tail_bytes

abbrev pub max_events_of : MonitorConfig → ℕ
max_events_of c = positive_or c.max_events 200

abbrev pub cache_ttl_of : MonitorConfig → ℕ
cache_ttl_of c = positive_or c.cache_ttl 15000000000

pub data FileError : Type 0 where
  not_exist permission : FileError
  other_error : Text → FileError

pub data FileRead : Type 0 where
  file_bytes : Text → FileRead
  file_error : FileError → FileRead

abbrev pub auth_log_problem : Text → FileError → Text
auth_log_problem path FileError.not_exist =
    path ++ codes " not found (bind-mount it into the container read-only)"
auth_log_problem path FileError.permission =
    path
    ++ codes " unreadable "
    ++ em_dash
    ++ codes " these logs are mode 640 root:adm, so the container needs group_add: \"4\" (adm)"
auth_log_problem path (FileError.other_error e) = path ++ codes ": " ++ e

-- What a log gives: its events, and the problems that it adds.
pub record Source : Type 0 where
  pub ok : Bool
  pub events : List Event
  pub problems : List Text

abbrev pub problem : Text → Source
problem text = record { ok = false; events = []; problems = text ∷ [] }

abbrev pub source_read : Text → (Text → List Event) → FileRead → Source
source_read path parse (FileRead.file_bytes b) = record {
  ok = true;
  events = parse b;
  problems = [];
}
source_read path parse (FileRead.file_error e) = problem (auth_log_problem path e)

abbrev pub source_of : Text → Text → (Text → FileRead) → (Text → List Event) → Source
source_of path unset disk parse =
    if is_empty path then problem unset else source_read path parse (disk path)

abbrev pub join_problems : List Text → Text
join_problems [] = []
join_problems (p ∷ []) = p
join_problems (p ∷ q ∷ ps) = p ++ codes "; " ++ join_problems (q ∷ ps)

pub record Snapshot : Type 0 where
  pub available : Bool
  pub reason : Text
  pub generated_at : ℕ
  pub window : Text
  pub from : ℕ
  pub to : ℕ
  pub total_failures : ℕ
  pub total_invalid_users : ℕ
  pub total_successes : ℕ
  pub unique_attackers : ℕ
  pub bans_total : ℕ
  pub bans_active : ℕ
  pub fail2ban_ok : Bool
  pub auth_log_ok : Bool
  pub top_attackers : List IpStat
  pub top_usernames : List UserStat
  pub successes : List Event
  pub hijacks : List Hijack
  pub recent_failures : List Event
  pub recent_bans : List Event
  pub hourly : List ℕ

abbrev pub unavailable : Text → ℕ → Snapshot
unavailable reason now = record {
  available = false;
  reason = reason;
  generated_at = now;
  window = [];
  from = 0;
  to = 0;
  total_failures = 0;
  total_invalid_users = 0;
  total_successes = 0;
  unique_attackers = 0;
  bans_total = 0;
  bans_active = 0;
  fail2ban_ok = false;
  auth_log_ok = false;
  top_attackers = [];
  top_usernames = [];
  successes = [];
  hijacks = [];
  recent_failures = [];
  recent_bans = [];
  hourly = [];
}

abbrev pub bans_of : Counts → List Event → BanCounts
bans_of c bans =
    count_bans (record { stats = c.stats; bans_total = 0; recent_bans = []; last_action = [] }) bans

unfoldable pub aggregate : MonitorConfig → ℕ → Source → Source → Snapshot
unfolding count_events count_bans mark_banned top_attackers top_usernames classify_hijacks
    tail_filtered hourly_failures window_of human_window
aggregate cfg now auth bans =
    let c = count_events no_counts auth.events in
    let b = bans_of c bans.events in
    let marked = mark_banned b.last_action b.stats 0 in
    let window = window_of auth.events bans.events in
    record {
      available = true;
      reason = join_problems (auth.problems ++ bans.problems);
      generated_at = now;
      window = human_window window;
      from = window.0;
      to = window.1;
      total_failures = c.total_failures;
      total_invalid_users = c.total_invalid_users;
      total_successes = c.total_successes;
      unique_attackers = length (attackers marked.0);
      bans_total = b.bans_total;
      bans_active = marked.1;
      fail2ban_ok = bans.ok;
      auth_log_ok = auth.ok;
      top_attackers = top_attackers marked.0;
      top_usernames = top_usernames c.users;
      successes = reverse c.successes;
      hijacks = classify_hijacks c.successes marked.0;
      recent_failures = tail_filtered auth.events (max_events_of cfg) (λ e. is_failure e.kind);
      recent_bans = take (max_events_of cfg) (reverse b.recent_bans);
      hourly = hourly_failures auth.events now;
    }

unfoldable pub build : MonitorConfig → TimeParsers → (Text → FileRead) → ℕ → Snapshot
unfolding aggregate parse_auth_log parse_fail2ban_log
build cfg times disk now =
    let tail = tail_bytes_of cfg in
    let auth =
      source_of cfg.auth_log (codes "auth_log not configured") disk
        (λ b. parse_auth_log times now b tail) in
    let bans =
      source_of cfg.fail2ban_log (codes "fail2ban_log not configured") disk
        (λ b. parse_fail2ban_log times b tail) in
    if auth.ok || bans.ok
    then aggregate cfg now auth bans
    else unavailable (join_problems (auth.problems ++ bans.problems)) now

pub record Reader : Type 0 where
  pub cfg : MonitorConfig
  pub last : Snapshot
  pub at : ℕ

-- A nil Reader is `none`. The clock is read at the call, and again behind the build.
unfoldable pub read :
    TimeParsers → (Text → FileRead) → ℕ → ℕ → Option Reader → Snapshot × Option Reader
unfolding build
read times disk now done none =
    (unavailable (codes "security monitoring is not configured") 0, none)
read times disk now done (some r) =
    let s = build r.cfg times disk now in
    if not (r.at == 0) && ltb (now - r.at) (cache_ttl_of r.cfg)
    then (r.last, some r)
    else (s, some (record r { last = s; at = done }))
