-- ===== src/Secmon/Tests.antt =====
-- Lines of the two logs, and the theorems at the events that they give.
use orxies.Prelude.{
  ◌≡◌, refl, List, [], ◌∷◌, ◌++◌, none, some, map, Text, codes, lookup, insert, sort_by,
  insert_sorted, All, text_key, text_eq, if◌then◌else◌, take,
}
use orxies.Prelude.Int.{pos}
use orxies.Prelude.Decimal.{print_digits, print_int}
use orxies.Secmon.{Kind, Event, IpStat, read_tail}
use orxies.Secmon.Authlog.{
  TimeParsers, principals_from, extract_principals, parse_auth_line, parse_auth_lines,
  parse_auth_log,
}
use orxies.Secmon.Fail2ban.{
  shape_from, looks_like_ip, jail_from, parse_fail2ban_line, parse_fail2ban_lines,
  parse_fail2ban_log,
}
use orxies.Secmon.Counts.{
  touch, Counts, no_counts, count_user, count_event, count_events, count_bans, mark_banned,
  top_attackers, top_usernames,
}
use orxies.Secmon.Counts.Sums.{IsTallied, count_events-IsTallied}
use orxies.Secmon.Counts.Tops.{IsTop, top_attackers-IsTop}
use orxies.Secmon.Hijacks.{prior_of, alert_of, add_login, group_logins, classify_hijacks}
use orxies.Secmon.Hijacks.Alerts.{IsJustified, logins, alerts, classify_hijacks-IsJustified}
use orxies.Secmon.Views.{
  reverse, filtered, tail_filtered, is_failure, bucket_failures, hourly_failures, widen, window_of,
  human_window,
}
use orxies.Secmon.Views.Tails.{select, tail_filtered-eq}
use orxies.Secmon.Build.{MonitorConfig, FileRead, FileError, aggregate, build}

program : Unit {0}
unfolding lookup insert sort_by insert_sorted print_digits print_int read_tail principals_from
    extract_principals parse_auth_line parse_auth_lines parse_auth_log shape_from looks_like_ip
    jail_from parse_fail2ban_line parse_fail2ban_lines parse_fail2ban_log touch count_user
    count_event count_events count_bans mark_banned top_attackers top_usernames prior_of alert_of
    add_login group_logins classify_hijacks filtered tail_filtered bucket_failures hourly_failures
    widen window_of human_window aggregate build
program = tt

abbrev times : TimeParsers
times = record {
  rfc3339 = λ s. some 90000000000000;
  local = λ s. some 90001000000000;
  syslog = λ s. none;
  year_back = λ t. t;
}

abbrev failed_line : Text
failed_line =
    codes
      "2026-09-06T00:01:13Z h sshd[1]: Failed password for invalid user bob from 10.0.0.9 port 22 ssh2"

abbrev accepted_line : Text
accepted_line =
    codes "2026-09-06T00:01:14Z h sshd[1]: Accepted password for root from 10.0.0.9 port 23 ssh2"

abbrev ban_line : Text
ban_line = codes "2026-09-06 00:05:27,860 fail2ban.actions [15]: NOTICE [sshd] Ban 10.0.0.9"

abbrev failed_event : Event
failed_event = record {
  time = 90000000000000;
  kind = Kind.failed_password;
  user = codes "bob";
  ip = codes "10.0.0.9";
  port = codes "22";
  jail = [];
}

abbrev accepted_event : Event
accepted_event = record failed_event {
  kind = Kind.accepted_password;
  user = codes "root";
  port = codes "23";
}

failed_parsed : parse_auth_line times failed_line 5 ≡ some failed_event
unfolding program
failed_parsed = refl

accepted_parsed : parse_auth_line times accepted_line 5 ≡ some accepted_event
unfolding program
accepted_parsed = refl

ban_parsed :
    parse_fail2ban_line times ban_line
    ≡ some (record {
      time = 90001000000000;
      kind = Kind.ban;
      user = [];
      ip = codes "10.0.0.9";
      port = [];
      jail = codes "sshd";
    })
unfolding program
ban_parsed = refl

abbrev events : List Event
events = failed_event ∷ accepted_event ∷ failed_event ∷ []

abbrev counts : Counts
counts = count_events no_counts events

count_events-IsTallied_example : IsTallied counts
count_events-IsTallied_example =
    count_events-IsTallied no_counts events
      (record { failures = refl; invalid_users = refl; successes = refl })

abbrev stats : List (Text × IpStat)
stats = counts.stats

two_failures : prior_of stats (codes "10.0.0.9") ≡ 2
unfolding program
two_failures = refl

top_attackers-IsTop_example : IsTop stats (top_attackers stats)
top_attackers-IsTop_example = top_attackers-IsTop stats

classify_hijacks-IsJustified_example :
    All (IsJustified stats) (classify_hijacks counts.successes stats)
    × (logins (classify_hijacks counts.successes stats) ≡ alerts stats counts.successes)
classify_hijacks-IsJustified_example = classify_hijacks-IsJustified stats counts.successes

one_alert : map (λ h. h.severity) (classify_hijacks counts.successes stats) ≡ codes "medium" ∷ []
unfolding program
one_alert = refl

tail_filtered-eq_example :
    tail_filtered events 1 (λ e. is_failure e.kind)
    ≡ take 1 (select (λ e. is_failure e.kind) (reverse events))
tail_filtered-eq_example = tail_filtered-eq events 1 (λ e. is_failure e.kind)

abbrev config : MonitorConfig
config = record {
  auth_log = codes "auth";
  fail2ban_log = codes "f2b";
  tail_bytes = pos 0;
  max_events = pos 0;
  cache_ttl = pos 0;
}

abbrev disk : Text → FileRead
disk path =
    if text_eq path (codes "auth")
    then FileRead.file_bytes (failed_line ++ (10 ∷ []) ++ accepted_line)
    else FileRead.file_error FileError.not_exist

page_counts : (build config times disk 90000000000000).total_failures ≡ 1
unfolding program
page_counts = refl
