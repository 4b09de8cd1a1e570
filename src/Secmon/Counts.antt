-- ===== src/Secmon/Counts.antt =====
-- internal/secmon/secmon.go: the counts by address and by user, in `build`.
-- A map is an association list; its order is that of the first entries, which the sorted lists do
-- not show, as addresses and users stand once in them.
pub mod Sums
pub mod Tops
use orxies.Prelude.{
  ℕ, suc, ◌+◌, Bool, true, false, ◌||◌, List, [], ◌∷◌, ◌++◌, Option, none, some, ltb, ◌==◌,
  if◌then◌else◌, take, Text, text_key, is_empty, lookup, insert, text_ltb, sort_by,
}
use orxies.Secmon.{Kind, Event, IpStat, UserStat, total, earlier, later}

abbrev pub fresh_stat : Text → ℕ → IpStat
fresh_stat ip t = record {
  ip = ip;
  failures = 0;
  invalid_users = 0;
  successes = 0;
  first = t;
  last = t;
  banned = false;
  bans = 0;
}

abbrev pub stat_or : Text → ℕ → Option IpStat → IpStat
stat_or ip t none = fresh_stat ip t
stat_or ip t (some st) = st

-- `touch`: the entry of an address, with its times. The caller changes it and puts it back.
unfoldable pub touch : List (Text × IpStat) → Text → ℕ → IpStat
unfolding lookup
touch stats ip t =
    let st = stat_or ip t (lookup ip stats) in
    record st { first = earlier st.first t; last = later st.last t }

pub record Counts : Type 0 where
  pub stats : List (Text × IpStat)
  pub users : List (Text × ℕ)
  pub total_failures : ℕ
  pub total_invalid_users : ℕ
  pub total_successes : ℕ
  pub successes : List Event

abbrev pub no_counts : Counts
no_counts = record {
  stats = [];
  users = [];
  total_failures = 0;
  total_invalid_users = 0;
  total_successes = 0;
  successes = [];
}

abbrev pub count_or : Option ℕ → ℕ
count_or none = 0
count_or (some n) = n

unfoldable pub count_user : List (Text × ℕ) → Text → List (Text × ℕ)
unfolding lookup insert
count_user users user =
    if is_empty user then users else insert user (suc (count_or (lookup user users))) users

abbrev pub failure : Counts → Event → IpStat → Counts
failure c e st = record c {
  stats = insert e.ip (record st { failures = suc st.failures }) c.stats;
  users = count_user c.users e.user;
  total_failures = suc c.total_failures;
}

abbrev pub invalid : Counts → Event → IpStat → Counts
invalid c e st = record c {
  stats = insert e.ip (record st { invalid_users = suc st.invalid_users }) c.stats;
  users = count_user c.users e.user;
  total_invalid_users = suc c.total_invalid_users;
}

abbrev pub success : Counts → Event → IpStat → Counts
success c e st = record c {
  stats = insert e.ip (record st { successes = suc st.successes }) c.stats;
  total_successes = suc c.total_successes;
  successes = c.successes ++ (e ∷ []);
}

abbrev pub other : Counts → Event → IpStat → Counts
other c e st = record c { stats = insert e.ip st c.stats }

-- An event of an address, by its kind.
abbrev pub counted_as : Counts → Event → IpStat → Kind → Counts
counted_as c e st Kind.failed_password = failure c e st
counted_as c e st Kind.max_auth_tries = failure c e st
counted_as c e st Kind.invalid_user = invalid c e st
counted_as c e st Kind.accepted_password = success c e st
counted_as c e st Kind.accepted_key = success c e st
counted_as c e st Kind.ban = other c e st
counted_as c e st Kind.unban = other c e st

unfoldable pub count_event : Counts → Event → Counts
unfolding touch insert count_user
count_event c e = if is_empty e.ip then c else counted_as c e (touch c.stats e.ip e.time) e.kind

unfoldable pub count_events : Counts → List Event → Counts
unfolding count_event
count_events c [] = c
count_events c (e ∷ es) = count_events (count_event c e) es

pub record BanCounts : Type 0 where
  pub stats : List (Text × IpStat)
  pub bans_total : ℕ
  pub recent_bans : List Event
  pub last_action : List (Text × Kind)

abbrev pub is_ban : Kind → Bool
is_ban Kind.ban = true
is_ban _ = false

abbrev pub act : BanCounts → Event → IpStat → BanCounts
act c e st = record {
  stats = insert e.ip (record st { bans = if is_ban e.kind then suc st.bans else st.bans }) c.stats;
  bans_total = if is_ban e.kind then suc c.bans_total else c.bans_total;
  recent_bans = if is_ban e.kind then c.recent_bans ++ (e ∷ []) else c.recent_bans;
  last_action = insert e.ip e.kind c.last_action;
}

unfoldable pub count_bans : BanCounts → List Event → BanCounts
unfolding touch insert
count_bans c [] = c
count_bans c (e ∷ es) =
    count_bans (if is_empty e.ip then c else act c e (touch c.stats e.ip e.time)) es

abbrev pub banned_stat : Text → List (Text × IpStat) → Option IpStat → List (Text × IpStat) × ℕ
banned_stat ip stats none = (stats, 0)
banned_stat ip stats (some st) = (insert ip (record st { banned = true }) stats, 1)

-- The addresses whose last action is a ban are marked, and counted.
unfoldable pub mark_banned :
    List (Text × Kind) → List (Text × IpStat) → ℕ → List (Text × IpStat) × ℕ
unfolding lookup insert
mark_banned [] stats active = (stats, active)
mark_banned ((ip, kind) ∷ actions) stats active =
    let (stats', more) = banned_stat ip stats (lookup ip stats) in
    if is_ban kind
    then mark_banned actions stats' (active + more)
    else mark_banned actions stats active

abbrev pub is_attacker : IpStat → Bool
is_attacker st = ltb 0 (st.failures + st.invalid_users)

abbrev pub attackers : List (Text × IpStat) → List IpStat
attackers [] = []
attackers ((ip, st) ∷ stats) =
    let rest = attackers stats in if is_attacker st then st ∷ rest else rest

abbrev pub attacker_less : IpStat → IpStat → Bool
attacker_less a b = if total a == total b then text_ltb a.ip b.ip else ltb (total b) (total a)

abbrev pub max_attackers : ℕ
max_attackers = 30

unfoldable pub top_attackers : List (Text × IpStat) → List IpStat
unfolding sort_by
top_attackers stats = take max_attackers (sort_by attacker_less (attackers stats))

abbrev pub user_stats : List (Text × ℕ) → List UserStat
user_stats [] = []
user_stats ((user, n) ∷ users) = record { user = user; count = n } ∷ user_stats users

abbrev pub user_less : UserStat → UserStat → Bool
user_less a b = if a.count == b.count then text_ltb a.user b.user else ltb b.count a.count

abbrev pub max_usernames : ℕ
max_usernames = 20

unfoldable pub top_usernames : List (Text × ℕ) → List UserStat
unfolding sort_by
top_usernames users = take max_usernames (sort_by user_less (user_stats users))
