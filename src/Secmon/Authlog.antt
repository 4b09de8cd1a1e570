-- ===== src/Secmon/Authlog.antt =====
-- internal/secmon/authlog.go: the lines of sshd. The parsers of `time` are parameters: `rfc3339`,
-- `local` for date and time of the local zone, `syslog` for a stamp without a year, dated by the
-- current year, and `year_back`.
use orxies.Prelude.{
  ℕ, zero, suc, ◌+◌, Bool, false, ◌&&◌, ◌||◌, List, [], ◌∷◌, ◌++◌, Option, none, some, leb, ltb,
  ◌==◌, if◌then◌else◌, length, take, Text, text_eq, codes, is_empty, has_prefix, contains, split,
  cut, join,
}
use orxies.Secmon.{Kind, Event, fields, not_empty, after_index, read_tail}

pub record TimeParsers : Type 0 where
  pub rfc3339 : Text → Option ℕ
  pub local : Text → Option ℕ
  pub syslog : Text → Option ℕ
  pub year_back : ℕ → ℕ

abbrev pub space : ℕ
space = 32

abbrev pub day : ℕ
day = 86400000000000

abbrev pub is_digit : ℕ → Bool
is_digit c = leb 48 c && leb c 57

abbrev pub starts_with_digit : Text → Bool
starts_with_digit [] = false
starts_with_digit (c ∷ s) = is_digit c

abbrev pub trim_non_digits : Text → Text
trim_non_digits [] = []
trim_non_digits (c ∷ s) = let rest = trim_non_digits s in if is_digit c then c ∷ rest else []

abbrev pub skip_spaces : Text → Text
skip_spaces [] = []
skip_spaces (c ∷ s) = let rest = skip_spaces s in if c == space then rest else c ∷ s

abbrev pub skip_field : Text → Text
skip_field [] = []
skip_field (c ∷ s) = let rest = skip_field s in if c == space then c ∷ s else rest

-- `nthFieldOffset`, as what stands at the offset; `none` for -1.
abbrev pub after_fields : ℕ → Text → Option Text
after_fields zero s = none
after_fields (suc zero) s =
    if is_empty (skip_spaces s) then none else some (skip_spaces (skip_field (skip_spaces s)))
after_fields (suc (suc n)) s =
    let rest = after_fields (suc n) (skip_field (skip_spaces s)) in
    if is_empty (skip_spaces s) then none else rest

-- The parts of `strings.SplitN` by a space, for 3 and for 4 parts.
abbrev pub split_3 : Text → Option (Text × Text × Text)
split_3 s = elim (cut s space) [
  | none ↦ none
  | some (a, r) ↦ elim (cut r space) [ none ↦ none | some (b, c) ↦ some (a, b, c) ]
]

abbrev pub fourth_part : Text → Option Text
fourth_part s = elim (split_3 s) [
  | none ↦ none
  | some (a, b, c) ↦ elim (cut c space) [ none ↦ none | some (d, e) ↦ some e ]
]

abbrev pub before_comma : Text → Text
before_comma s = elim (cut s 44) [ none ↦ s | some (a, b) ↦ a ]

abbrev pub parse_space_date_time : TimeParsers → Text → Option (ℕ × Text)
parse_space_date_time times line = elim (split_3 line) [
  | none ↦ none
  | some (date, clock, rest) ↦ elim (times.local (date ++ (space ∷ before_comma clock))) [
    | none ↦ none
    | some t ↦ some (t, rest)
  ]
]

-- A stamp in front that starts with a digit.
abbrev pub digit_stamp : TimeParsers → Text → Text × Text → ℕ × Text
digit_stamp times line (stamp, rest) = elim (times.rfc3339 stamp) [
  | some t ↦ (t, rest)
  | none ↦ elim (parse_space_date_time times line) [ some r ↦ r | none ↦ (0, rest) ]
]

abbrev pub undated : Text → ℕ × Text
undated line = elim (fourth_part line) [ none ↦ (0, line) | some rest ↦ (0, rest) ]

abbrev pub rest_of : Text → Text
rest_of line = elim (after_fields 3 line) [ none ↦ line | some rest ↦ rest ]

-- A stamp of the future is one of last year.
abbrev pub past : TimeParsers → ℕ → ℕ → ℕ
past times now t = if ltb (now + day) t then times.year_back t else t

abbrev pub syslog_stamp : TimeParsers → Text → ℕ → List Text → ℕ × Text
syslog_stamp times line now parts =
    if length parts == 3
    then elim (times.syslog (join parts space)) [
      | some t ↦ (past times now t, rest_of line)
      | none ↦ undated line
    ]
    else undated line

abbrev pub first_parts : Text → List Text
first_parts line = take 3 (not_empty (split line space))

abbrev pub split_timestamp : TimeParsers → Text → ℕ → ℕ × Text
split_timestamp times line now =
    let syslog = syslog_stamp times line now (first_parts line) in
    if starts_with_digit line
    then elim (cut line space) [ none ↦ syslog | some parts ↦ digit_stamp times line parts ]
    else syslog

pub record Principals : Type 0 where
  pub user : Text
  pub ip : Text
  pub port : Text

abbrev pub next_or : List Text → Text → Text
next_or [] old = old
next_or (tok ∷ toks) old = tok

abbrev pub digits_or : List Text → Text → Text
digits_or [] old = old
digits_or (tok ∷ toks) old = trim_non_digits tok

abbrev pub user_or : Option Text → Text → Text
user_or none old = old
user_or (some cand) old =
    if text_eq cand (codes "user") || text_eq cand (codes "for") then old else cand

-- The loop over the tokens, with the token before.
unfoldable pub principals_from : Option Text → List Text → Principals → Principals
principals_from before [] p = p
principals_from before (tok ∷ toks) p = principals_from (some tok) toks (
    if text_eq tok (codes "from")
    then record p { ip = next_or toks p.ip; user = user_or before p.user }
    else if text_eq tok (codes "port")
    then record p { port = digits_or toks p.port }
    else p)

unfoldable pub extract_principals : Text → Principals
unfolding principals_from
extract_principals msg =
    principals_from none (fields msg) (record { user = []; ip = []; port = [] })

abbrev pub kind_of : Text → Option Kind
kind_of rest =
    if has_prefix rest (codes "Failed password")
    then some Kind.failed_password
    else if has_prefix rest (codes "Invalid user")
    then some Kind.invalid_user
    else if has_prefix rest (codes "Accepted password")
    then some Kind.accepted_password
    else if has_prefix rest (codes "Accepted publickey")
    then some Kind.accepted_key
    else if contains rest (codes "maximum authentication attempts exceeded")
    then some Kind.max_auth_tries
    else none

abbrev pub message : Text → Text
message rest = elim (after_index rest (codes "]: ")) [ none ↦ rest | some m ↦ m ]

abbrev pub event_of : ℕ → Kind → Principals → Option Event
event_of t kind p =
    if is_empty p.ip
    then none
    else some (record { time = t; kind = kind; user = p.user; ip = p.ip; port = p.port; jail = [] })

abbrev pub event_in : ℕ → Text → Option Event
event_in t msg = elim (kind_of msg) [
  | none ↦ none
  | some kind ↦ event_of t kind (extract_principals msg)
]

-- `none` where the line is no outcome that is tracked.
unfoldable pub parse_auth_line : TimeParsers → Text → ℕ → Option Event
unfolding extract_principals
parse_auth_line times line now =
    let (t, rest) = split_timestamp times line now in
    let found = event_in t (message rest) in
    if is_empty line then none else if contains line (codes "sshd") then found else none

unfoldable pub parse_auth_lines : TimeParsers → ℕ → List Text → List Event
unfolding parse_auth_line
parse_auth_lines times now [] = []
parse_auth_lines times now (line ∷ lines) =
    let rest = parse_auth_lines times now lines in
    elim (parse_auth_line times line now) [ none ↦ rest | some e ↦ e ∷ rest ]

-- `parseAuthLog` on the bytes of the file.
unfoldable pub parse_auth_log : TimeParsers → ℕ → Text → ℕ → List Event
unfolding parse_auth_lines read_tail
parse_auth_log times now b tail = parse_auth_lines times now (split (read_tail b tail) 10)
