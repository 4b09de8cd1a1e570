-- ===== src/Secmon/Fail2ban.antt =====
-- internal/secmon/fail2ban.go: the actions of fail2ban.
use orxies.Prelude.{
  ℕ, suc, ◌-◌, Bool, false, ◌&&◌, ◌||◌, not, List, [], ◌∷◌, Option, none, some, leb, ltb, ◌==◌,
  if◌then◌else◌, length, take, drop, Text, codes, is_empty, contains, split, every,
}
use orxies.Secmon.{Kind, Event, fields, read_tail}
use orxies.Secmon.Authlog.{TimeParsers, is_digit, parse_space_date_time}

pub record Shape : Type 0 where
  pub digits : ℕ
  pub dots : ℕ
  pub colons : ℕ

abbrev pub is_hex_letter : ℕ → Bool
is_hex_letter c = (leb 97 c && leb c 102) || (leb 65 c && leb c 70)

-- The loop of `looksLikeIP`, `none` at a byte that no address has.
unfoldable pub shape_from : Text → Shape → Option Shape
shape_from [] n = some n
shape_from (c ∷ s) n =
    let digit = shape_from s (record n { digits = suc n.digits }) in
    let dot = shape_from s (record n { dots = suc n.dots }) in
    let colon = shape_from s (record n { colons = suc n.colons }) in
    let letter = shape_from s n in
    if is_digit c
    then digit
    else if c == 46
    then dot
    else if c == 58
    then colon
    else if is_hex_letter c
    then letter
    else none

abbrev pub is_address : Option Shape → Bool
is_address none = false
is_address (some n) = leb 2 n.colons || (n.dots == 3 && leb 4 n.digits)

unfoldable pub looks_like_ip : Text → Bool
unfolding shape_from
looks_like_ip s = is_address (shape_from s (record { digits = 0; dots = 0; colons = 0 }))

abbrev pub all_digits : Text → Bool
all_digits s = not (is_empty s) && every is_digit s

abbrev pub last_byte : Text → ℕ
last_byte [] = 0
last_byte (c ∷ []) = c
last_byte (c ∷ d ∷ s) = last_byte (d ∷ s)

abbrev pub first_byte : Text → ℕ
first_byte [] = 0
first_byte (c ∷ s) = c

abbrev pub is_bracketed : Text → Bool
is_bracketed tok = ltb 2 (length tok) && first_byte tok == 91 && last_byte tok == 93

abbrev pub inner : Text → Text
inner tok = take (length tok - 2) (drop 1 tok)

-- The last bracketed token that is not all digits.
unfoldable pub jail_from : List Text → Text → Text
jail_from [] jail = jail
jail_from (tok ∷ toks) jail =
    jail_from toks (if is_bracketed tok && not (all_digits (inner tok)) then inner tok else jail)

abbrev pub action_of : Text → Option Kind
action_of line =
    if contains line (codes " Ban ")
    then some Kind.ban
    else if contains line (codes " Unban ")
    then some Kind.unban
    else if contains line (codes " Restore Ban ")
    then some Kind.ban
    else none

abbrev pub last_field : List Text → Option Text
last_field [] = none
last_field (f ∷ []) = some f
last_field (f ∷ g ∷ fs) = last_field (g ∷ fs)

abbrev pub time_of : TimeParsers → Text → ℕ
time_of times line = elim (parse_space_date_time times line) [ none ↦ 0 | some (t, rest) ↦ t ]

abbrev pub action_event : ℕ → Kind → List Text → Option Text → Option Event
action_event t kind toks none = none
action_event t kind toks (some ip) =
    if looks_like_ip ip
    then some
        (record { time = t; kind = kind; user = []; ip = ip; port = []; jail = jail_from toks [] })
    else none

unfoldable pub parse_fail2ban_line : TimeParsers → Text → Option Event
unfolding looks_like_ip jail_from
parse_fail2ban_line times line = if is_empty line then none else elim (action_of line) [
  | none ↦ none
  | some kind ↦ action_event (time_of times line) kind (fields line) (last_field (fields line))
]

unfoldable pub parse_fail2ban_lines : TimeParsers → List Text → List Event
unfolding parse_fail2ban_line
parse_fail2ban_lines times [] = []
parse_fail2ban_lines times (line ∷ lines) =
    let rest = parse_fail2ban_lines times lines in
    elim (parse_fail2ban_line times line) [ none ↦ rest | some e ↦ e ∷ rest ]

-- `parseFail2banLog` on the bytes of the file.
unfoldable pub parse_fail2ban_log : TimeParsers → Text → ℕ → List Event
unfolding parse_fail2ban_lines read_tail
parse_fail2ban_log times b tail = parse_fail2ban_lines times (split (read_tail b tail) 10)
