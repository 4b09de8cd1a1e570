-- ===== src/Secmon.antt =====
-- internal/secmon: the security monitor. Its data and the tail of a log file that it reads.
-- Times are nanoseconds, 0 for the zero time.
pub mod Authlog
pub mod Fail2ban
pub mod Counts
pub mod Hijacks
pub mod Views
pub mod Build
mod Tests
use orxies.Prelude.{
  ℕ, zero, suc, ◌+◌, ◌-◌, ◌*◌, ◌^◌, Bool, true, false, List, [], ◌∷◌, ◌++◌, Option, none, some, ltb,
  ◌==◌, if◌then◌else◌, length, drop, Text, has_prefix, is_space, is_empty,
}

pub data Kind : Type 0 where
  failed_password invalid_user accepted_password accepted_key : Kind
  max_auth_tries ban unban : Kind

pub record Event : Type 0 where
  pub time : ℕ
  pub kind : Kind
  pub user : Text
  pub ip : Text
  pub port : Text
  pub jail : Text

pub record IpStat : Type 0 where
  pub ip : Text
  pub failures : ℕ
  pub invalid_users : ℕ
  pub successes : ℕ
  pub first : ℕ
  pub last : ℕ
  pub banned : Bool
  pub bans : ℕ

abbrev pub total : IpStat → ℕ
total s = s.failures + s.invalid_users + s.successes

pub record UserStat : Type 0 where
  pub user : Text
  pub count : ℕ

pub record Hijack : Type 0 where
  pub ip : Text
  pub user : Text
  pub kind : Kind
  pub count : ℕ
  pub first : ℕ
  pub last : ℕ
  pub reason : Text
  pub severity : Text
  pub prior_failures : ℕ

-- A time is taken into a first and a last one; the zero time is not.
abbrev pub earlier : ℕ → ℕ → ℕ
earlier first t =
    if t == 0 then first else if first == 0 then t else if ltb t first then t else first

abbrev pub later : ℕ → ℕ → ℕ
later last t = if t == 0 then last else if ltb last t then t else last

-- `strings.Fields`, on ASCII.
abbrev pub onto_field : ℕ → List Text → List Text
onto_field a [] = (a ∷ []) ∷ []
onto_field a (f ∷ fs) = (a ∷ f) ∷ fs

abbrev pub runs : Text → List Text
runs [] = [] ∷ []
runs (a ∷ s) = let rest = runs s in if is_space a then [] ∷ rest else onto_field a rest

abbrev pub not_empty : List Text → List Text
not_empty [] = []
not_empty (f ∷ fs) = let rest = not_empty fs in if is_empty f then rest else f ∷ rest

abbrev pub fields : Text → List Text
fields s = not_empty (runs s)

-- What follows the first occurrence of `sub`, by `strings.Index`.
abbrev pub after_index : Text → Text → Option Text
after_index [] sub = if is_empty sub then some [] else none
after_index (a ∷ s) sub =
    let rest = after_index s sub in
    if has_prefix (a ∷ s) sub then some (drop (length sub) (a ∷ s)) else rest

-- What follows the first line, or all of it where no line ends.
abbrev pub newline : Text
newline = 10 ∷ []

abbrev pub without_first_line : Text → Text
without_first_line b = elim (after_index b newline) [ none ↦ b | some rest ↦ rest ]

-- `readTail` on the bytes of a file.
unfoldable pub read_tail : Text → ℕ → Text
read_tail b max = if ltb max (length b) then without_first_line (drop (length b - max) b) else b
