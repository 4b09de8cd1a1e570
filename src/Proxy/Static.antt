-- ===== src/Proxy/Static.antt =====
-- internal/proxy/static.go: which paths a static site serves.
-- `path.Clean`, the file server and the file system are parameters.
pub mod Hidden
mod Tests
use orxies.Prelude.{
  ℕ, Bool, true, false, ◌&&◌, ◌||◌, not, List, [], ◌∷◌, ◌++◌, Option, none, some, ◌==◌, ltb,
  if◌then◌else◌, length, Text, codes, has_prefix, split, trim_suffix,
}

abbrev pub slash : ℕ
slash = 47

abbrev pub dot : ℕ
dot = 46

-- A segment that starts with a dot and has more than that.
abbrev pub is_hidden : Text → Bool
is_hidden [] = false
is_hidden (c ∷ seg) = ltb 1 (length (c ∷ seg)) && c == dot

abbrev pub any_hidden : List Text → Bool
any_hidden [] = false
any_hidden (seg ∷ segs) = is_hidden seg || any_hidden segs

unfoldable pub hidden_path : Text → Bool
hidden_path p = if has_prefix p (codes "/.well-known/") then false else any_hidden (split p slash)

-- What a static site answers: nothing found, a file that the file server serves, or the shell.
pub data StaticAnswer : Type 0 where
  not_found : StaticAnswer
  file_server : StaticAnswer
  app_shell : StaticAnswer

module _ (clean : Text → Text) (is_file : Text → Bool) where
  unfoldable pub static_answer : Bool → Text → StaticAnswer
  unfolding hidden_path
  static_answer spa url_path =
      if hidden_path (clean (slash ∷ url_path))
      then StaticAnswer.not_found
      else if not spa
      then StaticAnswer.file_server
      else if is_file (clean (slash ∷ url_path))
      then StaticAnswer.file_server
      else StaticAnswer.app_shell

-- `noListDir.Open`: the entry of a name is a file, a directory or missing.
pub data Entry : Type 0 where
  missing : Entry
  file : Entry
  directory : Entry

module _ (entry : Text → Entry) where
  abbrev exists : Entry → Bool
  exists Entry.missing = false
  exists Entry.file = true
  exists Entry.directory = true

  abbrev open_entry : Entry → Bool → Option Entry
  open_entry Entry.missing index = none
  open_entry Entry.file index = some Entry.file
  open_entry Entry.directory true = some Entry.directory
  open_entry Entry.directory false = none

  unfoldable pub open_file : Text → Option Entry
  open_file name =
      open_entry (entry name)
        (exists (entry (trim_suffix name (slash ∷ []) ++ codes "/index.html")))
