-- ===== src/Audit.antt =====
-- internal/audit/audit.go: the log of the actions of admins, one JSON object to a line. `Logger` is
-- the text of the file; a write that fails is not modelled. JSON and net.SplitHostPort are
-- parameters.
pub mod Tails
pub mod Tests
use orxies.Prelude.{
  ℕ, zero, suc, List, [], ◌∷◌, ◌++◌, Option, none, some, if◌then◌else◌, Text, is_empty, trim_space,
  split,
}

pub record Record : Type 0 where
  pub time : Text
  pub user : Text
  pub ip : Text
  pub action : Text
  pub target : Text
  pub result : Text

-- `json.Marshal` and `json.Unmarshal` at a Record, and the host of `net.SplitHostPort`.
pub record Codec : Type 0 where
  pub marshal : Record → Option Text
  pub unmarshal : Text → Option Record
  pub split_host : Text → Option Text

abbrev pub Logger : Type 0
Logger = Text

abbrev pub newline : ℕ
newline = 10

-- `clientIP`, from the RemoteAddr of the request, where there is one.
abbrev pub host_or : Text → Option Text → Text
host_or remote_addr none = remote_addr
host_or remote_addr (some host) = host

unfoldable pub audit_ip : Codec → Option Text → Text
audit_ip c none = []
audit_ip c (some remote_addr) = host_or remote_addr (c.split_host remote_addr)

abbrev pub append_line : Logger → Option Text → Logger
append_line f none = f
append_line f (some line) = f ++ (line ++ (newline ∷ []))

-- `Log` at a record.
unfoldable pub write_record : Codec → Logger → Record → Logger
write_record c f rec = append_line f (c.marshal rec)

-- `Log`. A nil Logger writes nothing.
unfoldable pub log :
    Codec → Option Logger → Text → Option Text → Text → Text → Text → Text → Option Logger
unfolding audit_ip write_record
log c none now r user action target result = none
log c (some f) now r user action target result = some (
    write_record c f (record {
      time = now;
      user = user;
      ip = audit_ip c r;
      action = action;
      target = target;
      result = result;
    }))

abbrev pub decoded : List Record → List Record → Option Record → List Record
decoded more skipped none = skipped
decoded more skipped (some rec) = rec ∷ more

-- The loop of `Tail`, over the lines from the last one on.
unfoldable pub tail_lines : Codec → ℕ → List Text → List Record
tail_lines c n [] = []
tail_lines c zero (line ∷ lines) = []
tail_lines c (suc n) (line ∷ lines) =
    let more = tail_lines c n lines in
    let skipped = tail_lines c (suc n) lines in
    if is_empty (trim_space line)
    then skipped
    else decoded more skipped (c.unmarshal (trim_space line))

abbrev pub reverse : {A : Type 0} → List A → List A
reverse [] = []
reverse (x ∷ xs) = reverse xs ++ (x ∷ [])

unfoldable pub tail : Codec → Logger → ℕ → List Record
unfolding tail_lines
tail c f n = tail_lines c n (reverse (split f newline))
