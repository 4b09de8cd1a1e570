-- ===== src/Webhook.antt =====
-- internal/webhook/webhook.go: deploy on push. The table of projects is that of
-- Store/Projects, of which the handler reads the secret. HMAC-SHA256 in hex is a
-- parameter. The answer is a status, and `triggered` the project that is deployed.
pub mod Triggers
mod Tests
use orxies.Prelude.{
  ℕ, ◌*◌, ◌^◌, Bool, true, false, ◌&&◌, ◌||◌, not, List, [], ◌∷◌, ◌++◌, Option, none, some, length,
  if◌then◌else◌, Text, text_eq, nat_key, codes, is_empty, has_prefix, lookup, take, drop,
}
use orxies.Prelude.Int.{ℤ, pos, negsuc}
use orxies.Prelude.Decimal.{parse_int}
use orxies.Store.Projects.{Project, ProjectTable, find_project, get_project}

abbrev pub path_prefix : Text
path_prefix = codes "/_orxies/deploy/"

-- 5 MB, of which a longer body is cut off.
abbrev pub body_limit : ℕ
body_limit = 5 * 2 ^ 20

-- `body` is `none` where reading it fails.
pub record Hook : Type 0 where
  pub path : Text
  pub is_post : Bool
  pub body : Option Text
  pub signature : Text
  pub event : Text

pub data HookReply : Type 0 where
  next_handler : HookReply
  method_not_allowed : HookReply
  not_found : HookReply
  read_error : HookReply
  invalid_signature : HookReply
  ignored : Text → HookReply
  triggered : ℕ → HookReply

abbrev pub signature_prefix : Text
signature_prefix = codes "sha256="

-- `strings.TrimPrefix` of a prefix that is there.
abbrev pub after_prefix : Text → Text → Text
after_prefix s p = drop (length p) s

-- An event that is named and is no push is acknowledged only.
abbrev pub is_other_event : Text → Bool
is_other_event event = not (is_empty event) && not (text_eq event (codes "push"))

module _ (hmac_hex : Text → Text → Text) where
  unfoldable pub valid_signature : Text → Text → Text → Bool
  valid_signature secret body header =
      if not (has_prefix header signature_prefix)
      then false
      else text_eq (hmac_hex secret body) (after_prefix header signature_prefix)

  abbrev pub rejects : Project → Text → Text → Bool
  rejects p body header =
      is_empty p.webhook_secret || not (valid_signature p.webhook_secret body header)

  abbrev pub with_body : Hook → ℕ → Project → Option Text → HookReply
  with_body h id p none = HookReply.read_error
  with_body h id p (some body) =
      if rejects p (take body_limit body) h.signature
      then HookReply.invalid_signature
      else if is_other_event h.event
      then HookReply.ignored h.event
      else HookReply.triggered id

  abbrev pub with_project : Hook → ℕ → Option Project → HookReply
  with_project h id none = HookReply.not_found
  with_project h id (some p) = with_body h id p h.body

  -- Keys that SQLite hands out are positive.
  abbrev pub with_id : ProjectTable → Hook → Option ℤ → HookReply
  with_id t h none = HookReply.not_found
  with_id t h (some (negsuc n)) = HookReply.not_found
  with_id t h (some (pos n)) = with_project h n (get_project t n)

  unfoldable pub serve_hook : ProjectTable → Hook → HookReply
  unfolding find_project
  serve_hook t h =
      if not (has_prefix h.path path_prefix)
      then HookReply.next_handler
      else if not h.is_post
      then HookReply.method_not_allowed
      else with_id t h (parse_int (after_prefix h.path path_prefix))
