-- ===== src/Ui/Login.antt =====
-- internal/ui/ui.go: the login page, in its two stages, with the admins of internal/auth/auth.go.
-- The state that it changes is the throttle. A page is what it says, not its HTML. The signature,
-- base64, bcrypt, HMAC-SHA1, base32 and the splitting of an address are parameters.
pub mod Entry
mod Tests
use orxies.Prelude.{
  ℕ, Bool, true, false, ◌&&◌, ◌||◌, not, List, [], ◌∷◌, Option, none, some, if◌then◌else◌, Text,
  text_key, codes, is_empty, to_lower, has_prefix, lookup,
}
use orxies.Prelude.Int.{ℤ}
use orxies.Auth.Throttle.{Throttle, blocked, fail, reset}
use orxies.Auth.Session.{Manager, AdminRec, issue_cookie, issue_pending, verify_pending}
use orxies.Auth.Totp.{verify_totp}
use orxies.Auth.Csrf.{check_csrf}

unfoldable pub safe_next : Text → Text
safe_next next =
    if is_empty next || not (has_prefix next (codes "/"))
    then codes "/"
    else if has_prefix next (codes "//") || has_prefix next (codes "/\\")
    then codes "/"
    else next

pub record LoginRequest : Type 0 where
  pub is_post : Bool
  pub form_ok : Bool
  pub next_query : Text
  pub next_form : Text
  pub username : Text
  pub password : Text
  pub pending : Text
  pub otp : Text
  pub csrf_cookie : Option Text
  pub csrf_field : Text
  pub remote_addr : Text

-- The error that a page shows.
pub data LoginError : Type 0 where
  no_error : LoginError
  locked : ℤ → LoginError
  session_expired : LoginError
  invalid_code : LoginError
  invalid_password : LoginError

pub data LoginOutcome : Type 0 where
  password_page : LoginError → (next : Text) → LoginOutcome
  totp_page : LoginError → (next : Text) → (pending : Text) → LoginOutcome
  bad_form : LoginOutcome
  bad_csrf : LoginOutcome
  signed_in : (user : Text) → (cookie : Text) → (next : Text) → LoginOutcome

-- The clocks: nanoseconds for the throttle, read once to compare, once for the time that is left
-- and once at a failure, and Unix seconds.
pub record LoginClock : Type 0 where
  pub asked_at : ℕ
  pub left_at : ℕ
  pub failed_at : ℕ
  pub unix : ℕ

abbrev hash_ok : (Text → Text → Bool) → Text → Option AdminRec → Bool
hash_ok bcrypt_ok password none = false
hash_ok bcrypt_ok password (some rec) = bcrypt_ok rec.hash password

abbrev has_totp : Option AdminRec → Bool
has_totp none = false
has_totp (some rec) = not (is_empty rec.totp)

abbrev code_ok : (Text → Text → ℕ → Bool) → Text → ℕ → Option AdminRec → Bool
code_ok verify code unix none = false
code_ok verify code unix (some rec) = if is_empty rec.totp then false else verify rec.totp code unix

unfoldable pub verify_password : (Text → Text → Bool) → Manager → Text → Text → Bool
verify_password bcrypt_ok m username password =
    hash_ok bcrypt_ok password (lookup (to_lower username) m.admins)

unfoldable pub totp_enabled : Manager → Text → Bool
totp_enabled m username = has_totp (lookup (to_lower username) m.admins)

module _ (hmac_sha1 : Text → Text → Text) (decode_b32 : Text → Option Text) where
  -- `Manager.VerifyTOTP`.
  unfoldable pub verify_code : Manager → Text → Text → ℕ → Bool
  unfolding verify_totp
  verify_code m username code unix =
      code_ok (verify_totp hmac_sha1 decode_b32) code unix (lookup (to_lower username) m.admins)

abbrev pub client_peer_ip : (Text → Option Text) → Text → Text
client_peer_ip split_host remote_addr = elim (split_host remote_addr) [
  | none ↦ remote_addr
  | some host ↦ host
]

module _ (sign : Text → Text → Text) (encode : Text → Text) (decode : Text → Option Text)
    (bcrypt_ok : Text → Text → Bool) (hmac_sha1 : Text → Text → Text)
    (decode_b32 : Text → Option Text) (split_host : Text → Option Text) where
  abbrev pub admitted :
      Manager → Throttle → LoginClock → Text → Text → Text → Throttle × LoginOutcome
  admitted m t ck ip user next = (
    reset t ip,
    LoginOutcome.signed_in user (issue_cookie sign encode decode m ck.unix user) next,
  )

  -- Stage 2, with the user that the pending token names.
  abbrev pub second_stage :
      Manager
      → Throttle
      → LoginClock
      → LoginRequest
      → Text
      → Text
      → Option Text
      → Throttle × LoginOutcome
  second_stage m t ck req ip next none =
      (t, LoginOutcome.password_page LoginError.session_expired next)
  second_stage m t ck req ip next (some user) =
      if not (verify_code hmac_sha1 decode_b32 m user req.otp ck.unix)
      then (fail t ck.failed_at ip, LoginOutcome.totp_page LoginError.invalid_code next req.pending)
      else admitted m t ck ip user next

  abbrev pub first_stage :
      Manager → Throttle → LoginClock → LoginRequest → Text → Text → Throttle × LoginOutcome
  first_stage m t ck req ip next =
      if not (verify_password bcrypt_ok m req.username req.password)
      then (fail t ck.failed_at ip, LoginOutcome.password_page LoginError.invalid_password next)
      else if totp_enabled m req.username
      then (
        t,
        LoginOutcome.totp_page LoginError.no_error next
            (issue_pending sign encode decode m ck.unix req.username),
      )
      else admitted m t ck ip req.username next

  -- The post behind the check of its form.
  abbrev pub unless_blocked :
      Manager
      → Throttle
      → LoginClock
      → LoginRequest
      → Text
      → Text
      → Bool × ℤ
      → Throttle × LoginOutcome
  unless_blocked m t ck req ip next (true, retry) =
      (t, LoginOutcome.password_page (LoginError.locked retry) next)
  unless_blocked m t ck req ip next (false, retry) =
      if not (is_empty req.pending)
      then second_stage m t ck req ip next (verify_pending sign encode decode m ck.unix req.pending)
      else first_stage m t ck req ip next

  unfoldable pub handle_login :
      Manager → Throttle → LoginClock → LoginRequest → Throttle × LoginOutcome
  handle_login m t ck req =
      if not req.is_post
      then (t, LoginOutcome.password_page LoginError.no_error (safe_next req.next_query))
      else if not req.form_ok
      then (t, LoginOutcome.bad_form)
      else if not (check_csrf sign m req.csrf_cookie req.csrf_field)
      then (t, LoginOutcome.bad_csrf)
      else let ip = client_peer_ip split_host req.remote_addr in
        unless_blocked m t ck req ip (safe_next req.next_form) (blocked t ck.asked_at ck.left_at ip)
