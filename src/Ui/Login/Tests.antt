-- ===== src/Ui/Login/Tests.antt =====
-- A login with a password, and the theorems at it. The signature is a constant, base64 leaves a
-- text alone, and a password fits the hash that it equals.
use orxies.Prelude.{
  ◌≡◌, refl, Bool, true, false, [], ◌∷◌, Option, some, Text, text_key, text_eq, codes, lookup,
  insert, delete,
}
use orxies.Prelude.Decimal.{print_digits, print_int}
use orxies.Auth.Throttle.{new_throttle, blocked, blocked_at, reset}
use orxies.Auth.Session.{Manager, session_payload, issue_cookie}
use orxies.Auth.Csrf.{valid_csrf, check_csrf}
use orxies.Ui.Login.{
  LoginRequest, LoginOutcome, LoginClock, safe_next, verify_password, totp_enabled, handle_login,
  client_peer_ip,
}
use orxies.Ui.Login.Entry.{Proven, handle_login-Proven}

program : Unit {0}
unfolding print_digits print_int blocked blocked_at reset session_payload issue_cookie valid_csrf
    check_csrf safe_next verify_password totp_enabled handle_login lookup insert delete
program = tt

abbrev sign : Text → Text → Text
sign key payload = codes "sig"

abbrev encode : Text → Text
encode s = s

abbrev decode : Text → Option Text
decode s = some s

abbrev bcrypt_ok : Text → Text → Bool
bcrypt_ok hash password = text_eq hash password

abbrev hmac : Text → Text → Text
hmac key counter = counter

abbrev manager : Manager
manager = record {
  admins = (codes "ada", record { hash = codes "pw"; totp = [] }) ∷ [];
  secret = codes "key";
  secure_cookies = false;
}

abbrev form : LoginRequest
form = record {
  is_post = true;
  form_ok = true;
  next_query = [];
  next_form = codes "/sites";
  username = codes "ada";
  password = codes "pw";
  pending = [];
  otp = [];
  csrf_cookie = some (codes "abc.sig");
  csrf_field = codes "abc.sig";
  remote_addr = codes "1.2.3.4";
}

abbrev clock : LoginClock
clock = record { asked_at = 5; left_at = 5; failed_at = 5; unix = 1000 }

abbrev cookie : Text
cookie = codes "ada.87400.sig"

entered :
    (handle_login sign encode decode bcrypt_ok hmac decode decode manager new_throttle clock form).1
    ≡ LoginOutcome.signed_in (codes "ada") cookie (codes "/sites")
unfolding program
entered = refl

handle_login-Proven_example :
    (check_csrf sign manager form.csrf_cookie form.csrf_field ≡ true)
    × ((blocked new_throttle 5 5 (client_peer_ip decode (codes "1.2.3.4"))).0 ≡ false)
    × Proven sign encode decode bcrypt_ok hmac decode decode manager clock form (codes "ada")
handle_login-Proven_example =
    handle_login-Proven sign encode decode bcrypt_ok hmac decode decode manager new_throttle clock
      form (codes "ada") cookie (codes "/sites") entered
