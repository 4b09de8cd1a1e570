-- ===== src/Auth/Totp/Tests.antt =====
-- A code of a toy second factor, and its theorem at it. The HMAC is the counter behind the key.
use orxies.Prelude.{
  ◌+◌, ◌-◌, ◌/◌, ◌≡◌, refl, true, false, ◌||◌, ◌++◌, Option, some, Text, codes, text_eq, trim_space,
  arith,
}
use orxies.Auth.Totp.{
  totp_period, normalize_b32, put_uint64, pad_digits, truncated, hotp, totp_at, match_any,
  verify_totp,
}
use orxies.Auth.Totp.Window.{verify_totp-hotp}

program : Unit {0}
unfolding normalize_b32 put_uint64 pad_digits truncated hotp totp_at match_any verify_totp
program = tt

abbrev hmac : Text → Text → Text
hmac key counter = counter ++ key ++ counter ++ codes "abcd"

abbrev decode : Text → Option Text
decode s = some s

normal : normalize_b32 (codes " ab-c d") ≡ codes "ABCD"
unfolding program
normal = refl

current_code : verify_totp hmac decode (codes "ab") (hotp hmac decode (codes "AB") 3) 100 ≡ true
unfolding program
current_code = refl

short_code : verify_totp hmac decode (codes "ab") (codes "12345") 100 ≡ false
unfolding program
short_code = refl

keyed : decode (normalize_b32 (codes "ab")) ≡ some (codes "AB")
unfolding program
keyed = refl

verify_totp-hotp_example : verify_totp hmac decode (codes "ab") (codes "123456") 100 ≡ (
    text_eq (hotp hmac decode (codes "AB") (100 / totp_period)) (trim_space (codes "123456"))
    || text_eq (hotp hmac decode (codes "AB") (100 / totp_period - 1)) (trim_space (codes "123456"))
    || text_eq
        (hotp hmac decode (codes "AB") (100 / totp_period + 1))
        (trim_space (codes "123456")))
verify_totp-hotp_example =
    verify_totp-hotp hmac decode (codes "ab") (codes "123456") (codes "AB") 100 (omega arith) keyed
