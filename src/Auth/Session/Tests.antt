-- ===== src/Auth/Session/Tests.antt =====
-- Tokens of one admin, and their theorems at them. The signature is a tag in front of the text
-- without its dots, and base64 leaves a text alone.
use orxies.Prelude.{
  ◌≡◌, refl, false, [], ◌∷◌, ◌++◌, Option, some, Text, text_key, codes, has_byte, arith, lookup,
  insert, ◌==◌, if◌then◌else◌,
}
use orxies.Prelude.Decimal.{print_digits, print_int, parse_digits, parse_int}
use orxies.Auth.Session.{
  Manager, AdminRec, dot, session_payload, issue_cookie, issue_pending, authenticated,
  verify_pending, required, new_manager, load_admins,
}
use orxies.Auth.Session.Tokens.{
  Genuine, authenticated-issue_cookie, authenticated-issue_pending, authenticated-Genuine,
}

program : Unit {0}
unfolding print_digits print_int parse_digits parse_int session_payload issue_cookie issue_pending
    authenticated verify_pending required new_manager load_admins lookup insert
program = tt

abbrev without_dots : Text → Text
without_dots [] = []
without_dots (c ∷ s) = let rest = without_dots s in if c == dot then rest else c ∷ rest

abbrev sign : Text → Text → Text
sign key payload = without_dots (key ++ payload)

abbrev encode : Text → Text
encode s = s

abbrev decode : Text → Option Text
decode s = some s

without_dots-has_byte : (s : Text) → has_byte (without_dots s) dot ≡ false
without_dots-has_byte [] = refl
without_dots-has_byte (c ∷ s) = ground (arith, without_dots-has_byte s)

abbrev ada : AdminRec
ada = record { hash = codes "h"; totp = [] }

abbrev manager : Manager
manager = record { admins = (codes "ada", ada) ∷ []; secret = codes "key"; secure_cookies = false }

made :
    new_manager
      (record { username = codes "Ada"; password_hash = codes "h"; totp_secret = codes " " } ∷ [])
      (codes "key")
      false
    ≡ some manager
unfolding program
made = refl

session_kept :
    authenticated sign encode decode manager 1100
      (some (issue_cookie sign encode decode manager 1000 (codes "Ada")))
    ≡ codes "ada"
unfolding program
session_kept = refl

abbrev value : Text
value = codes "ada.5000." ++ sign (codes "key") (codes "ada.5000")

accepted : authenticated sign encode decode manager 1100 (some value) ≡ codes "ada"
unfolding program
accepted = refl

authenticated-issue_cookie_example :
    authenticated sign encode decode manager 1100
      (some (issue_cookie sign encode decode manager 1000 (codes "Ada")))
    ≡ codes "ada"
unfolding lookup
authenticated-issue_cookie_example =
    authenticated-issue_cookie sign encode decode (λ s. refl) manager 1000 1100 (codes "Ada") ada
      refl refl (omega arith) (omega arith)

authenticated-issue_pending_example :
    authenticated sign encode decode manager 1100
      (some (issue_pending sign encode decode manager 1000 (codes "ada")))
    ≡ []
authenticated-issue_pending_example =
    authenticated-issue_pending sign encode decode (λ s. refl) manager 1000 1100 (codes "ada")
      (λ key payload. without_dots-has_byte (key ++ payload))

authenticated-Genuine_example :
    Genuine sign encode decode (λ s. refl) manager 1100 (some value) (codes "ada")
authenticated-Genuine_example =
    authenticated-Genuine sign encode decode (λ s. refl) manager 1100 value (codes "ada") refl
      accepted
