-- ===== src/Auth/Csrf/Tests.antt =====
-- A form of one page, and its theorem at it.
use orxies.Prelude.{◌≡◌, refl, true, false, [], none, some, Text, codes}
use orxies.Auth.Session.{Manager}
use orxies.Auth.Csrf.{new_csrf, valid_csrf, ensure_csrf, check_csrf}
use orxies.Auth.Csrf.Forms.{kept, check_csrf-ensure_csrf}

program : Unit {0}
unfolding new_csrf valid_csrf ensure_csrf check_csrf
program = tt

abbrev sign : Text → Text → Text
sign key payload = codes "sig"

abbrev manager : Manager
manager = record { admins = []; secret = codes "key"; secure_cookies = false }

unsigned : check_csrf sign manager (some (codes "abc.other")) (codes "abc.other") ≡ false
unfolding program
unsigned = refl

check_csrf-ensure_csrf_example :
    check_csrf sign manager
      (kept sign none (ensure_csrf sign manager (codes "abc") none))
      (ensure_csrf sign manager (codes "abc") none).0
    ≡ true
check_csrf-ensure_csrf_example =
    check_csrf-ensure_csrf sign manager (codes "abc") none refl (λ key payload. refl)
