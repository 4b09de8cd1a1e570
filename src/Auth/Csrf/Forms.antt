-- ===== src/Auth/Csrf/Forms.antt =====
-- internal/auth/auth.go: a form that was rendered passes the check, and nothing unsigned does.
use orxies.Prelude.{
  ◌≡◌, refl, ap, ◌∙◌, Bool, true, false, [], ◌∷◌, ◌++◌, Option, none, some, Text, text_eq_refl,
  codes, is_empty, cut_last-append, has_byte, arith, Bool-cases, inl, inr,
}
use orxies.Auth.Session.{Manager, dot}
use orxies.Auth.Csrf.{new_csrf, valid_csrf, ensure_csrf, check_csrf}

module _ (sign : Text → Text → Text) where
  new_csrf-valid :
      (m : Manager) (fresh : Text)
      → is_empty fresh ≡ false
      → ((key payload : Text) → has_byte (sign key payload) dot ≡ false)
      → valid_csrf sign m (new_csrf sign m fresh) ≡ true
  unfolding valid_csrf new_csrf
  new_csrf-valid m fresh full no_dot =
      let sig = sign m.secret (codes "csrf:" ++ fresh) in
      rw
        (
          cut_last-append dot fresh sig (no_dot m.secret (codes "csrf:" ++ fresh)),
          full,
          text_eq_refl sig,
        )
        refl

  ensured_valid :
      (m : Manager) (fresh : Text) (cookie : Option Text)
      → is_empty fresh ≡ false
      → ((key payload : Text) → has_byte (sign key payload) dot ≡ false)
      → valid_csrf sign m (ensure_csrf sign m fresh cookie).0 ≡ true
  unfolding ensure_csrf
  ensured_valid m fresh none full no_dot = new_csrf-valid m fresh full no_dot
  ensured_valid m fresh (some v) full no_dot = elim (Bool-cases (valid_csrf sign m v)) [
    | inl good ↦ rw good good
    | inr bad ↦ rw bad (new_csrf-valid m fresh full no_dot)
  ]

  valid_csrf-full : (m : Manager) (v : Text) → valid_csrf sign m v ≡ true → is_empty v ≡ false
  unfolding valid_csrf
  valid_csrf-full m [] h = ground arith
  valid_csrf-full m (a ∷ v) h = refl

  check_own :
      (m : Manager) (v : Text) → valid_csrf sign m v ≡ true → check_csrf sign m (some v) v ≡ true
  unfolding check_csrf
  check_own m v h = rw (h, valid_csrf-full m v h, text_eq_refl v) refl

  -- The cookie that a browser has after the page, from the one that it had.
  abbrev pub kept : Option Text → Text × Bool → Option Text
  kept cookie (token, false) = cookie
  kept cookie (token, true) = some token

  ensured-kept :
      (m : Manager) (fresh : Text) (cookie : Option Text)
      → kept cookie (ensure_csrf sign m fresh cookie) ≡ some (ensure_csrf sign m fresh cookie).0
  unfolding ensure_csrf
  ensured-kept m fresh none = refl
  ensured-kept m fresh (some v) = elim (Bool-cases (valid_csrf sign m v)) [
    | inl good ↦ rw good refl
    | inr bad ↦ rw bad refl
  ]

  -- The token that a page is rendered with passes the check when the form comes back with the
  -- cookie that the browser then has, whether the page kept the cookie or set a new one, if the
  -- random text is not empty and no signature has a dot in it.
  pub check_csrf-ensure_csrf :
      (m : Manager) (fresh : Text) (cookie : Option Text)
      → is_empty fresh ≡ false
      → ((key payload : Text) → has_byte (sign key payload) dot ≡ false)
      → check_csrf sign m
          (kept cookie (ensure_csrf sign m fresh cookie))
          (ensure_csrf sign m fresh cookie).0
        ≡ true
  check_csrf-ensure_csrf m fresh cookie full no_dot =
      let token = (ensure_csrf sign m fresh cookie).0 in
      ap (λ c. check_csrf sign m c token) (ensured-kept m fresh cookie)
      ∙ check_own m token (ensured_valid m fresh cookie full no_dot)
