-- ===== src/Auth/Csrf.antt =====
-- internal/auth/auth.go: the signed token of a form that changes something.
-- The signature is a parameter. `fresh` is the random text that a new token is made of.
pub mod Forms
mod Tests
use orxies.Prelude.{
  ℕ, Bool, true, false, ◌&&◌, ◌||◌, not, List, [], ◌∷◌, ◌++◌, Option, none, some, if◌then◌else◌,
  Text, text_eq, codes, is_empty, cut_last,
}
use orxies.Auth.Session.{Manager, dot}

module _ (sign : Text → Text → Text) where
  abbrev csrf_payload : Text → Text
  csrf_payload raw = codes "csrf:" ++ raw

  unfoldable pub new_csrf : Manager → Text → Text
  new_csrf m fresh = fresh ++ (dot ∷ sign m.secret (csrf_payload fresh))

  -- The text before the last dot, which must not be the first byte, and the signature after it.
  abbrev valid_parts : Manager → Option (Text × Text) → Bool
  valid_parts m none = false
  valid_parts m (some (raw, sig)) =
      not (is_empty raw) && text_eq sig (sign m.secret (csrf_payload raw))

  unfoldable pub valid_csrf : Manager → Text → Bool
  valid_csrf m v = valid_parts m (cut_last v dot)

  -- The token of the page, and whether it is set as a new cookie.
  unfoldable pub ensure_csrf : Manager → Text → Option Text → Text × Bool
  unfolding valid_csrf new_csrf
  ensure_csrf m fresh none = (new_csrf m fresh, true)
  ensure_csrf m fresh (some cookie) =
      if valid_csrf m cookie then (cookie, false) else (new_csrf m fresh, true)

  unfoldable pub check_csrf : Manager → Option Text → Text → Bool
  unfolding valid_csrf
  check_csrf m none field = false
  check_csrf m (some cookie) field =
      if not (valid_csrf m cookie)
      then false
      else if is_empty field || not (valid_csrf m field)
      then false
      else text_eq cookie field
