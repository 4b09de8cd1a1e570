-- ===== src/Auth/Session.antt =====
-- internal/auth/auth.go: the tokens by which an admin is known.
-- The signature (HMAC-SHA256 under the secret, in base64) and the base64 of the whole are
-- parameters, and so is bcrypt: `bcrypt_ok` says whether a password fits a hash. Times are Unix
-- seconds. A cookie is its value, and `none` where the request has none.
pub mod Tokens
mod Tests
use orxies.Prelude.{
  ℕ, ◌+◌, Bool, true, false, ◌&&◌, ◌||◌, not, List, [], ◌∷◌, ◌++◌, Option, none, some,
  if◌then◌else◌, Text, text_eq, text_key, codes, is_empty, to_lower, trim_space, cut, cut_last,
  lookup, insert,
}
use orxies.Prelude.Int.{ℤ, pos, ltb_ℤ}
use orxies.Prelude.Decimal.{print_int, parse_int}

pub record AdminRec : Type 0 where
  pub hash : Text
  pub totp : Text

pub record Admin : Type 0 where
  pub username : Text
  pub password_hash : Text
  pub totp_secret : Text

pub record Manager : Type 0 where
  pub admins : List (Text × AdminRec)
  pub secret : Text
  pub secure_cookies : Bool

abbrev pub session_max_age : ℕ
session_max_age = 86_400

abbrev pub pending_max_age : ℕ
pending_max_age = 300

abbrev pub dot : ℕ
dot = 46

-- The loop of `New` over the admins: `none` where one has an empty name or hash.
unfoldable pub load_admins : List Admin → List (Text × AdminRec) → Option (List (Text × AdminRec))
load_admins [] m = some m
load_admins (a ∷ rest) m =
    if is_empty a.username || is_empty a.password_hash
    then none
    else load_admins rest (
        insert (to_lower a.username)
          (record { hash = a.password_hash; totp = trim_space a.totp_secret }) m)

unfoldable pub new_manager : List Admin → Text → Bool → Option Manager
unfolding load_admins
new_manager admins secret secure = if is_empty admins then none else elim (load_admins admins []) [
  | none ↦ none
  | some m ↦ some (record { admins = m; secret = secret; secure_cookies = secure })
]

abbrev pub two_fa : Text
two_fa = codes "2fa"

module _ (sign : Text → Text → Text) (encode : Text → Text) (decode : Text → Option Text) where
  -- A payload with its signature, in base64.
  abbrev pub sealed : Manager → Text → Text
  sealed m payload = encode (payload ++ (dot ∷ sign m.secret payload))

  unfoldable pub session_payload : Text → ℕ → Text
  unfolding print_int
  session_payload name exp = name ++ (dot ∷ print_int exp)

  -- The value of the session cookie.
  unfoldable pub issue_cookie : Manager → ℕ → Text → Text
  unfolding session_payload
  issue_cookie m now username =
      sealed m (session_payload (to_lower username) (now + session_max_age))

  abbrev known : Option AdminRec → Text → Text
  known none username = []
  known (some rec) username = username

  -- The checks of `Authenticated` behind the parsing of the time; `[]` is its `""`.
  abbrev checked_session : Manager → ℕ → Text → Text → Text → Option ℤ → Text
  checked_session m now username exp_str sig none = []
  checked_session m now username exp_str sig (some exp) =
      if not (ltb_ℤ (pos now) exp)
      then []
      else if not (text_eq sig (sign m.secret (username ++ (dot ∷ exp_str))))
      then []
      else known (lookup username m.admins) username

  abbrev timed_session : Manager → ℕ → Text → Option (Text × Text) → Text
  timed_session m now username none = []
  timed_session m now username (some (exp_str, sig)) =
      checked_session m now username exp_str sig (parse_int exp_str)

  -- `SplitN(raw, ".", 3)` has three parts if there are two dots to cut at.
  abbrev named_session : Manager → ℕ → Option (Text × Text) → Text
  named_session m now none = []
  named_session m now (some (username, rest)) = timed_session m now username (cut rest dot)

  abbrev decoded_session : Manager → ℕ → Option Text → Text
  decoded_session m now none = []
  decoded_session m now (some raw) = named_session m now (cut raw dot)

  unfoldable pub authenticated : Manager → ℕ → Option Text → Text
  authenticated m now none = []
  authenticated m now (some value) = decoded_session m now (decode value)

  -- `Require`: whether the request reaches the handler.
  unfoldable pub required : Manager → ℕ → Option Text → Bool
  unfolding authenticated
  required m now cookie = not (is_empty (authenticated m now cookie))

  unfoldable pub issue_pending : Manager → ℕ → Text → Text
  unfolding print_int
  issue_pending m now username =
      sealed m (two_fa ++ (dot ∷ (to_lower username ++ (dot ∷ print_int (now + pending_max_age)))))

  abbrev known_user : Option AdminRec → Text → Option Text
  known_user none user = none
  known_user (some rec) user = some user

  abbrev checked_pending : Manager → ℕ → Text → Text → Text → Option ℤ → Option Text
  checked_pending m now user exp_str sig none = none
  checked_pending m now user exp_str sig (some exp) =
      if not (ltb_ℤ (pos now) exp)
      then none
      else if not (text_eq sig (sign m.secret (two_fa ++ (dot ∷ (user ++ (dot ∷ exp_str))))))
      then none
      else known_user (lookup user m.admins) user

  abbrev timed_pending : Manager → ℕ → Text → Option (Text × Text) → Option Text
  timed_pending m now user none = none
  timed_pending m now user (some (exp_str, sig)) =
      checked_pending m now user exp_str sig (parse_int exp_str)

  abbrev named_pending : Manager → ℕ → Option (Text × Text) → Option Text
  named_pending m now none = none
  named_pending m now (some (user, rest)) = timed_pending m now user (cut rest dot)

  abbrev tagged_pending : Manager → ℕ → Option (Text × Text) → Option Text
  tagged_pending m now none = none
  tagged_pending m now (some (tag, rest)) =
      if not (text_eq tag two_fa) then none else named_pending m now (cut rest dot)

  abbrev decoded_pending : Manager → ℕ → Option Text → Option Text
  decoded_pending m now none = none
  decoded_pending m now (some raw) = tagged_pending m now (cut raw dot)

  unfoldable pub verify_pending : Manager → ℕ → Text → Option Text
  verify_pending m now tok = decoded_pending m now (decode tok)
