-- ===== src/Auth/Totp.antt =====
-- internal/auth/totp.go: the codes of the second factor.
-- HMAC-SHA1 and the decoding of base32 are parameters. Bytes are numbers below 256, and a time is
-- a Unix second that is 30 at least.
pub mod Window
mod Tests
use orxies.Prelude.{
  ℕ, zero, suc, ◌+◌, ◌-◌, ◌*◌, ◌/◌, ◌%◌, ◌^◌, Bool, true, false, ◌||◌, not, List, [], ◌∷◌, Option,
  none, some, ◌==◌, leb, if◌then◌else◌, length, get_or, Text, text_eq, codes, replace_all,
  trim_space, map,
}

abbrev pub totp_digits : ℕ
totp_digits = 6

abbrev pub totp_period : ℕ
totp_period = 30

abbrev upper : ℕ → ℕ
upper c = if leb 97 c then (if leb c 122 then c - 32 else c) else c

unfoldable pub normalize_b32 : Text → Text
normalize_b32 s = replace_all (replace_all (map upper (trim_space s)) (codes " ") []) (codes "-") []

-- `PutUint64`, the most significant byte first.
unfoldable pub put_uint64 : ℕ → ℕ → Text → Text
put_uint64 zero n rest = rest
put_uint64 (suc k) n rest = put_uint64 k (n / 256) ((n % 256) ∷ rest)

-- `%0*d`: the last digits of a number, with zeros in front.
unfoldable pub pad_digits : ℕ → ℕ → Text → Text
pad_digits zero n rest = rest
pad_digits (suc k) n rest = pad_digits k (n / 10) ((48 + n % 10) ∷ rest)

abbrev last_or_zero : Text → ℕ
last_or_zero sum = get_or sum (length sum - 1) 0

unfoldable pub truncated : Text → ℕ
truncated sum =
    let off = last_or_zero sum % 16 in
    get_or sum off 0 % 128 * 2 ^ 24
    + get_or sum (off + 1) 0 * 2 ^ 16
    + get_or sum (off + 2) 0 * 2 ^ 8
    + get_or sum (off + 3) 0

module _ (hmac_sha1 : Text → Text → Text) (decode_b32 : Text → Option Text) where
  unfoldable pub hotp : Text → ℕ → Text
  unfolding put_uint64 pad_digits truncated
  hotp key counter =
      pad_digits totp_digits (truncated (hmac_sha1 key (put_uint64 8 counter [])) % 1_000_000) []

  abbrev totp_of : Option Text → ℕ → Option Text
  totp_of none unix = none
  totp_of (some key) unix = some (hotp key (unix / totp_period))

  unfoldable pub totp_at : Text → ℕ → Option Text
  unfolding hotp normalize_b32
  totp_at secret unix = totp_of (decode_b32 (normalize_b32 secret)) unix

  -- The loop over the three times: the first one that has no code ends it with false.
  unfoldable pub match_any : Text → Text → List ℕ → Bool
  unfolding totp_at
  match_any secret code [] = false
  match_any secret code (t ∷ ts) = elim (totp_at secret t) [
    | none ↦ false
    | some want ↦ if text_eq want code then true else match_any secret code ts
  ]

  unfoldable pub verify_totp : Text → Text → ℕ → Bool
  unfolding match_any
  verify_totp secret code now =
      if not (length (trim_space code) == totp_digits)
      then false
      else match_any secret (trim_space code) (now ∷ (now - totp_period) ∷ (now + totp_period) ∷ [])
