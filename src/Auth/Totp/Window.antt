-- ===== src/Auth/Totp/Window.antt =====
-- internal/auth/totp.go: which codes are accepted.
use orxies.Prelude.{
  ℕ, zero, suc, ◌+◌, ◌-◌, ◌/◌, ◌%◌, ◌≤◌, ◌≡◌, refl, ap, ◌∙◌, Bool, true, false, ◌||◌, List, [], ◌∷◌,
  Option, none, some, ◌==◌, if◌then◌else◌, length, Text, text_eq, text_eq_iff, trim_space, arith,
  Bool-cases, inl, inr,
}
use orxies.Auth.Totp.{
  totp_digits, totp_period, normalize_b32, pad_digits, truncated, put_uint64, hotp, totp_of,
  totp_at, match_any, verify_totp,
}

length-pad_digits : (k n : ℕ) (rest : Text) → length (pad_digits k n rest) ≡ k + length rest
unfolding pad_digits
length-pad_digits zero n rest = omega arith
length-pad_digits (suc k) n rest =
    omega (arith, length-pad_digits k (n / 10) ((48 + n % 10) ∷ rest))

select_self : (a : Bool) → (if a then true else false) ≡ a
select_self true = refl
select_self false = refl

or_chain : (a b c : Bool) → (if a then true else if b then true else c) ≡ (a || b || c)
or_chain a b c = ground arith

module _ (hmac_sha1 : Text → Text → Text) (decode_b32 : Text → Option Text) where
  length-hotp :
      (key : Text) (counter : ℕ) → length (hotp hmac_sha1 decode_b32 key counter) ≡ totp_digits
  unfolding hotp
  length-hotp key counter =
      length-pad_digits 6 (truncated (hmac_sha1 key (put_uint64 8 counter [])) % 1_000_000) []

  -- A text that is not of six digits is no code.
  wrong_length :
      (key code : Text) (counter : ℕ)
      → (length code == totp_digits) ≡ false
      → text_eq (hotp hmac_sha1 decode_b32 key counter) code ≡ false
  wrong_length key code counter h =
      elim (Bool-cases (text_eq (hotp hmac_sha1 decode_b32 key counter) code)) [
        | inr other ↦ other
        | inl same ↦
            let e = ap {B = ℕ} length ((text_eq_iff _ code).0 same) in
            absurd (ground (arith, length-hotp key counter, e))
      ]

  match_any-cons :
      (secret code key : Text) (t : ℕ) (ts : List ℕ)
      → decode_b32 (normalize_b32 secret) ≡ some key
      → match_any hmac_sha1 decode_b32 secret code (t ∷ ts) ≡ (
          if text_eq (hotp hmac_sha1 decode_b32 key (t / totp_period)) code
          then true
          else match_any hmac_sha1 decode_b32 secret code ts)
  unfolding match_any totp_at
  match_any-cons secret code key t ts keyed =
      ap
        (λ o. elim (totp_of hmac_sha1 decode_b32 o t) [
          | none ↦ false
          | some want ↦
              if text_eq want code then true else match_any hmac_sha1 decode_b32 secret code ts
        ])
        keyed

  match_any-nil : (secret code : Text) → match_any hmac_sha1 decode_b32 secret code [] ≡ false
  unfolding match_any
  match_any-nil secret code = refl

  match_any-three :
      (secret code key : Text) (t u v : ℕ)
      → decode_b32 (normalize_b32 secret) ≡ some key
      → match_any hmac_sha1 decode_b32 secret code (t ∷ u ∷ v ∷ []) ≡ (
          text_eq (hotp hmac_sha1 decode_b32 key (t / totp_period)) code
          || text_eq (hotp hmac_sha1 decode_b32 key (u / totp_period)) code
          || text_eq (hotp hmac_sha1 decode_b32 key (v / totp_period)) code)
  match_any-three secret code key t u v keyed =
      let m = match_any hmac_sha1 decode_b32 secret code in
      let h = hotp hmac_sha1 decode_b32 key in
      match_any-cons secret code key t (u ∷ v ∷ []) keyed
      ∙ ap (λ b. if text_eq (h (t / totp_period)) code then true else b)
          (match_any-cons secret code key u (v ∷ []) keyed
            ∙ ap (λ b. if text_eq (h (u / totp_period)) code then true else b)
                (match_any-cons secret code key v [] keyed
                  ∙ ap (λ b. if text_eq (h (v / totp_period)) code then true else b)
                      (match_any-nil secret code)
                  ∙ select_self (text_eq (h (v / totp_period)) code)))
      ∙ or_chain (text_eq (h (t / totp_period)) code) (text_eq (h (u / totp_period)) code)
          (text_eq (h (v / totp_period)) code)

  -- If the secret decodes, from the second step of time on, a code is accepted, white space around
  -- it aside, exactly if it is the code of the step of 30
  -- seconds that the time lies in, of the step before or of the one after: no other counts.
  pub verify_totp-hotp :
      (secret code key : Text) (now : ℕ)
      → totp_period ≤ now
      → decode_b32 (normalize_b32 secret) ≡ some key
      → verify_totp hmac_sha1 decode_b32 secret code now ≡ (
          text_eq (hotp hmac_sha1 decode_b32 key (now / totp_period)) (trim_space code)
          || text_eq (hotp hmac_sha1 decode_b32 key (now / totp_period - 1)) (trim_space code)
          || text_eq (hotp hmac_sha1 decode_b32 key (now / totp_period + 1)) (trim_space code))
  unfolding verify_totp
  verify_totp-hotp secret code key now late keyed =
      let c = now / totp_period in
      let s = trim_space code in
      let before : (now - totp_period) / totp_period ≡ c - 1 = omega arith in
      let next : (now + totp_period) / totp_period ≡ c + 1 = omega arith in
      elim (Bool-cases (length s == totp_digits)) [
        | inl six ↦
            let three =
              match_any-three secret s key now (now - totp_period) (now + totp_period) keyed in
            rw (six, three, before, next) refl
        | inr other ↦
            rw
              (
                other,
                wrong_length key s c other,
                wrong_length key s (c - 1) other,
                wrong_length key s (c + 1) other,
              )
              refl
      ]
