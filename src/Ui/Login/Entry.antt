-- ===== src/Ui/Login/Entry.antt =====
-- internal/ui/ui.go: who gets a session from the login page.
use orxies.Prelude.{
  ◌≡◌, refl, sym, ap, ◌∙◌, Bool, true, false, Option, none, some, ◌⊎◌, inl, inr, Text, text_key,
  is_empty, arith, Bool-cases,
}
use orxies.Prelude.Int.{ℤ}
use orxies.Auth.Throttle.{Throttle, blocked}
use orxies.Auth.Session.{Manager, verify_pending}
use orxies.Auth.Csrf.{check_csrf}
use orxies.Ui.Login.{
  LoginRequest, LoginOutcome, LoginClock, handle_login, safe_next, unless_blocked, first_stage,
  second_stage, verify_password, totp_enabled, verify_code, client_peer_ip,
}

module _ (sign : Text → Text → Text) (encode : Text → Text) (decode : Text → Option Text)
    (bcrypt_ok : Text → Text → Bool) (hmac_sha1 : Text → Text → Text)
    (decode_b32 : Text → Option Text) (split_host : Text → Option Text) where
  -- The factors that a user has shown: a valid pending token with a code, or a password where no
  -- second factor is set up.
  abbrev pub Proven : Manager → LoginClock → LoginRequest → Text → Type 0
  Proven m ck req user =
      ((verify_pending sign encode decode m ck.unix req.pending ≡ some user)
        × (verify_code hmac_sha1 decode_b32 m user req.otp ck.unix ≡ true))
      ⊎ ((req.username ≡ user)
          × (verify_password bcrypt_ok m req.username req.password ≡ true)
          × (totp_enabled m req.username ≡ false))

  second_stage-Proven :
      (m : Manager) (t : Throttle) (ck : LoginClock) (req : LoginRequest)
      (ip next user cookie to : Text) (o : Option Text)
      → verify_pending sign encode decode m ck.unix req.pending ≡ o
      → (second_stage sign encode decode bcrypt_ok hmac_sha1 decode_b32 split_host m t ck req ip
          next o).1
        ≡ LoginOutcome.signed_in user cookie to
      → Proven m ck req user
  second_stage-Proven m t ck req ip next user cookie to none p e = ground arith
  second_stage-Proven m t ck req ip next user cookie to (some u) p e =
      elim (Bool-cases (verify_code hmac_sha1 decode_b32 m u req.otp ck.unix)) [
        | inr wrong ↦ absurd (ground (arith, wrong))
        | inl right ↦
            let same : u ≡ user = ground (arith, right) in
            inl (
              p ∙ ap some same,
              ap (λ x. verify_code hmac_sha1 decode_b32 m x req.otp ck.unix) (sym same) ∙ right,
            )
      ]

  first_stage-Proven :
      (m : Manager) (t : Throttle) (ck : LoginClock) (req : LoginRequest)
      (ip next user cookie to : Text)
      → (first_stage sign encode decode bcrypt_ok hmac_sha1 decode_b32 split_host m t ck req ip
          next).1
        ≡ LoginOutcome.signed_in user cookie to
      → Proven m ck req user
  first_stage-Proven m t ck req ip next user cookie to e =
      elim (Bool-cases (verify_password bcrypt_ok m req.username req.password)) [
        | inr wrong ↦ absurd (ground (arith, wrong))
        | inl right ↦ elim (Bool-cases (totp_enabled m req.username)) [
          | inl two ↦ absurd (ground (arith, right, two))
          | inr one ↦ inr (ground (arith, right, one), right, one)
        ]
      ]

  unless_blocked-Proven :
      (m : Manager) (t : Throttle) (ck : LoginClock) (req : LoginRequest)
      (ip next user cookie to : Text) (b : Bool × ℤ)
      → (unless_blocked sign encode decode bcrypt_ok hmac_sha1 decode_b32 split_host m t ck req ip
          next b).1
        ≡ LoginOutcome.signed_in user cookie to
      → (b.0 ≡ false) × Proven m ck req user
  unless_blocked-Proven m t ck req ip next user cookie to (true, retry) e = absurd (ground arith)
  unless_blocked-Proven m t ck req ip next user cookie to (false, retry) e =
      elim (Bool-cases (is_empty req.pending)) [
        | inl empty ↦
            (refl, first_stage-Proven m t ck req ip next user cookie to (ground (arith, empty)))
        | inr full ↦ (
          refl,
          second_stage-Proven m t ck req ip next user cookie to
              (verify_pending sign encode decode m ck.unix req.pending) refl (ground (arith, full)),
        )
      ]

  -- Whoever is signed in sent a form with a valid token, from an address that is not locked out,
  -- and showed a password where no second factor is set up, or else a valid pending token of theirs
  -- together with a code.
  pub handle_login-Proven :
      (m : Manager) (t : Throttle) (ck : LoginClock) (req : LoginRequest) (user cookie to : Text)
      → (handle_login sign encode decode bcrypt_ok hmac_sha1 decode_b32 split_host m t ck req).1
        ≡ LoginOutcome.signed_in user cookie to
      → (check_csrf sign m req.csrf_cookie req.csrf_field ≡ true)
        × ((blocked t ck.asked_at ck.left_at (client_peer_ip split_host req.remote_addr)).0 ≡ false)
        × Proven m ck req user
  unfolding handle_login
  handle_login-Proven m t ck req user cookie to e = elim (Bool-cases req.is_post) [
    | inr get ↦ absurd (ground (arith, get))
    | inl post ↦ elim (Bool-cases req.form_ok) [
      | inr broken ↦ absurd (ground (arith, post, broken))
      | inl read ↦ elim (Bool-cases (check_csrf sign m req.csrf_cookie req.csrf_field)) [
        | inr forged ↦ absurd (ground (arith, post, read, forged))
        | inl real ↦
            let ip = client_peer_ip split_host req.remote_addr in
            let (open_gate, proven) =
              unless_blocked-Proven m t ck req ip (safe_next req.next_form) user cookie to
                (blocked t ck.asked_at ck.left_at ip) (ground (arith, post, read, real)) in
            (real, open_gate, proven)
      ]
    ]
  ]
