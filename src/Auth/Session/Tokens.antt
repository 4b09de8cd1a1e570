-- ===== src/Auth/Session/Tokens.antt =====
-- internal/auth/auth.go: which tokens are accepted, and what for.
use orxies.Prelude.{
  ℕ, ◌+◌, ◌≤◌, ◌<◌, ◌≡◌, refl, sym, ap, ◌∙◌, true, false, [], ◌∷◌, ◌++◌, Option, none, some, ◌==◌,
  Text, text_eq, text_eq_iff, text_eq_refl, text_key, is_empty, to_lower, has_byte, cut, lookup,
  arith, Bool-cases, Option-cases, inl, inr,
}
use mathlib.Core.List.{append_assoc}
use mathlib.Core.Path.{subst}
use orxies.Prelude.Int.{ℤ, pos, ltb_ℤ}
use orxies.Prelude.Decimal.{
  print_int, parse_int, max_int64, print_int-has_byte, parse_int-print_int,
}
use orxies.Auth.Session.{
  Manager, AdminRec, dot, session_max_age, pending_max_age, session_payload, issue_cookie,
  authenticated, decoded_session, named_session, timed_session, checked_session, issue_pending,
  two_fa,
}

cut-append : (s t : Text) → has_byte s dot ≡ false → cut (s ++ (dot ∷ t)) dot ≡ some (s, t)
cut-append [] t h = refl
cut-append (a ∷ s) t h =
    let rest : has_byte s dot ≡ false = ground arith in
    let own : (a == dot) ≡ false = ground arith in rw (own, cut-append s t rest) refl

has_byte-dot : (s t : Text) → has_byte (s ++ (dot ∷ t)) dot ≡ true
has_byte-dot [] t = refl
has_byte-dot (a ∷ s) t = ground (arith, has_byte-dot s t)

-- If a dot is left behind a dot, then a dot is left behind the first one.
cut-append_rest :
    (s t : Text) (ps : Text × Text)
    → has_byte t dot ≡ true
    → cut (s ++ (dot ∷ t)) dot ≡ some ps
    → has_byte ps.1 dot ≡ true
cut-append_rest [] t ps h e = ground arith
cut-append_rest (a ∷ s) t ps h e = elim (Bool-cases (a == dot)) [
  | inl own ↦ ground (arith, has_byte-dot s t)
  | inr other ↦ elim (Option-cases (cut (s ++ (dot ∷ t)) dot)) [
    | inl f ↦ ground (arith, f)
    | inr (qs, f) ↦
        let deep = cut-append_rest s t qs h f in
        let same : qs.1 ≡ ps.1 = ground (arith, f) in ap (λ x. has_byte x dot) (sym same) ∙ deep
  ]
]

cut-join : (s : Text) (ps : Text × Text) → cut s dot ≡ some ps → s ≡ ps.0 ++ (dot ∷ ps.1)
cut-join [] ps e = ground arith
cut-join (a ∷ s) ps e = elim (Bool-cases (a == dot)) [
  | inl own ↦ ground (arith, own)
  | inr other ↦ elim (Option-cases (cut s dot)) [
    | inl f ↦ ground (arith, f)
    | inr (qs, f) ↦
        let back : (a ∷ qs.0, qs.1) ≡ ps = ground (arith, f) in
        ap (λ x. a ∷ x) (cut-join s qs f) ∙ ap (λ x. x.0 ++ (dot ∷ x.1)) back
  ]
]

module _ (sign : Text → Text → Text) (encode : Text → Text) (decode : Text → Option Text)
    (decode-encode : (s : Text) → decode (encode s) ≡ some s) where
  checked-dotted :
      (m : Manager) (now : ℕ) (username exp_str sig : Text) (o : Option ℤ)
      → ((key payload : Text) → has_byte (sign key payload) dot ≡ false)
      → has_byte sig dot ≡ true
      → checked_session sign encode decode m now username exp_str sig o ≡ []
  checked-dotted m now username exp_str sig none no_dot d = refl
  checked-dotted m now username exp_str sig (some exp) no_dot d =
      let made = sign m.secret (username ++ (dot ∷ exp_str)) in
      ground (arith, text_eq_iff sig made, no_dot m.secret (username ++ (dot ∷ exp_str)))

  dotted_signature :
      (m : Manager) (now : ℕ) (rest : Text)
      → ((key payload : Text) → has_byte (sign key payload) dot ≡ false)
      → ((ps : Text × Text) → cut rest dot ≡ some ps → has_byte ps.1 dot ≡ true)
      → timed_session sign encode decode m now two_fa (cut rest dot) ≡ []
  dotted_signature m now rest no_dot d = elim (Option-cases (cut rest dot)) [
    | inl e ↦ rw e refl
    | inr (ps, e) ↦
        ap (timed_session sign encode decode m now two_fa) e
        ∙ checked-dotted m now two_fa ps.0 ps.1 (parse_int ps.0) no_dot (d ps e)
  ]

  -- A session cookie names its admin for 24 hours: it is accepted at any time before its end, if
  -- the name has no dot in it and is that of an admin, the end fits an int64, and base64 decodes
  -- what it encoded.
  pub authenticated-issue_cookie :
      (m : Manager) (now later : ℕ) (username : Text) (rec : AdminRec)
      → has_byte (to_lower username) dot ≡ false
      → lookup (to_lower username) m.admins ≡ some rec
      → now + session_max_age ≤ max_int64
      → later < now + session_max_age
      → authenticated sign encode decode m later
          (some (issue_cookie sign encode decode m now username))
        ≡ to_lower username
  unfolding authenticated issue_cookie session_payload
  authenticated-issue_cookie m now later username rec plain listed small early =
      let name = to_lower username in
      let exp = now + session_max_age in
      let sig = sign m.secret (name ++ (dot ∷ print_int exp)) in
      let parsed : cut ((name ++ (dot ∷ print_int exp)) ++ (dot ∷ sig)) dot
          ≡ some (name, print_int exp ++ (dot ∷ sig)) =
        ap (λ s. cut s dot) (append_assoc name (dot ∷ print_int exp) (dot ∷ sig))
        ∙ cut-append name (print_int exp ++ (dot ∷ sig)) plain in
      let timed : cut (print_int exp ++ (dot ∷ sig)) dot ≡ some (print_int exp, sig) =
        cut-append (print_int exp) sig (print_int-has_byte exp dot refl) in
      let valid : ltb_ℤ (pos later) (pos exp) ≡ true = ground arith in
      rw
        (
          decode-encode,
          parsed,
          timed,
          parse_int-print_int exp small,
          valid,
          text_eq_refl sig,
          listed,
        )
        refl

  -- The token that is issued between the two factors is no session, for no admin and at no time, if
  -- base64 decodes what it encoded and no signature has a dot in it.
  pub authenticated-issue_pending :
      (m : Manager) (now later : ℕ) (username : Text)
      → ((key payload : Text) → has_byte (sign key payload) dot ≡ false)
      → authenticated sign encode decode m later
          (some (issue_pending sign encode decode m now username))
        ≡ []
  unfolding authenticated issue_pending
  authenticated-issue_pending m now later username no_dot =
      let name = to_lower username in
      let exp = print_int (now + pending_max_age) in
      let payload = two_fa ++ (dot ∷ (name ++ (dot ∷ exp))) in
      let sig = sign m.secret payload in
      ap (decoded_session sign encode decode m later) (decode-encode (payload ++ (dot ∷ sig)))
      ∙ ap (λ r. timed_session sign encode decode m later two_fa (cut r dot))
          (append_assoc name (dot ∷ exp) (dot ∷ sig))
      ∙ dotted_signature m later (name ++ (dot ∷ (exp ++ (dot ∷ sig)))) no_dot
          (λ ps e. cut-append_rest name (exp ++ (dot ∷ sig)) ps (has_byte-dot exp sig) e)

  -- What makes a cookie that of an admin.
  pub record Genuine (m : Manager) (now : ℕ) (raw : Option Text) (username : Text) : Type 0 where
    pub exp_str : Text
    pub exp : ℤ
    pub rec : AdminRec
    pub read : parse_int exp_str ≡ some exp
    pub unexpired : ltb_ℤ (pos now) exp ≡ true
    pub listed : lookup username m.admins ≡ some rec
    pub signed :
        raw
        ≡ some
            (username ++ (dot ∷ (exp_str ++ (dot ∷ sign m.secret (username ++ (dot ∷ exp_str))))))

  checked_session-Genuine :
      (m : Manager) (now : ℕ) (username exp_str sig u : Text) (o : Option ℤ)
      → parse_int exp_str ≡ o
      → is_empty u ≡ false
      → checked_session sign encode decode m now username exp_str sig o ≡ u
      → Genuine m now (some (username ++ (dot ∷ (exp_str ++ (dot ∷ sig))))) u
  checked_session-Genuine m now username exp_str sig u none p full e = ground arith
  checked_session-Genuine m now username exp_str sig u (some exp) p full e =
      let made = sign m.secret (username ++ (dot ∷ exp_str)) in
      elim (Bool-cases (ltb_ℤ (pos now) exp)) [
        | inr late ↦ absurd (ground (arith, late))
        | inl early ↦ elim (Bool-cases (text_eq sig made)) [
          | inr forged ↦ absurd (ground (arith, early, forged))
          | inl real ↦ elim (Option-cases (lookup username m.admins)) [
            | inl gone ↦ absurd (ground (arith, early, real, gone))
            | inr (rec, found) ↦
                let same : username ≡ u = ground (arith, early, real, found) in
                subst (λ x. Genuine m now (some (username ++ (dot ∷ (exp_str ++ (dot ∷ sig))))) x)
                  same
                  (record {
                    exp_str = exp_str;
                    exp = exp;
                    rec = rec;
                    read = p;
                    unexpired = early;
                    listed = found;
                    signed =
                        ap (λ x. some (username ++ (dot ∷ (exp_str ++ (dot ∷ x)))))
                          ((text_eq_iff sig made).0 real);
                  })
          ]
        ]
      ]

  -- A cookie that is accepted carries the signature, under the secret, of the very name that it is
  -- accepted for and of a time that is not over, and the name is that of an admin.
  pub authenticated-Genuine :
      (m : Manager) (now : ℕ) (value u : Text)
      → is_empty u ≡ false
      → authenticated sign encode decode m now (some value) ≡ u
      → Genuine m now (decode value) u
  unfolding authenticated
  authenticated-Genuine m now value u full e = elim (Option-cases (decode value)) [
    | inl f ↦ absurd (ground (arith, f))
    | inr (raw, f) ↦ elim (Option-cases (cut raw dot)) [
      | inl g ↦ absurd (ground (arith, f, g))
      | inr (ps, g) ↦ elim (Option-cases (cut ps.1 dot)) [
        | inl k ↦ absurd (ground (arith, f, g, k))
        | inr (qs, k) ↦
            let whole : some raw ≡ some (ps.0 ++ (dot ∷ (qs.0 ++ (dot ∷ qs.1)))) =
              ap some (cut-join raw ps g ∙ ap (λ x. ps.0 ++ (dot ∷ x)) (cut-join ps.1 qs k)) in
            let checked : checked_session sign encode decode m now ps.0 qs.0 qs.1 (parse_int qs.0)
                ≡ u =
              ap (timed_session sign encode decode m now ps.0) (sym k)
              ∙ ap (named_session sign encode decode m now) (sym g)
              ∙ ap (decoded_session sign encode decode m now) (sym f)
              ∙ e in
            subst (λ o. Genuine m now o u) (sym (f ∙ whole))
              (checked_session-Genuine m now ps.0 qs.0 qs.1 u (parse_int qs.0) refl full checked)
      ]
    ]
  ]
