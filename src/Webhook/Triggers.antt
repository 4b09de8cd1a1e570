-- ===== src/Webhook/Triggers.antt =====
-- internal/webhook/webhook.go: which requests deploy a project.
use orxies.Prelude.{
  ℕ, ◌≡◌, refl, true, false, Option, none, some, Text, text_eq_iff, is_empty, has_prefix, take,
  arith, Bool-cases, Option-cases, inl, inr,
}
use mathlib.Core.Path.{subst}
use orxies.Prelude.Int.{ℤ, pos, negsuc}
use orxies.Prelude.Decimal.{parse_int}
use orxies.Store.Projects.{Project, ProjectTable, get_project}
use orxies.Webhook.{
  Hook, HookReply, path_prefix, body_limit, signature_prefix, after_prefix, valid_signature,
  is_other_event, with_body, with_id, serve_hook,
}

module _ (hmac_hex : Text → Text → Text) where
  -- The grounds on which a project is deployed.
  pub record Signed (t : ProjectTable) (h : Hook) (id : ℕ) : Type 0 where
    pub project : Project
    pub body : Text
    pub prefixed : has_prefix h.path path_prefix ≡ true
    pub addressed : parse_int (after_prefix h.path path_prefix) ≡ some (pos id)
    pub known : get_project t id ≡ some project
    pub posted : h.is_post ≡ true
    pub read : h.body ≡ some body
    pub has_secret : is_empty project.webhook_secret ≡ false
    pub signed :
        hmac_hex project.webhook_secret (take body_limit body)
        ≡ after_prefix h.signature signature_prefix
    pub push : is_other_event h.event ≡ false

  valid_signature-eq :
      (secret body header : Text)
      → valid_signature hmac_hex secret body header ≡ true
      → hmac_hex secret body ≡ after_prefix header signature_prefix
  unfolding valid_signature
  valid_signature-eq secret body header h = elim (Bool-cases (has_prefix header signature_prefix)) [
    | inr bare ↦ absurd (ground (arith, bare))
    | inl tagged ↦
        (text_eq_iff (hmac_hex secret body) (after_prefix header signature_prefix)).0
          (ground (arith, tagged))
  ]

  with_body-Signed :
      (t : ProjectTable) (h : Hook) (n id : ℕ) (p : Project) (o : Option Text)
      → has_prefix h.path path_prefix ≡ true
      → parse_int (after_prefix h.path path_prefix) ≡ some (pos n)
      → get_project t n ≡ some p
      → h.is_post ≡ true
      → h.body ≡ o
      → with_body hmac_hex h n p o ≡ HookReply.triggered id
      → Signed t h id
  with_body-Signed t h n id p none here a k post r e = absurd (ground arith)
  with_body-Signed t h n id p (some body) here a k post r e =
      elim (Bool-cases (is_empty p.webhook_secret)) [
        | inl bare ↦ absurd (ground (arith, bare))
        | inr keyed ↦
            elim (Bool-cases
              (valid_signature hmac_hex p.webhook_secret (take body_limit body) h.signature)) [
                | inr forged ↦ absurd (ground (arith, forged, keyed))
                | inl real ↦ elim (Bool-cases (is_other_event h.event)) [
                  | inl other ↦ absurd (ground (arith, keyed, real, other))
                  | inr push ↦
                      let same : n ≡ id = ground (arith, keyed, real, push) in
                      subst (λ i. Signed t h i) same
                        (record {
                          project = p;
                          body = body;
                          prefixed = here;
                          addressed = a;
                          known = k;
                          posted = post;
                          read = r;
                          has_secret = keyed;
                          signed =
                              valid_signature-eq p.webhook_secret (take body_limit body) h.signature
                                real;
                          push = push;
                        })
                ]
              ]
      ]

  with_id-Signed :
      (t : ProjectTable) (h : Hook) (id : ℕ) (o : Option ℤ)
      → has_prefix h.path path_prefix ≡ true
      → parse_int (after_prefix h.path path_prefix) ≡ o
      → h.is_post ≡ true
      → with_id hmac_hex t h o ≡ HookReply.triggered id
      → Signed t h id
  with_id-Signed t h id none here a post e = absurd (ground arith)
  with_id-Signed t h id (some (negsuc n)) here a post e = absurd (ground arith)
  with_id-Signed t h id (some (pos n)) here a post e = elim (Option-cases (get_project t n)) [
    | inl gone ↦ absurd (ground (arith, gone))
    | inr (p, found) ↦
        with_body-Signed t h n id p h.body here a found post refl (ground (arith, found))
  ]

  -- A project is deployed only by a POST to a path that begins with the address of the hook
  -- and goes on with its number, whose body is signed under the secret of
  -- that very project, for a push or no named event; a project without a secret is never deployed.
  pub serve_hook-Signed :
      (t : ProjectTable) (h : Hook) (id : ℕ)
      → serve_hook hmac_hex t h ≡ HookReply.triggered id
      → Signed t h id
  unfolding serve_hook
  serve_hook-Signed t h id e = elim (Bool-cases (has_prefix h.path path_prefix)) [
    | inr elsewhere ↦ absurd (ground (arith, elsewhere))
    | inl here ↦ elim (Bool-cases h.is_post) [
      | inr get ↦ absurd (ground (arith, here, get))
      | inl post ↦
          with_id-Signed t h id (parse_int (after_prefix h.path path_prefix)) here refl post
            (ground (arith, here, post))
    ]
  ]
