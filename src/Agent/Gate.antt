-- ===== src/Agent/Gate.antt =====
-- internal/agent/agent.go: the check of the secret.
use orxies.Prelude.{
  ◌≡◌, refl, Bool, true, false, ◌⊎◌, inl, inr, if◌then◌else◌, Text, text_eq, text_eq_iff, codes,
  is_empty, Option, Bool-cases,
}
use orxies.Agent.{
  Runner, Wire, AgentRequest, AgentResponse, unauthorized, not_found, moved, auth, route, serve,
  handle_build, handle_run, by_name, handle_exec_out, handle_exec_in, handle_logs, handle_status,
  handle_health,
}

-- The answers that no handler of the agent gives.
pub data IsRefusal (a : AgentResponse) : Type 0 where
  no_secret : a ≡ unauthorized → IsRefusal a
  no_path : a ≡ not_found → IsRefusal a
  other_path : a ≡ moved → IsRefusal a

module _ {D : Type 0} (secret : Text) (d : D) (r : AgentRequest) where
  -- The request has the secret, or the engine is as it was and the answer a refusal.
  abbrev pub Guarded : D × AgentResponse → Type 0
  Guarded out =
      ((is_empty secret ≡ false) × (r.authorization ≡ secret)) ⊎ ((out.0 ≡ d) × IsRefusal out.1)

  Guarded-if :
      (b : Bool) (x y : D × AgentResponse) → Guarded x → Guarded y → Guarded (if b then x else y)
  Guarded-if true x y hx hy = hx
  Guarded-if false x y hx hy = hy

  auth-Guarded :
      (wire : Wire) (runner : Runner D) (next : D → AgentRequest → D × AgentResponse)
      → Guarded (auth wire runner secret next d r)
  auth-Guarded wire runner next = elim (Bool-cases (is_empty secret)) [
    | inl bare ↦ rw bare (inr (refl, no_secret refl))
    | inr full ↦ elim (Bool-cases (text_eq r.authorization secret)) [
      | inl own ↦ inl (full, (text_eq_iff r.authorization secret).0 own)
      | inr other ↦ rw (full, other) (inr (refl, no_secret refl))
    ]
  ]

  route-Guarded : (wire : Wire) (runner : Runner D) → Guarded (route wire runner secret d r)
  route-Guarded wire runner =
      let checked = auth-Guarded wire runner in
      let by = λ (fn : D → Text → D × Option Text). checked (by_name wire runner fn) in
      Guarded-if (text_eq r.path (codes "/v1/build")) _ _ (checked (handle_build wire runner)) (
        Guarded-if (text_eq r.path (codes "/v1/run")) _ _ (checked (handle_run wire runner)) (
          Guarded-if (text_eq r.path (codes "/v1/stop")) _ _ (by runner.stop) (
            Guarded-if (text_eq r.path (codes "/v1/remove")) _ _ (by runner.remove) (
              Guarded-if (text_eq r.path (codes "/v1/network")) _ _ (by runner.ensure_network) (
                Guarded-if (text_eq r.path (codes "/v1/exec-out")) _ _
                  (checked (handle_exec_out wire runner))
                  (Guarded-if (text_eq r.path (codes "/v1/exec-in")) _ _
                    (checked (handle_exec_in wire runner))
                    (Guarded-if (text_eq r.path (codes "/v1/logs")) _ _
                      (checked (handle_logs wire runner))
                      (Guarded-if (text_eq r.path (codes "/v1/status")) _ _
                        (checked (handle_status wire runner))
                        (Guarded-if (text_eq r.path (codes "/v1/health")) _ _
                          (checked (λ d r. handle_health wire runner d))
                          (inr (refl, no_path refl)))))))))))

-- Whatever the path and the body of a request, it carries the secret of the agent, which is not
-- empty, or else the container engine stays as it was and the answer is a refusal: unauthorized, not
-- found, or a redirect of a path that is not clean.
pub serve-Guarded :
    {D : Type 0} (wire : Wire) (runner : Runner D) (secret : Text) (d : D) (r : AgentRequest)
    → Guarded secret d r (serve wire runner secret d r)
unfolding serve
serve-Guarded wire runner secret d r =
    Guarded-if secret d r (text_eq (wire.clean_path r.path) r.path) _ _
      (route-Guarded secret d r wire runner) (inr (refl, other_path refl))
