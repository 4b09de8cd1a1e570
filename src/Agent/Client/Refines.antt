-- ===== src/Agent/Client/Refines.antt =====
-- internal/agent: the agent behind its socket is the Runner itself.
use orxies.Prelude.{
  ◌≡◌, refl, ap, ◌∙◌, Bool, true, false, ◌&&◌, ◌||◌, not, has_prefix, contains, has_byte, Option,
  none, some, Text, text_eq, text_eq_refl, codes, is_empty, arith,
}
use orxies.Deploy.{Orchestrator}
use orxies.Agent.{
  BuildSpec, RunSpec, ExecSpec, Answer, answer, error, Runner, Wire, AgentRequest, AgentResponse,
  ended_build, ran, done, exec_ended, by_name, handle_run, handle_build, handle_exec_out,
  handle_exec_in, auth, route, serve, on_build, on_run, on_name, on_exec_out, on_exec_in, on_spec,
}
use orxies.Agent.Client.{
  Sent, request, build_failed, built, started, accepted, dumped, client, succeeded, built_here,
  id_given, output_given, direct,
}
use orxies.Agent.Client.Marks.{build_failed-build_body_ok, build_failed-build_body_error}

-- A path that path.Clean leaves as it is: rooted, with no empty segment and no dot.
abbrev pub is_clean : Text → Bool
is_clean p = has_prefix p (codes "/") && not (contains p (codes "//") || has_byte p 46)

-- What base64 and path.Clean document.
pub record IsWire (wire : Wire) : Type 0 where
  pub bytes : (s : Text) → wire.unbase64 (wire.base64 s) ≡ some s
  pub clean : (p : Text) → is_clean p ≡ true → wire.clean_path p ≡ p

abbrev pub arrived : {D : Type 0} → D × AgentResponse → Sent D
arrived (d, r) = (d, some r)

-- A socket that gets every request to the server and every answer back.
abbrev pub over : {D : Type 0} → Wire → Runner D → Text → D → AgentRequest → Sent D
over wire runner secret d r = arrived (serve wire runner secret d r)

-- `a` does what the Runner does, for what JSON gives back as it was. A build that fails is reported
-- so, whatever its log; one that goes well is, unless a line of its own log reads as the mark of a
-- failure.
pub record Refines {D : Type 0} (wire : Wire) (runner : Runner D) (a : Orchestrator D)
    : Type 0 where
  pub run :
      (d : D) (s : RunSpec)
      → wire.run_of (wire.run_json s) ≡ some s
      → ((id : Text) → (runner.run d s).1 ≡ answer id → wire.id_of (wire.id_json id) ≡ some id)
      → a.run d s ≡ (direct runner).run d s
  pub stop :
      (d : D) (n : Text)
      → wire.name_of (wire.name_json n) ≡ some n
      → is_empty n ≡ false
      → a.stop d n ≡ (direct runner).stop d n
  pub remove :
      (d : D) (n : Text)
      → wire.name_of (wire.name_json n) ≡ some n
      → is_empty n ≡ false
      → a.remove d n ≡ (direct runner).remove d n
  pub ensure_network :
      (d : D) (n : Text)
      → wire.name_of (wire.name_json n) ≡ some n
      → is_empty n ≡ false
      → a.ensure_network d n ≡ (direct runner).ensure_network d n
  pub exec_out :
      (d : D) (s : ExecSpec)
      → wire.exec_of (wire.exec_json s) ≡ some s
      → is_empty s.container ≡ false
      → a.exec_out d s ≡ (direct runner).exec_out d s
  pub exec_in :
      (d : D) (s : ExecSpec) (input : Text)
      → wire.exec_of (wire.exec_json s) ≡ some s
      → is_empty s.container ≡ false
      → a.exec_in d s input ≡ (direct runner).exec_in d s input
  pub failed_build :
      (d : D) (s : BuildSpec)
      → wire.build_of (wire.build_json s) ≡ some s
      → ((direct runner).build d s).1 ≡ false
      → a.build d s ≡ (direct runner).build d s
  pub good_build :
      (d : D) (s : BuildSpec)
      → wire.build_of (wire.build_json s) ≡ some s
      → build_failed (runner.build d s).1 ≡ false
      → a.build d s ≡ (direct runner).build d s

module _ {D : Type 0} where
  started-ran :
      (wire : Wire) (runner : Runner D) (r : D × Answer Text)
      → ((id : Text) → r.1 ≡ answer id → wire.id_of (wire.id_json id) ≡ some id)
      → started wire (arrived (ran wire runner r)) ≡ id_given r
  started-ran wire runner (d, answer id) ids = rw (ids id refl) refl
  started-ran wire runner (d, error e) ids = refl

  accepted-done : (r : D × Option Text) → accepted (arrived (done r)) ≡ succeeded r
  accepted-done (d, none) = refl
  accepted-done (d, some e) = refl

  dumped-exec_ended :
      (r : D × Text × Option Text) → dumped (arrived (exec_ended r)) ≡ output_given r
  dumped-exec_ended (d, out, none) = refl
  dumped-exec_ended (d, out, some e) = refl

  built-failed :
      (r : D × Text × Option Text)
      → (built_here r).1 ≡ false
      → built (arrived (ended_build r)) ≡ built_here r
  built-failed (d, log, none) h = absurd (ground arith)
  built-failed (d, log, some e) h = rw (build_failed-build_body_error log e) refl

  built-good :
      (r : D × Text × Option Text)
      → build_failed r.1 ≡ false
      → built (arrived (ended_build r)) ≡ built_here r
  built-good (d, log, none) h = rw (build_failed-build_body_ok log, h) refl
  built-good (d, log, some e) h = rw (build_failed-build_body_error log e) refl

module _ {D : Type 0} (wire : Wire) (runner : Runner D) (secret : Text) (w : IsWire wire)
    (full : is_empty secret ≡ false) where
  auth-granted :
      (next : D → AgentRequest → D × AgentResponse) (d : D) (r : AgentRequest)
      → r.authorization ≡ secret
      → auth wire runner secret next d r ≡ next d r
  auth-granted next d r own =
      let granted : text_eq r.authorization secret ≡ true = rw own (text_eq_refl secret) in
      rw (full, granted) refl

  serve-route :
      (d : D) (r : AgentRequest)
      → is_clean r.path ≡ true
      → serve wire runner secret d r ≡ route wire runner secret d r
  unfolding serve
  serve-route d r plain =
      let same : text_eq (wire.clean_path r.path) r.path ≡ true =
        ap (λ p. text_eq p r.path) (w.clean r.path plain) ∙ text_eq_refl r.path in
      rw same refl

  -- A request that reaches its handler, and what the client makes of the answer.
  answered :
      {A : Type 0} (read : Sent D → D × A) (next : D → AgentRequest → D × AgentResponse) (d : D)
      (r : AgentRequest) (here : D × AgentResponse) (value : D × A)
      → is_clean r.path ≡ true
      → route wire runner secret d r ≡ auth wire runner secret next d r
      → r.authorization ≡ secret
      → next d r ≡ here
      → read (arrived here) ≡ value
      → read (over wire runner secret d r) ≡ value
  answered read next d r here value plain routed own e v =
      ap (λ x. read (arrived x)) (serve-route d r plain ∙ routed ∙ auth-granted next d r own ∙ e)
      ∙ v

  by_name-done :
      (fn : D → Text → D × Option Text) (d : D) (path n : Text)
      → wire.name_of (wire.name_json n) ≡ some n
      → is_empty n ≡ false
      → by_name wire runner fn d (request secret path (wire.name_json n)) ≡ done (fn d n)
  by_name-done fn d path n back named = ap (on_name wire runner fn d) back ∙ rw named refl

  handle_exec_out-ended :
      (d : D) (path : Text) (s : ExecSpec)
      → wire.exec_of (wire.exec_json s) ≡ some s
      → is_empty s.container ≡ false
      → handle_exec_out wire runner d (request secret path (wire.exec_json s))
        ≡ exec_ended (runner.exec_out d s)
  handle_exec_out-ended d path s back named = ap (on_exec_out wire runner d) back ∙ rw named refl

  handle_exec_in-done :
      (d : D) (r : AgentRequest) (s : ExecSpec)
      → r.exec_spec ≡ wire.base64 (wire.exec_json s)
      → wire.exec_of (wire.exec_json s) ≡ some s
      → is_empty s.container ≡ false
      → handle_exec_in wire runner d r ≡ done (runner.exec_in d s r.body)
  handle_exec_in-done d r s e back named =
      ap (on_spec wire runner d r.body) (ap wire.unbase64 e ∙ w.bytes (wire.exec_json s))
      ∙ ap (on_exec_in wire runner d r.body) back
      ∙ rw named refl

  named_call :
      (fn : D → Text → D × Option Text) (path : Text) (d : D) (n : Text)
      → is_clean path ≡ true
      → route wire runner secret d (request secret path (wire.name_json n))
        ≡ auth wire runner secret
            (by_name wire runner fn)
            d
            (request secret path (wire.name_json n))
      → wire.name_of (wire.name_json n) ≡ some n
      → is_empty n ≡ false
      → accepted (over wire runner secret d (request secret path (wire.name_json n)))
        ≡ succeeded (fn d n)
  named_call fn path d n plain routed back named =
      answered accepted (by_name wire runner fn) d (request secret path (wire.name_json n))
        (done (fn d n)) (succeeded (fn d n)) plain routed refl (by_name-done fn d path n back named)
        (accepted-done (fn d n))

  -- The client of the agent does what the Runner behind the server does, once both have the same
  -- secret, which is not empty, for names and containers that are not empty and for specs, names and
  -- numbers of containers that JSON gives back as they were. A build that fails is reported so; one
  -- that goes well is reported so unless a line of its log reads as the mark of a failure.
  pub client-Refines : Refines wire runner (client wire (over wire runner secret) secret)
  unfolding client
  client-Refines = record {
    run = λ d s back ids.
        answered (started wire) (handle_run wire runner) d
          (request secret (codes "/v1/run") (wire.run_json s)) _ _ refl refl refl
          (ap (on_run wire runner d) back) (started-ran wire runner (runner.run d s) ids);
    stop = λ d n back named. named_call runner.stop (codes "/v1/stop") d n refl refl back named;
    remove =
        λ d n back named. named_call runner.remove (codes "/v1/remove") d n refl refl back named;
    ensure_network = λ d n back named.
        named_call runner.ensure_network (codes "/v1/network") d n refl refl back named;
    exec_out = λ d s back named.
        answered dumped (handle_exec_out wire runner) d
          (request secret (codes "/v1/exec-out") (wire.exec_json s)) _ _ refl refl refl
          (handle_exec_out-ended d (codes "/v1/exec-out") s back named)
          (dumped-exec_ended (runner.exec_out d s));
    exec_in = λ d s input back named.
        let r = record (request secret (codes "/v1/exec-in") input) {
          exec_spec = wire.base64 (wire.exec_json s);
        } in
        answered accepted (handle_exec_in wire runner) d r _ _ refl refl refl
          (handle_exec_in-done d r s refl back named) (accepted-done (runner.exec_in d s input));
    failed_build = λ d s back bad.
        answered built (handle_build wire runner) d
          (request secret (codes "/v1/build") (wire.build_json s)) _ _ refl refl refl
          (ap (on_build wire runner d) back) (built-failed (runner.build d s) bad);
    good_build = λ d s back good.
        answered built (handle_build wire runner) d
          (request secret (codes "/v1/build") (wire.build_json s)) _ _ refl refl refl
          (ap (on_build wire runner d) back) (built-good (runner.build d s) good);
  }
