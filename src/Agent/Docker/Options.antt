-- ===== src/Agent/Docker/Options.antt =====
-- internal/agent/docker.go: what docker reads from the arguments of a run.
use orxies.Prelude.{
  ◌≡◌, refl, ap, ◌∙◌, Bool, true, false, List, [], ◌∷◌, ◌++◌, ◌||◌, not, if◌then◌else◌, Text,
  text_eq, codes, has_prefix, drop, is_empty, ltb,
}
use orxies.Prelude.Decimal.{print_int}
use orxies.Agent.{RunSpec}
use orxies.Agent.Docker.{
  publish, join_network, harden, limit_memory, each, mount, set_env, run_args,
}

-- What a command line says: the options with their values, and what stands behind them.
pub record CommandLine : Type 0 where
  pub options : List (Text × Text)
  pub rest : List Text

abbrev pub with_option : Text → Text → CommandLine → CommandLine
with_option option value c = record c { options = (option, value) ∷ c.options }

abbrev is_in : Text → List Text → Bool
is_in a [] = false
is_in a (x ∷ xs) = text_eq a x || is_in a xs

abbrev pub dash : Text
dash = codes "-"

-- The options of `docker run` that the program uses and that are followed by a value.
abbrev pub takes_value : Text → Bool
takes_value a = is_in a (
    codes "--name"
    ∷ codes "--restart"
    ∷ codes "-p"
    ∷ codes "--network"
    ∷ codes "--security-opt"
    ∷ codes "--cap-drop"
    ∷ codes "--memory"
    ∷ codes "-v"
    ∷ codes "-e"
    ∷ [])

-- How docker documents that it reads arguments: an option that takes a value is followed by it,
-- whatever that is, and any other word that begins with a dash is an option without one; the first
-- other word is the image, and all behind it is the container's.
unfoldable pub read_options : List Text → CommandLine
read_options [] = record { options = []; rest = [] }
read_options (a ∷ []) =
    if has_prefix a dash
    then record { options = (a, []) ∷ []; rest = [] }
    else record { options = []; rest = a ∷ [] }
read_options (a ∷ b ∷ args) =
    let pair = with_option a b (read_options args) in
    let flag = with_option a [] (read_options (b ∷ args)) in
    if takes_value a
    then pair
    else if has_prefix a dash
    then flag
    else record { options = []; rest = a ∷ b ∷ args }

-- What a run is to say: its name, a restart, the port of the loopback interface if it has one, its
-- network, no privileges unless it is let off, its memory, its volumes and its environment.
abbrev pub labelled : Text → Text → List (Text × Text) → List (Text × Text)
labelled option between [] = []
labelled option between ((k, v) ∷ kvs) = (option, k ++ between ++ v) ∷ labelled option between kvs

abbrev pub loopback : RunSpec → Text
loopback s = codes "127.0.0.1:" ++ print_int s.host_port ++ codes ":" ++ print_int s.app_port

abbrev pub only_if : Bool → List (Text × Text) → List (Text × Text)
only_if true options = options
only_if false options = []

abbrev pub confined : List (Text × Text)
confined =
    (codes "--security-opt", codes "no-new-privileges") ∷ (codes "--cap-drop", codes "ALL") ∷ []

abbrev pub run_options : RunSpec → List (Text × Text)
run_options s =
    (codes "-d", [])
    ∷ (codes "--name", s.name)
    ∷ (codes "--restart", codes "unless-stopped")
    ∷ (only_if (ltb 0 s.host_port) ((codes "-p", loopback s) ∷ [])
        ++ (only_if (not (is_empty s.network)) ((codes "--network", s.network) ∷ [])
            ++ (only_if (not s.unhardened) confined
                ++ (only_if (ltb 0 s.memory_mb)
                      ((codes "--memory", print_int s.memory_mb ++ codes "m") ∷ [])
                    ++ (labelled (codes "-v") (codes ":") s.volumes
                        ++ labelled (codes "-e") (codes "=") s.env)))))

-- The words `front` are read as the options `opts`, whatever stands behind them.
abbrev Says : List Text → List (Text × Text) → Type 0
Says front opts =
    (args : List Text)
    → read_options (front ++ args)
      ≡ record (read_options args) { options = opts ++ (read_options args).options }

Says-nothing : Says [] []
Says-nothing args = refl

Says-pair : (a b : Text) → takes_value a ≡ true → Says (a ∷ b ∷ []) ((a, b) ∷ [])
unfolding read_options
Says-pair a b h args = rw h refl

Says-only_if :
    (b : Bool) (xs : List Text) (os : List (Text × Text))
    → Says xs os
    → Says (if b then xs else []) (only_if b os)
Says-only_if true xs os h = h
Says-only_if false xs os h = Says-nothing

Says-unless :
    (b : Bool) (xs : List Text) (os : List (Text × Text))
    → Says xs os
    → Says (if b then [] else xs) (only_if (not b) os)
Says-unless true xs os h = Says-nothing
Says-unless false xs os h = h

Says-each :
    (option between : Text) (kvs : List (Text × Text))
    → takes_value option ≡ true
    → Says (each option between kvs) (labelled option between kvs)
Says-each option between [] h args = refl
Says-each option between ((k, v) ∷ kvs) h args =
    let value = k ++ between ++ v in
    Says-pair option value h (each option between kvs ++ args)
    ∙ ap (with_option option value) (Says-each option between kvs h args)

Says-confined :
    Says
      (codes "--security-opt" ∷ codes "no-new-privileges" ∷ codes "--cap-drop" ∷ codes "ALL" ∷ [])
      confined
Says-confined args =
    Says-pair (codes "--security-opt") (codes "no-new-privileges") refl
      (codes "--cap-drop" ∷ codes "ALL" ∷ args)
    ∙ ap (with_option (codes "--security-opt") (codes "no-new-privileges"))
        (Says-pair (codes "--cap-drop") (codes "ALL") refl args)

Says-published :
    (s : RunSpec) → Says (publish s) (only_if (ltb 0 s.host_port) ((codes "-p", loopback s) ∷ []))
Says-published s =
    Says-only_if (ltb 0 s.host_port) (codes "-p" ∷ loopback s ∷ []) ((codes "-p", loopback s) ∷ [])
      (Says-pair (codes "-p") (loopback s) refl)

Says-joined :
    (s : RunSpec)
    → Says
        (join_network s)
        (only_if (not (is_empty s.network)) ((codes "--network", s.network) ∷ []))
Says-joined s =
    Says-unless (is_empty s.network) (codes "--network" ∷ s.network ∷ [])
      ((codes "--network", s.network) ∷ []) (Says-pair (codes "--network") s.network refl)

Says-limited :
    (s : RunSpec)
    → Says
        (limit_memory s)
        (only_if (ltb 0 s.memory_mb) ((codes "--memory", print_int s.memory_mb ++ codes "m") ∷ []))
Says-limited s =
    let limit = print_int s.memory_mb ++ codes "m" in
    Says-only_if (ltb 0 s.memory_mb) (codes "--memory" ∷ limit ∷ [])
      ((codes "--memory", limit) ∷ []) (Says-pair (codes "--memory") limit refl)

abbrev with_options : List (Text × Text) → CommandLine → CommandLine
with_options os c = record c { options = os ++ c.options }

-- A part, and what stands behind it.
then-Says :
    (xs : List Text) (os : List (Text × Text)) (args : List Text) (c : CommandLine)
    → Says xs os
    → read_options args ≡ c
    → read_options (xs ++ args) ≡ record c { options = os ++ c.options }
then-Says xs os args c h e = h args ∙ ap (with_options os) e

append_nil : (os : List (Text × Text)) → os ++ [] ≡ os
append_nil [] = refl
append_nil (o ∷ os) = ap (λ r. o ∷ r) (append_nil os)

abbrev line : RunSpec → List (Text × Text) → CommandLine
line s os = record { options = os; rest = s.image ∷ [] }

image_only :
    (s : RunSpec) → has_prefix s.image dash ≡ false → read_options (s.image ∷ []) ≡ line s []
unfolding read_options
image_only s plain = rw plain refl

detached :
    (b : Text) (args : List Text)
    → read_options (codes "-d" ∷ b ∷ args) ≡ with_option (codes "-d") [] (read_options (b ∷ args))
unfolding read_options
detached b args = refl

-- Whatever stands in a spec whose image does not begin with a dash, docker reads from it the options
-- that it is to say and no other: no name, volume, variable or network can add one. Without
-- `unhardened` the container has no privileges to gain and no capability, and its port is published
-- on the loopback interface only.
pub run_args-options :
    (s : RunSpec)
    → has_prefix s.image dash ≡ false
    → read_options (drop 1 (run_args s)) ≡ record { options = run_options s; rest = s.image ∷ [] }
unfolding run_args
run_args-options s plain =
    let env = labelled (codes "-e") (codes "=") s.env in
    let env_says = Says-each (codes "-e") (codes "=") s.env refl in
    let volumes = labelled (codes "-v") (codes ":") s.volumes in
    let memory =
      only_if (ltb 0 s.memory_mb) ((codes "--memory", print_int s.memory_mb ++ codes "m") ∷ []) in
    let guards = only_if (not s.unhardened) confined in
    let network = only_if (not (is_empty s.network)) ((codes "--network", s.network) ∷ []) in
    let port = only_if (ltb 0 s.host_port) ((codes "-p", loopback s) ∷ []) in
    let e6 =
      then-Says (set_env s.env) env _ (line s []) env_says (image_only s plain)
      ∙ ap (line s) (append_nil env) in
    let e5 =
      then-Says (mount s.volumes) volumes _ (line s env)
        (Says-each (codes "-v") (codes ":") s.volumes refl) e6 in
    let e4 = then-Says (limit_memory s) memory _ (line s (volumes ++ env)) (Says-limited s) e5 in
    let e3 =
      then-Says (harden s) guards _ (line s (memory ++ (volumes ++ env)))
        (Says-unless s.unhardened _ confined Says-confined) e4 in
    let e2 =
      then-Says (join_network s) network _ (line s (guards ++ (memory ++ (volumes ++ env))))
        (Says-joined s) e3 in
    let e1 =
      then-Says (publish s) port _ (line s (network ++ (guards ++ (memory ++ (volumes ++ env)))))
        (Says-published s) e2 in
    let restart = Says-pair (codes "--restart") (codes "unless-stopped") refl in
    let name = Says-pair (codes "--name") s.name refl in
    detached (codes "--name") _
    ∙ ap (with_option (codes "-d") []) (name _)
    ∙ ap (λ c. with_option (codes "-d") [] (with_option (codes "--name") s.name c))
        (restart _ ∙ ap (with_option (codes "--restart") (codes "unless-stopped")) e1)
