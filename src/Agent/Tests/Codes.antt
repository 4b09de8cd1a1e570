-- ===== src/Agent/Tests/Codes.antt =====
-- An encoding that stands for `encoding/json` and base64 in the tests of the agent.
use orxies.Prelude.{
  ℕ, zero, suc, ◌≡◌, refl, ap, ◌∙◌, Bool, true, false, List, [], ◌∷◌, Option, none, some, ◌==◌,
  if◌then◌else◌, length, Text,
}
use orxies.Agent.{BuildSpec, RunSpec, ExecSpec, Wire}
use orxies.Agent.Client.Refines.{IsWire}

-- A value in front of a text.
pub record Code (A : Type 0) : Type 0 where
  pub enc : A → Text → Text
  pub dec : Text → Option (A × Text)
  pub law : (a : A) (rest : Text) → dec (enc a rest) ≡ some (a, rest)

abbrev pub number_dec : Text → Option (ℕ × Text)
number_dec [] = none
number_dec (n ∷ s) = some (n, s)

abbrev pub number : Code ℕ
number = record { enc = λ n rest. n ∷ rest; dec = number_dec; law = λ n rest. refl }

abbrev pub flag_dec : Text → Option (Bool × Text)
flag_dec [] = none
flag_dec (n ∷ s) = some (n == 1, s)

pub flag_law : (b : Bool) (rest : Text) → flag_dec ((if b then 1 else 0) ∷ rest) ≡ some (b, rest)
flag_law true rest = refl
flag_law false rest = refl

abbrev pub flag : Code Bool
flag = record { enc = λ b rest. (if b then 1 else 0) ∷ rest; dec = flag_dec; law = flag_law }

abbrev pub second : {A B : Type 0} → A → Option (B × Text) → Option ((A × B) × Text)
second a none = none
second a (some (b, s)) = some ((a, b), s)

abbrev pub first : {A B : Type 0} → Code B → Option (A × Text) → Option ((A × B) × Text)
first d none = none
first d (some (a, s)) = second a (d.dec s)

abbrev pub both : {A B : Type 0} → Code A → Code B → Code (A × B)
both c d = record {
  enc = λ p rest. c.enc p.0 (d.enc p.1 rest);
  dec = λ s. first d (c.dec s);
  law = λ p rest. ap (first d) (c.law p.0 (d.enc p.1 rest)) ∙ ap (second p.0) (d.law p.1 rest);
}

abbrev pub onto : {A : Type 0} → A → Option (List A × Text) → Option (List A × Text)
onto a none = none
onto a (some (xs, s)) = some (a ∷ xs, s)

abbrev pub step :
    {A : Type 0} → (Text → Option (List A × Text)) → Option (A × Text) → Option (List A × Text)
step more none = none
step more (some (a, s)) = onto a (more s)

abbrev pub dec_some : {A : Type 0} → Code A → ℕ → Text → Option (List A × Text)
dec_some c zero s = some ([], s)
dec_some c (suc n) s = step (dec_some c n) (c.dec s)

abbrev pub enc_all : {A : Type 0} → Code A → List A → Text → Text
enc_all c [] rest = rest
enc_all c (x ∷ xs) rest = c.enc x (enc_all c xs rest)

abbrev pub list_dec : {A : Type 0} → Code A → Text → Option (List A × Text)
list_dec c [] = none
list_dec c (n ∷ s) = dec_some c n s

pub list_law :
    {A : Type 0} (c : Code A) (xs : List A) (rest : Text)
    → dec_some c (length xs) (enc_all c xs rest) ≡ some (xs, rest)
list_law c [] rest = refl
list_law c (x ∷ xs) rest =
    ap (step (dec_some c (length xs))) (c.law x (enc_all c xs rest))
    ∙ ap (onto x) (list_law c xs rest)

abbrev pub many : {A : Type 0} → Code A → Code (List A)
many c = record {
  enc = λ xs rest. length xs ∷ enc_all c xs rest;
  dec = list_dec c;
  law = list_law c;
}

abbrev pub text : Code Text
text = many number

abbrev pub entries : Code (List (Text × Text))
entries = many (both text text)

abbrev pub value : {A B : Type 0} → (A → B) → Option (A × Text) → Option B
value f none = none
value f (some (a, s)) = some (f a)

abbrev pub read_as : {A B : Type 0} → Code A → (A → B) → Text → Option B
read_as c f t = value f (c.dec t)

abbrev pub builds : Code (Text × (Text × (Text × Text)))
builds = both text (both text (both text text))

abbrev pub build_spec : Text × (Text × (Text × Text)) → BuildSpec
build_spec (a, (b, (c, d))) = record { name = a; source_path = b; strategy = c; dockerfile = d }

abbrev pub Run : Type 0
Run = (Text × Text) × ((ℕ × ℕ) × ((List (Text × Text) × ℕ) × (Text × (List (Text × Text) × Bool))))

abbrev pub runs : Code Run
runs =
    both (both text text)
      (both (both number number) (both (both entries number) (both text (both entries flag))))

abbrev pub run_spec : Run → RunSpec
run_spec ((a, b), ((c, d), ((e, f), (g, (h, i))))) = record {
  name = a;
  image = b;
  host_port = c;
  app_port = d;
  env = e;
  memory_mb = f;
  network = g;
  volumes = h;
  unhardened = i;
}

abbrev pub run_parts : RunSpec → Run
run_parts s = (
  (s.name, s.image),
  ((s.host_port, s.app_port), ((s.env, s.memory_mb), (s.network, (s.volumes, s.unhardened)))),
)

abbrev pub execs : Code (Text × (List (Text × Text) × List Text))
execs = both text (both entries (many text))

abbrev pub exec_spec : Text × (List (Text × Text) × List Text) → ExecSpec
exec_spec (a, (b, c)) = record { container = a; env = b; cmd = c }

abbrev pub wire : Wire
wire = record {
  build_json = λ s. builds.enc (s.name, (s.source_path, (s.strategy, s.dockerfile))) [];
  build_of = read_as builds build_spec;
  run_json = λ s. runs.enc (run_parts s) [];
  run_of = read_as runs run_spec;
  exec_json = λ s. execs.enc (s.container, (s.env, s.cmd)) [];
  exec_of = read_as execs exec_spec;
  name_json = λ s. s;
  name_of = λ s. some s;
  id_json = λ s. s;
  id_of = λ s. some s;
  status_json = λ s. s.state;
  health_json = λ h. h.detail;
  base64 = λ s. s;
  unbase64 = λ s. some s;
  clean_path = λ p. p;
}

pub wire-IsWire : IsWire wire
wire-IsWire = record { bytes = λ s. refl; clean = λ p plain. refl }

-- Whatever a spec holds, it comes back.
build_back : (s : BuildSpec) → wire.build_of (wire.build_json s) ≡ some s
build_back s =
    ap (value build_spec) (builds.law (s.name, (s.source_path, (s.strategy, s.dockerfile))) [])

run_back : (s : RunSpec) → wire.run_of (wire.run_json s) ≡ some s
run_back s = ap (value run_spec) (runs.law (run_parts s) [])

exec_back : (s : ExecSpec) → wire.exec_of (wire.exec_json s) ≡ some s
exec_back s = ap (value exec_spec) (execs.law (s.container, (s.env, s.cmd)) [])
