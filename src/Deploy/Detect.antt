-- ===== src/Deploy/Detect.antt =====
-- internal/deploy/deploy.go: how a source tree is to be built, DetectSource.
-- The tree is what the file system answers: which plain files and which directories there are, the
-- names of the plain files of its root, and what package.json holds, `none` where it is not read.
use orxies.Prelude.{
  ℕ, Bool, false, ◌||◌, List, [], ◌∷◌, Option, none, some, if◌then◌else◌, Text, codes, contains,
  has_suffix,
}

pub record SourceTree : Type 0 where
  pub has : Text → Bool
  pub has_dir : Text → Bool
  pub root_files : List Text
  pub package_json : Option Text

pub record DetectInfo : Type 0 where
  pub strategy : Text
  pub framework : Text
  pub app_port : ℕ
  pub spa : Bool

abbrev pub any_file_with_ext : List Text → Text → Bool
any_file_with_ext [] ext = false
any_file_with_ext (name ∷ names) ext = has_suffix name ext || any_file_with_ext names ext

unfoldable pub js_framework : Option Text → Text
js_framework none = codes "Node.js"
js_framework (some s) =
    if contains s (codes "\"next\"")
    then codes "Next.js"
    else if contains s (codes "\"nuxt\"")
    then codes "Nuxt"
    else if contains s (codes "\"@angular/core\"")
    then codes "Angular"
    else if contains s (codes "\"vue\"")
    then codes "Vue"
    else if contains s (codes "\"vite\"") || contains s (codes "\"react\"")
    then codes "React/Vite"
    else codes "Node.js"

abbrev pub info : Text → Text → ℕ → DetectInfo
info strategy framework port = record {
  strategy = strategy;
  framework = framework;
  app_port = port;
  spa = false;
}

unfoldable pub detect_source : SourceTree → DetectInfo
unfolding js_framework
detect_source t =
    if t.has (codes "Dockerfile")
    then info (codes "dockerfile") (codes "Dockerfile") 0
    else if t.has (codes "docker-compose.yml")
        || t.has (codes "compose.yaml")
        || t.has (codes "compose.yml")
    then info (codes "dockerfile") (codes "docker-compose") 0
    else if t.has (codes "wp-config.php")
        || t.has (codes "wp-login.php")
        || t.has_dir (codes "wp-content")
    then info (codes "nixpacks") (codes "WordPress (PHP)") 80
    else if t.has (codes "composer.json") || any_file_with_ext t.root_files (codes ".php")
    then info (codes "nixpacks") (codes "PHP") 80
    else if t.has (codes "package.json")
    then info (codes "nixpacks") (js_framework t.package_json) 3000
    else if t.has (codes "requirements.txt")
        || t.has (codes "pyproject.toml")
        || t.has (codes "Pipfile")
    then info (codes "nixpacks") (codes "Python") 8000
    else if t.has (codes "go.mod")
    then info (codes "nixpacks") (codes "Go") 3000
    else if t.has (codes "Gemfile")
    then info (codes "nixpacks") (codes "Ruby") 3000
    else if t.has (codes "index.html")
    then info (codes "static") (codes "Static site") 0
    else info (codes "nixpacks") (codes "generic") 0
