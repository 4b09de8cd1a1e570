-- ===== src/Store/Projects.antt =====
-- internal/store/projects.go: the table of projects.
-- The rows stand newest first, as those of Store/Deployments. The unique name is a constraint of the
-- table: an insertion that breaks it fails and changes nothing.
pub mod Names
mod Tests
use orxies.Prelude.{
  ℕ, suc, Bool, true, false, ◌||◌, List, [], ◌∷◌, Option, none, some, ◌==◌, if◌then◌else◌, Text,
  text_eq,
}

pub record Project : Type 0 where
  pub id : ℕ
  pub name : Text
  pub source_path : Text
  pub strategy : Text
  pub build_cmd : Text
  pub run_cmd : Text
  pub app_port : ℕ
  pub domain : Text
  pub created_at : ℕ
  pub repo_url : Text
  pub branch : Text
  pub token_enc : Text
  pub webhook_secret : Text
  pub env_enc : Text

pub record ProjectTable : Type 0 where
  pub rows : List Project
  pub seq : ℕ

unfoldable pub find_named : Text → List Project → Option Project
find_named name [] = none
find_named name (p ∷ rows) = if text_eq p.name name then some p else find_named name rows

unfoldable pub find_project : ℕ → List Project → Option Project
find_project id [] = none
find_project id (p ∷ rows) = if p.id == id then some p else find_project id rows

abbrev pub new_project : ℕ → ℕ → Project → Project
new_project id now p = record p {
  id = id;
  created_at = if p.created_at == 0 then now else p.created_at;
}

-- The table after an insertion, with what the query for the name finds.
abbrev pub insert_unless : ProjectTable → ℕ → Project → Option Project → ProjectTable × Option ℕ
insert_unless t now p (some other) = (t, none)
insert_unless t now p none =
    (record { rows = new_project (suc t.seq) now p ∷ t.rows; seq = suc t.seq }, some (suc t.seq))

unfoldable pub create_project : ProjectTable → ℕ → Project → ProjectTable × Option ℕ
unfolding find_named
create_project t now p = insert_unless t now p (find_named p.name t.rows)

abbrev pub get_project : ProjectTable → ℕ → Option Project
get_project t id = find_project id t.rows

abbrev pub project_by_name : ProjectTable → Text → Option Project
project_by_name t name = find_named name t.rows

abbrev pub list_projects : ProjectTable → List Project
list_projects t = t.rows

-- The columns that `UpdateProject` sets.
abbrev pub with_project_columns : Project → Project → Project
with_project_columns p row = record row {
  source_path = p.source_path;
  strategy = p.strategy;
  build_cmd = p.build_cmd;
  run_cmd = p.run_cmd;
  app_port = p.app_port;
  domain = p.domain;
  repo_url = p.repo_url;
  branch = p.branch;
  token_enc = p.token_enc;
  webhook_secret = p.webhook_secret;
  env_enc = p.env_enc;
}

unfoldable pub update_projects : Project → List Project → List Project
update_projects p [] = []
update_projects p (row ∷ rows) =
    let rest = update_projects p rows in
    if row.id == p.id then with_project_columns p row ∷ rest else row ∷ rest

abbrev pub update_project : ProjectTable → Project → ProjectTable
update_project t p = record t { rows = update_projects p t.rows }

unfoldable pub without_project : ℕ → List Project → List Project
without_project id [] = []
without_project id (row ∷ rows) =
    let rest = without_project id rows in if row.id == id then rest else row ∷ rest

abbrev pub delete_project_row : ProjectTable → ℕ → ProjectTable
delete_project_row t id = record t { rows = without_project id t.rows }
