-- ===== src/Store/Projects/Names.antt =====
-- internal/store/projects.go: a name belongs to one project.
use orxies.Prelude.{ℕ, ◌≡◌, List, [], ◌∷◌, none}
use orxies.Store.Projects.{
  Project, ProjectTable, find_named, create_project, update_projects, update_project,
  without_project, delete_project_row,
}

-- No two rows have one name.
abbrev pub Named : List Project → Type 0
Named [] = Unit
Named (p ∷ rows) = (find_named p.name rows ≡ none) × Named rows

pub data Change : Type 0 where
  create : ℕ → Project → Change
  update : Project → Change
  delete : ℕ → Change

unfoldable pub changed : ProjectTable → Change → ProjectTable
unfolding create_project update_projects without_project
changed t (Change.create now p) = (create_project t now p).0
changed t (Change.update p) = update_project t p
changed t (Change.delete id) = delete_project_row t id

unfoldable pub run : ProjectTable → List Change → ProjectTable
unfolding changed
run t [] = t
run t (c ∷ cs) = run (changed t c) cs
