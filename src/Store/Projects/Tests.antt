-- ===== src/Store/Projects/Tests.antt =====
-- Projects of the same name, and the theorem at them.
use orxies.Prelude.{◌≡◌, refl, [], ◌∷◌, List, map, codes}
use orxies.Store.Projects.{
  Project, ProjectTable, find_named, create_project, update_projects, without_project,
}
use orxies.Store.Projects.Names.{Change, changed, run}

program : Unit {0}
unfolding find_named create_project update_projects without_project changed run
program = tt

abbrev empty : ProjectTable
empty = record { rows = []; seq = 0 }

abbrev blog : Project
blog = record {
  id = 0;
  name = codes "blog";
  source_path = [];
  strategy = codes "auto";
  build_cmd = [];
  run_cmd = [];
  app_port = 0;
  domain = codes "blog.io";
  created_at = 0;
  repo_url = [];
  branch = [];
  token_enc = [];
  webhook_secret = [];
  env_enc = [];
}

-- Twice the same name, then another, and the name again once its project is gone.
abbrev changes : List Change
changes =
    Change.create 10 blog
    ∷ Change.create 11 blog
    ∷ Change.create 12 (record blog { name = codes "shop" })
    ∷ Change.update (record blog { id = 1; name = codes "shop" })
    ∷ Change.delete 1
    ∷ Change.create 13 blog
    ∷ []

names_after : map (λ p. p.name) (run empty changes).rows ≡ codes "blog" ∷ codes "shop" ∷ []
unfolding program
names_after = refl
