-- ===== src/Store/Services/Tests.antt =====
-- Links of two projects, and the theorem at them.
use orxies.Prelude.{ℕ, ◌≡◌, refl, List, [], ◌∷◌}
use orxies.Store.Services.{is_linked, keep_links, link_service, link_all, set_project_services}

abbrev links : List (ℕ × ℕ)
links = (1, 5) ∷ (2, 5) ∷ []

set_run : set_project_services links 1 (6 ∷ 7 ∷ 6 ∷ []) ≡ (1, 7) ∷ (1, 6) ∷ (2, 5) ∷ []
unfolding set_project_services link_all link_service is_linked keep_links
set_run = refl
