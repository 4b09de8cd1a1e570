-- ===== src/Store/Services.antt =====
-- internal/store/services.go: the managed services and their links to projects.
-- The rows of services stand newest first, as those of Store/Deployments. The unique name of a
-- service is a constraint of the table: an insertion that breaks it fails and changes nothing. A
-- link names rows that exist, which the callers check.
pub mod Links
mod Tests
use orxies.Prelude.{
  ℕ, suc, Bool, true, false, ◌&&◌, ◌||◌, not, List, [], ◌∷◌, ◌++◌, Option, none, some, ◌==◌,
  if◌then◌else◌, Text, text_eq,
}

pub record Service : Type 0 where
  pub id : ℕ
  pub name : Text
  pub engine : Text
  pub mode : Text
  pub container_id : Text
  pub status : Text
  pub creds_enc : Text
  pub created_at : ℕ

-- A link is a project and a service.
pub record ServiceTable : Type 0 where
  pub rows : List Service
  pub seq : ℕ
  pub links : List (ℕ × ℕ)

abbrev pub name_taken : Text → List Service → Bool
name_taken name [] = false
name_taken name (s ∷ rows) = text_eq s.name name || name_taken name rows

abbrev new_service : ℕ → ℕ → Service → Service
new_service id now s = record s {
  id = id;
  created_at = if s.created_at == 0 then now else s.created_at;
}

unfoldable pub create_service : ServiceTable → ℕ → Service → ServiceTable × Option ℕ
create_service t now s = if name_taken s.name t.rows then (t, none) else (
  record t { rows = new_service (suc t.seq) now s ∷ t.rows; seq = suc t.seq },
  some (suc t.seq),
)

unfoldable pub find_service : ℕ → List Service → Option Service
find_service id [] = none
find_service id (s ∷ rows) = if s.id == id then some s else find_service id rows

abbrev pub get_service : ServiceTable → ℕ → Option Service
get_service t id = find_service id t.rows

abbrev pub list_services : ServiceTable → List Service
list_services t = t.rows

unfoldable pub update_services : Service → List Service → List Service
update_services s [] = []
update_services s (r ∷ rows) =
    let rest = update_services s rows in
    if r.id == s.id
    then record r { container_id = s.container_id; status = s.status; creds_enc = s.creds_enc }
      ∷ rest
    else r ∷ rest

abbrev pub update_service : ServiceTable → Service → ServiceTable
update_service t s = record t { rows = update_services s t.rows }

unfoldable pub without_service : ℕ → List Service → List Service
without_service id [] = []
without_service id (r ∷ rows) =
    let rest = without_service id rows in if r.id == id then rest else r ∷ rest

-- The links that a test lets stand.
unfoldable pub keep_links : (ℕ → ℕ → Bool) → List (ℕ × ℕ) → List (ℕ × ℕ)
keep_links p [] = []
keep_links p ((a, b) ∷ ls) = let rest = keep_links p ls in if p a b then (a, b) ∷ rest else rest

-- With its links, by the cascade of the table `project_services`.
abbrev pub delete_service : ServiceTable → ℕ → ServiceTable
delete_service t id = record t {
  rows = without_service id t.rows;
  links = keep_links (λ a b. not (b == id)) t.links;
}

unfoldable pub is_linked : List (ℕ × ℕ) → ℕ → ℕ → Bool
is_linked [] project service = false
is_linked ((a, b) ∷ ls) project service =
    (a == project && b == service) || is_linked ls project service

-- `INSERT OR IGNORE`.
unfoldable pub link_service : List (ℕ × ℕ) → ℕ → ℕ → List (ℕ × ℕ)
unfolding is_linked
link_service ls project service =
    if is_linked ls project service then ls else (project, service) ∷ ls

unfoldable pub unlink_service : List (ℕ × ℕ) → ℕ → ℕ → List (ℕ × ℕ)
unfolding keep_links
unlink_service ls project service = keep_links (λ a b. not (a == project && b == service)) ls

unfoldable pub link_all : List ℕ → ℕ → List (ℕ × ℕ) → List (ℕ × ℕ)
unfolding link_service
link_all [] project ls = ls
link_all (id ∷ ids) project ls = link_all ids project (link_service ls project id)

unfoldable pub set_project_services : List (ℕ × ℕ) → ℕ → List ℕ → List (ℕ × ℕ)
unfolding keep_links link_all
set_project_services ls project ids =
    link_all ids project (keep_links (λ a b. not (a == project)) ls)

-- In the order of the numbers of the services, which is the rows' from the last one on.
unfoldable pub linked_rows : List Service → List (ℕ × ℕ) → ℕ → List Service
unfolding is_linked
linked_rows [] ls project = []
linked_rows (s ∷ rows) ls project =
    let rest = linked_rows rows ls project in
    if is_linked ls project s.id then rest ++ (s ∷ []) else rest

abbrev pub linked_services : ServiceTable → ℕ → List Service
linked_services t project = linked_rows t.rows t.links project
