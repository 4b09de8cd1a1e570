-- ===== src/Deploy/Containers/Live.antt =====
-- internal/deploy/deploy.go: what a container that goes live leaves behind, and what a failed one does
-- not touch.
use orxies.Prelude.{
  ℕ, suc, ◌≡◌, refl, sym, ◌∙◌, ap, Bool, true, List, [], ◌∷◌, Option, none, some, ◌==◌,
  if◌then◌else◌, Text, text_key, text_eq_refl, nat_key, trim_space, lookup, insert, lookup-insert,
  arith, Bool-cases, Option-cases, inl, inr,
}
use mathlib.Core.Path.{subst}
use orxies.Config.{Site, SiteError, validate}
use orxies.Config.Files.{save_name, site_filename}
use orxies.Config.Kept.{validate-Kept}
use orxies.Store.Projects.{Project}
use orxies.Store.Deployments.{
  Deployment, status_running, with_columns, update_rows, find_row, get_deployment, rows_of,
}
use orxies.Deploy.{Orchestrator, Manager, World}
use orxies.Deploy.Sites.{unless_error, load_site, save_site, upstream_of, proxy_site, site_for}
use orxies.Deploy.Containers.{
  Inputs, DeployError, ended, fail, succeed, drain_old, put_live, run_image,
}
use orxies.Deploy.Containers.Ports.{IsHeld, rows_of-AllOwned, insert-Held}
use orxies.Deploy.Containers.Drains.{
  drain-lookup, drain-find_row, drain-files, NoneOld, drain_old-NoneOld,
}
use orxies.Deploy.Containers.Endings.{
  Calls, failed, flipped, run_image-Ending, Unrouted, fail-Unrouted,
}

put_live-ok :
    {D : Type 0} (m : Manager D) (i : Inputs) (p : Project) (d : Deployment) (w : World D)
    → (put_live m i p d w).1 ≡ none
unfolding succeed
put_live-ok m i p d w = refl

-- An image that does not go live leaves every route and every other deployment as it was, whatever
-- went wrong: no free port, the agent, the health check or the file of the site.
pub run_image-Unrouted :
    {D : Type 0} (m : Manager D) (agent : Orchestrator D) (i : Inputs) (w : World D) (p : Project)
    (d : Deployment) (image : Text) (e : DeployError)
    → (run_image m agent i w p d image).1 ≡ some e
    → Unrouted (some agent) w d.id (run_image m agent i w p d image).0
run_image-Unrouted m agent i w p d image e h = elim (run_image-Ending m i p agent w d image) [
  | failed docker ports d' e' same calls kept eq ↦
      let left =
        λ (n : ℕ). (fail (record w { docker = docker; ports = ports }) d' i.finished e').0 in
      subst (λ r. Unrouted (some agent) w d.id r.0) (sym eq)
        (subst (λ n. Unrouted (some agent) w n (left n)) same
          (fail-Unrouted (some agent) w docker ports d' i.finished e'
            (subst (λ n. Calls (some agent) n w.docker docker) (sym same) calls) kept))
  | flipped docker ports d' files same own free saved eq ↦ absurd (
      cc (
        h,
        ap (λ r. r.1) eq,
        put_live-ok m i p d'
            (record w { docker = docker; ports = ports; files = files; reloads = suc w.reloads }),
      ))
]

find_row-update_rows_self :
    (d : Deployment) (rows : List Deployment) (row : Deployment)
    → find_row d.id rows ≡ some row
    → find_row d.id (update_rows d rows) ≡ some (with_columns d row)
unfolding find_row update_rows
find_row-update_rows_self d [] row h = ground arith
find_row-update_rows_self d (r ∷ rows) row h = elim (Bool-cases (r.id == d.id)) [
  | inl same ↦ ground (arith, same)
  | inr other ↦ ground (arith, other, find_row-update_rows_self d rows row (ground (arith, other)))
]

update_rows-NoneOld :
    (project : ℕ) (d : Deployment) (rows : List Deployment)
    → NoneOld project d.id rows
    → NoneOld project d.id (update_rows d rows)
unfolding update_rows
update_rows-NoneOld project d [] h = tt
update_rows-NoneOld project d (r ∷ rows) h = elim (Bool-cases (r.id == d.id)) [
  | inl same ↦ rw same (ground (arith, same), update_rows-NoneOld project d rows h.1)
  | inr other ↦ rw other (h.0, update_rows-NoneOld project d rows h.1)
]

save_validated :
    (disk_ok : Bool) (files files' : List (Text × Site)) (r : Site × Option SiteError)
    → elim (unless_error r) [
      | none ↦ none
      | some s' ↦ if disk_ok then some (insert (save_name s') s' files) else none
    ]
      ≡ some files'
    → (r.1 ≡ none) × (insert (save_name r.0) r.0 files ≡ files')
save_validated disk_ok files files' (s, some e) h = absurd (ground arith)
save_validated disk_ok files files' (s, none) h = ground arith

-- What a live container leaves behind: its deployment runs on a port that is its own, some file has
-- a site of the domain that is enabled, has that port for its only upstream and no root, and every
-- other row of the project with a container is stopped.
pub record IsLive {D : Type 0} (w : World D) (p : Project) (id : ℕ) : Type 0 where
  pub deployment : Deployment
  pub name : Text
  pub site : Site
  pub found : get_deployment w.deployments id ≡ some deployment
  pub running : deployment.status ≡ status_running
  pub owner : lookup deployment.host_port w.ports ≡ some id
  pub written : lookup name w.files ≡ some site
  pub domain : site.domain ≡ trim_space p.domain
  pub enabled : site.enabled ≡ true
  pub upstreams : site.upstreams ≡ upstream_of deployment.host_port ∷ []
  pub root : site.root ≡ []
  pub others : NoneOld p.id id w.deployments.rows

lookup-insert_self :
    (name : Text) (s : Site) (files : List (Text × Site))
    → lookup name (insert name s files) ≡ some s
lookup-insert_self name s files = lookup-insert name name s files ∙ rw (text_eq_refl name) refl

-- A route that is written for a container that holds its port.
put_live-IsLive :
    {D : Type 0} (m : Manager D) (i : Inputs) (p : Project) (d row : Deployment) (w : World D)
    (name : Text) (site : Site)
    → IsHeld w
    → find_row d.id w.deployments.rows ≡ some row
    → lookup d.host_port w.ports ≡ some d.id
    → lookup name w.files ≡ some site
    → site.domain ≡ trim_space p.domain
    → site.enabled ≡ true
    → site.upstreams ≡ upstream_of d.host_port ∷ []
    → site.root ≡ []
    → IsLive (put_live m i p d w).0 p d.id
unfolding succeed drain_old
put_live-IsLive m i p d row w name site held found own written domain enabled upstreams root =
    let ds = rows_of p.id w.deployments.rows in
    let done = ended d status_running i.finished in
    let drained = drain_old m w p.id d.id in
    record {
      deployment = with_columns done row;
      name = name;
      site = site;
      found =
          find_row-update_rows_self done drained.deployments.rows row
            (drain-find_row m w d.id ds ∙ found);
      running = refl;
      owner =
          drain-lookup m w d.id d.host_port ds
            (rows_of-AllOwned w.ports p.id w.deployments.rows held) own;
      written = ap (lookup name) (drain-files m w d.id ds) ∙ written;
      domain = domain;
      enabled = enabled;
      upstreams = upstreams;
      root = root;
      others =
          update_rows-NoneOld p.id done drained.deployments.rows (drain_old-NoneOld m w p.id d.id);
    }

proxy_site-domain :
    {D : Type 0} (m : Manager D) (w : World D) (p : Project) (port : ℕ)
    → (proxy_site port (site_for m w p.domain)).domain ≡ p.domain
unfolding site_for load_site
proxy_site-domain m w p port =
    elim (Option-cases (load_site m.parse_host w.files (site_filename p.domain))) [
      | inl new ↦ ground (arith, new)
      | inr (s, old) ↦ ground (arith, old)
    ]

-- An image that is run without an error is live: the port of its deployment is its own also after
-- the older containers of the project are drained.
pub run_image-IsLive :
    {D : Type 0} (m : Manager D) (agent : Orchestrator D) (i : Inputs) (w : World D) (p : Project)
    (d row : Deployment) (image : Text)
    → IsHeld w
    → find_row d.id w.deployments.rows ≡ some row
    → (run_image m agent i w p d image).1 ≡ none
    → IsLive (run_image m agent i w p d image).0 p d.id
unfolding save_site fail
run_image-IsLive m agent i w p d row image held found h =
    elim (run_image-Ending m i p agent w d image) [
      | failed docker ports d' e' same calls kept eq ↦ absurd (cc (h, ap (λ r. r.1) eq))
      | flipped docker ports d' files same own free saved eq ↦
          let s = proxy_site d'.host_port (site_for m w p.domain) in
          let v = validate m.parse_host s in
          let kept = validate-Kept m.parse_host s in
          let ok = save_validated i.disk_ok w.files files v saved in
          let w' = record w {
            docker = docker;
            ports = ports;
            files = files;
            reloads = suc w.reloads;
          } in
          let live =
            put_live-IsLive m i p d' row w' (save_name v.0) v.0
              (rw own (insert-Held w.ports d'.host_port d.id w.deployments.rows free held))
              (subst (λ n. find_row n w.deployments.rows ≡ some row) (sym same) found)
              (ground (arith, own, same, lookup-insert d'.host_port d'.host_port d.id w.ports))
              (subst (λ f. lookup (save_name v.0) f ≡ some v.0) ok.1
                (lookup-insert_self (save_name v.0) v.0 w.files))
              (kept.domain ∙ ap trim_space (proxy_site-domain m w p d'.host_port)) kept.enabled
              kept.upstreams (kept.root ok.0) in
          let done = put_live m i p d' w' in
          subst (λ r. IsLive r.0 p d.id) (sym eq) (subst (λ n. IsLive done.0 p n) same live)
    ]
