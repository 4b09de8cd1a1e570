-- ===== src/Deploy/Sites.antt =====
-- internal/deploy/deploy.go and internal/config/config.go: the files of the sites that the manager
-- reads and writes. A file is the site that it decodes to.
use orxies.Prelude.{
  ℕ, Bool, true, false, List, [], ◌∷◌, ◌++◌, Option, none, some, if◌then◌else◌, Text, text_eq,
  text_key, nat_key, codes, lookup, insert, delete,
}
use orxies.Prelude.Decimal.{print_int}
use orxies.Config.{Site, SiteError, validate}
use orxies.Config.Files.{is_filename, site_filename, save_name}
use orxies.Prelude.Int.{pos}
use orxies.Store.Projects.{Project}
use orxies.Deploy.{Manager, World}

abbrev pub blank_site : Text → Site
blank_site domain = record {
  filename = [];
  domain = domain;
  aliases = [];
  upstreams = [];
  root = [];
  spa = false;
  enabled = false;
  tls = record { auto = false; cert_file = []; key_file = [] };
  http_to_https = false;
  web_socket = false;
  block_common_exploits = false;
  rate_limit = record {
    enabled = false;
    rps = pos 0;
    burst = pos 0;
    global_rps = pos 0;
    global_burst = pos 0;
    max_in_flight = pos 0;
  };
  custom_headers = [];
}

abbrev pub unless_error : Site × Option SiteError → Option Site
unless_error (s, some e) = none
unless_error (s, none) = some s

-- `config.LoadSite`.
unfoldable pub load_site : (Text → Option Text) → List (Text × Site) → Text → Option Site
load_site parse_host files name =
    if is_filename name
    then elim (lookup name files) [
      | none ↦ none
      | some s ↦ unless_error (validate parse_host (record s { filename = name }))
    ]
    else none

-- The site of a domain, and whether there was none yet.
unfoldable pub site_for : {D : Type 0} → Manager D → World D → Text → Site × Bool
unfolding load_site
site_for m w domain = elim (load_site m.parse_host w.files (site_filename domain)) [
  | none ↦ (blank_site domain, true)
  | some s ↦ (record s { domain = domain }, false)
]

-- `config.SaveSite`, `none` for an error.
unfoldable pub save_site :
    (Text → Option Text) → Bool → List (Text × Site) → Site → Option (List (Text × Site))
unfolding insert
save_site parse_host disk_ok files s = elim (unless_error (validate parse_host s)) [
  | none ↦ none
  | some s' ↦ if disk_ok then some (insert (save_name s') s' files) else none
]

abbrev pub static_site : Project → Text → Site → Site
static_site p src s = record s {
  enabled = true;
  root = src;
  spa = text_eq p.run_cmd (codes "spa");
  upstreams = [];
}

abbrev pub upstream_of : ℕ → Text
upstream_of port = codes "127.0.0.1:" ++ print_int port

abbrev pub proxy_site : ℕ → Site × Bool → Site
proxy_site port (s, fresh) = record s {
  enabled = true;
  upstreams = upstream_of port ∷ [];
  root = [];
  web_socket = if fresh then true else s.web_socket;
}

-- `config.DeleteSite`, whose error is passed over.
unfoldable pub delete_site : List (Text × Site) → Text → List (Text × Site)
unfolding delete
delete_site files name = if is_filename name then delete name files else files
