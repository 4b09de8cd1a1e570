-- ===== src/Config/Tests.antt =====
-- Runs of the configuration's checks, and their theorems at concrete sites.
use orxies.Prelude.{
  to_lower, true, ◌≡◌, refl, true, false, [], ◌∷◌, Option, none, some, Text, codes, lookup, insert,
  text_key,
}
use orxies.Prelude.Int.{pos}
use orxies.Config.{
  Site, all_domains, valid_label, valid_labels, valid_trimmed, valid_hostname, valid_upstream,
  check_aliases, check_upstreams, check_backend, validate,
}
use orxies.Config.Hostnames.{all_safe, validate-safe}
use orxies.Config.Files.{sanitize_filename, site_filename, is_filename, site_filename-is_filename}
use orxies.Config.Index.{
  new_store, index_domains, index_sites, replace, canonical_host, lookup_host, header, last_named,
  lookup_host-replace,
}

program : Unit {0}
unfolding valid_label valid_labels valid_trimmed valid_hostname valid_upstream check_aliases
    check_upstreams check_backend validate sanitize_filename site_filename is_filename index_domains
    index_sites replace canonical_host lookup_host lookup insert
program = tt

abbrev parse_host : Text → Option Text
parse_host u = some u

abbrev shop : Site
shop = record {
  filename = [];
  domain = codes " shop.example.com ";
  aliases = codes "www.shop.example.com" ∷ [];
  upstreams = codes "127.0.0.1:8082" ∷ [];
  root = [];
  spa = false;
  enabled = true;
  tls = record { auto = true; cert_file = []; key_file = [] };
  http_to_https = true;
  web_socket = false;
  block_common_exploits = true;
  rate_limit = record {
    enabled = true;
    rps = pos 10;
    burst = pos 5;
    global_rps = pos 0;
    global_burst = pos 0;
    max_in_flight = pos 0;
  };
  custom_headers = [];
}

accepted : (validate parse_host shop).1 ≡ none
unfolding program
accepted = refl

validate-safe_example : all_safe (all_domains (validate parse_host shop).0) ≡ true
validate-safe_example = validate-safe parse_host shop accepted

filename_run : site_filename (codes "A/b..c") ≡ codes "a_b_c.yml"
unfolding program
filename_run = refl

site_filename-is_filename_example : is_filename (site_filename (codes "A/../b")) ≡ true
site_filename-is_filename_example = site_filename-is_filename (codes "A/../b")

abbrev trimmed : Site
trimmed = record shop { domain = codes "shop.example.com" }

found :
    lookup_host (replace new_store (trimmed ∷ [])) (codes "WWW.Shop.example.com:443") ≡ some trimmed
unfolding program
found = refl

lookup_host-replace_example :
    lookup_host
      (replace new_store (trimmed ∷ []))
      (header (codes "Shop.example.com") (codes "80") true)
    ≡ last_named (trimmed ∷ []) (to_lower (codes "Shop.example.com")) none
lookup_host-replace_example =
    lookup_host-replace new_store (trimmed ∷ []) (codes "Shop.example.com") (codes "80") true refl
