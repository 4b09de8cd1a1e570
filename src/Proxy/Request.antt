-- ===== src/Proxy/Request.antt =====
-- internal/proxy/router.go and ratelimit.go: what the router reads of a request.
-- The patterns of the source are matched on lower-case text, for ASCII letters. How `net` splits a
-- host from its port is a parameter.
use orxies.Prelude.{
  ℕ, Bool, false, ◌&&◌, ◌||◌, not, List, [], ◌∷◌, ◌++◌, Option, none, some, ◌==◌, if◌then◌else◌,
  Text, text_eq, codes, is_empty, to_lower, has_prefix, contains, cut, trim_space, take,
}
use orxies.Config.{is_label_byte}

-- A header that is absent is the empty text, as `Header.Get` gives it.
pub record Request : Type 0 where
  pub host : Text
  pub path : Text
  pub request_uri : Text
  pub tls : Bool
  pub user_agent : Text
  pub remote_addr : Text
  pub x_forwarded_for : Text
  pub x_real_ip : Text
  pub x_forwarded_proto : Text

abbrev any_prefix : List Text → Text → Bool
any_prefix [] s = false
any_prefix (p ∷ ps) s = has_prefix s p || any_prefix ps s

abbrev any_part : List Text → Text → Bool
any_part [] s = false
any_part (p ∷ ps) s = contains s p || any_part ps s

abbrev exploit_paths : List Text
exploit_paths =
    codes "/wp-admin"
    ∷ codes "/wp-login.php"
    ∷ codes "/wp-content"
    ∷ codes "/xmlrpc.php"
    ∷ codes "/.env"
    ∷ codes "/.git"
    ∷ codes "/phpmyadmin"
    ∷ codes "/administrator"
    ∷ codes "/cgi-bin"
    ∷ codes "/server-status"
    ∷ codes "/owa/"
    ∷ []

abbrev scanner_agents : List Text
scanner_agents =
    codes "sqlmap"
    ∷ codes "nikto"
    ∷ codes "nmap"
    ∷ codes "masscan"
    ∷ codes "acunetix"
    ∷ codes "nessus"
    ∷ codes "libwww-perl"
    ∷ codes "whatweb"
    ∷ codes "wpscan"
    ∷ []

unfoldable pub common_exploit_pattern : Text → Bool
common_exploit_pattern path = any_prefix exploit_paths (to_lower path)

unfoldable pub scanner_ua : Text → Bool
scanner_ua agent = any_part scanner_agents (to_lower agent)

abbrev pub comma : ℕ
comma = 44

abbrev pub scheme_of : Request → Text
scheme_of r =
    if r.tls
    then codes "https"
    else if is_empty r.x_forwarded_proto
    then codes "http"
    else r.x_forwarded_proto

abbrev logged_byte : ℕ → Bool
logged_byte c = is_label_byte c || c == 46 || c == 58

abbrev logged_bytes : Text → Text
logged_bytes [] = []
logged_bytes (c ∷ s) = let rest = logged_bytes s in if logged_byte c then c ∷ rest else rest

unfoldable pub sanitize_host_for_log : Text → Text
sanitize_host_for_log host = logged_bytes (take 253 host)

abbrev ends_in_slash : Text → Bool
ends_in_slash [] = false
ends_in_slash (a ∷ []) = a == 47
ends_in_slash (a ∷ b ∷ s) = ends_in_slash (b ∷ s)

abbrev pub single_join : Text → Text → Text
single_join a [] = if is_empty a || text_eq a (codes "/") then [] else a
single_join a (c ∷ b) =
    if is_empty a || text_eq a (codes "/")
    then c ∷ b
    else if text_eq (c ∷ b) (codes "/")
    then a
    else if ends_in_slash a && c == 47
    then a ++ b
    else if not (ends_in_slash a) && not (c == 47)
    then a ++ (47 ∷ c ∷ b)
    else a ++ (c ∷ b)

module _ (split_host : Text → Option Text) where
  -- The direct peer, without its port.
  abbrev pub peer_ip : Text → Text
  peer_ip remote_addr = elim (split_host remote_addr) [ none ↦ remote_addr | some host ↦ host ]

  unfoldable pub client_ip : Bool → Request → Text
  client_ip trust r =
      if trust && not (is_empty r.x_forwarded_for)
      then elim (cut r.x_forwarded_for comma) [
        | none ↦ trim_space r.x_forwarded_for
        | some hops ↦ trim_space hops.0
      ]
      else if trust && not (is_empty r.x_real_ip)
      then trim_space r.x_real_ip
      else peer_ip r.remote_addr
