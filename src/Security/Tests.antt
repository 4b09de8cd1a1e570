-- ===== src/Security/Tests.antt =====
-- Runs of the headers and of the allowlist, and their theorems at concrete inputs.
use orxies.Prelude.{
  ◌≡◌, refl, ap, sym, ◌∙◌, Bool, true, false, ◌||◌, none, contains, ◌++◌, List, [], ◌∷◌, Option,
  some, Text, codes, text_eq, lookup, insert, text_key,
}
use orxies.Security.{
  HeaderMap, set_all, headers, edge_headers, merge_edge_headers, parse_cidrs, ip_allowed, with_mask,
}
use orxies.Security.Edge.{or_else, merge_edge_headers-lookup}
use orxies.Security.Allowlist.{
  all_blank, any_covers, IsHost, with_mask-v4, with_mask-v6, ip_allowed-covers,
}

program : Unit {0}
unfolding set_all headers merge_edge_headers parse_cidrs ip_allowed lookup insert
program = tt

abbrev custom : HeaderMap
custom = (codes "X-Frame-Options", codes "DENY") ∷ []

overridden : lookup (codes "X-Frame-Options") (merge_edge_headers custom) ≡ some (codes "DENY")
unfolding program
overridden = refl

hardened : lookup (codes "X-Frame-Options") (headers true []) ≡ some (codes "DENY")
unfolding program
hardened = refl

merge_edge_headers-lookup_example :
    lookup (codes "Referrer-Policy") (merge_edge_headers custom)
    ≡ or_else
        (lookup (codes "Referrer-Policy") custom)
        (lookup (codes "Referrer-Policy") edge_headers)
unfolding lookup
merge_edge_headers-lookup_example =
    merge_edge_headers-lookup custom (codes "Referrer-Policy") (refl, tt)

-- A network is the text of its mask, an address its text with the mask of one host.
abbrev parse_cidr : Text → Option Text
parse_cidr t = some t

abbrev parse_ip : Text → Option Text
parse_ip t = some (with_mask t)

abbrev split_host : Text → Option Text
split_host t = some t

abbrev same_text : Text → Text → Bool
same_text n ip = text_eq n ip

abbrev items : List Text
items = codes " 10.0.0.7" ∷ codes "" ∷ []

parsed : parse_cidrs parse_cidr items ≡ some (codes "10.0.0.7/32" ∷ [])
unfolding program
parsed = refl

let_in :
    ip_allowed parse_ip split_host same_text (codes "10.0.0.7/32" ∷ []) (codes "10.0.0.7") ≡ true
unfolding program
let_in = refl

text_of : (t n : Text) → parse_cidr t ≡ some n → n ≡ t
text_of t n e = ap (λ o. elim o [ none ↦ t | some x ↦ x ]) (sym e)

IsHost-v4 :
    (it : Text)
    → contains it (codes "/") ≡ false
    → contains it (codes ":") ≡ false
    → IsHost parse_cidr parse_ip split_host same_text same_text it (codes "/32")
IsHost-v4 it bare v4 n e none = refl
IsHost-v4 it bare v4 n e (some ip) =
    ap (λ m. text_eq m ip) (text_of (it ++ codes "/32") n e ∙ sym (with_mask-v4 it bare v4))

IsHost-v6 :
    (it : Text)
    → contains it (codes "/") ≡ false
    → contains it (codes ":") ≡ true
    → IsHost parse_cidr parse_ip split_host same_text same_text it (codes "/128")
IsHost-v6 it bare v6 n e none = refl
IsHost-v6 it bare v6 n e (some ip) =
    ap (λ m. text_eq m ip) (text_of (it ++ codes "/128") n e ∙ sym (with_mask-v6 it bare v6))

ip_allowed-covers_example :
    ip_allowed parse_ip split_host same_text (codes "10.0.0.7/32" ∷ []) (codes "10.0.0.8") ≡ (
      all_blank parse_cidr parse_ip split_host same_text same_text items
      || any_covers parse_cidr parse_ip split_host same_text same_text items
          (parse_ip (codes "10.0.0.8")))
ip_allowed-covers_example =
    ip_allowed-covers parse_cidr parse_ip split_host same_text same_text IsHost-v4 IsHost-v6 items
      (codes "10.0.0.7/32" ∷ []) (codes "10.0.0.8") parsed
