-- ===== src/Security/Edge.antt =====
-- internal/security/security.go: how the headers of a site are merged over the baseline.
use orxies.Prelude.{
  ◌≡◌, refl, [], ◌∷◌, Option, none, some, Text, text_eq_iff, text_key, Distinct, lookup, insert,
  lookup-insert, insert-Distinct, arith,
}
use orxies.Security.{HeaderMap, set_all, edge_headers, merge_edge_headers}

-- The first value if there is one, else the second.
abbrev pub or_else : Option Text → Option Text → Option Text
or_else (some v) d = some v
or_else none d = d

set_all-Distinct : (kvs hd : HeaderMap) → Distinct hd → Distinct (set_all kvs hd)
unfolding set_all
set_all-Distinct [] hd d = d
set_all-Distinct ((k, v) ∷ kvs) hd d =
    set_all-Distinct kvs (insert k v hd) (insert-Distinct k v hd d)

set_all-lookup :
    (kvs hd : HeaderMap) (j : Text)
    → Distinct kvs
    → lookup j (set_all kvs hd) ≡ or_else (lookup j kvs) (lookup j hd)
unfolding set_all lookup
set_all-lookup [] hd j d = refl
set_all-lookup ((k, v) ∷ kvs) hd j d =
    ground
      (arith, set_all-lookup kvs (insert k v hd) j d.1, lookup-insert k j v hd, text_eq_iff k j)

-- A header of the merged set is the site's own where the site has one, and otherwise that of the
-- baseline: a site can override or add a header and cannot lose one.
pub merge_edge_headers-lookup :
    (custom : HeaderMap) (name : Text)
    → Distinct custom
    → lookup name (merge_edge_headers custom)
      ≡ or_else (lookup name custom) (lookup name edge_headers)
unfolding merge_edge_headers
merge_edge_headers-lookup custom name d = set_all-lookup custom edge_headers name d

edge_headers-Distinct : Distinct edge_headers
unfolding lookup
edge_headers-Distinct = (refl, (refl, (refl, (refl, (refl, tt)))))

-- No header stands twice in the merged set.
pub merge_edge_headers-Distinct : (custom : HeaderMap) → Distinct (merge_edge_headers custom)
unfolding merge_edge_headers
merge_edge_headers-Distinct custom = set_all-Distinct custom edge_headers edge_headers-Distinct
