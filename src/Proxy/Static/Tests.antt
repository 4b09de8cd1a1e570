-- ===== src/Proxy/Static/Tests.antt =====
-- Paths that a static site hides, and its theorem at one.
use orxies.Prelude.{◌≡◌, refl, true, false, ◌&&◌, not, codes, has_prefix}
use orxies.Proxy.Static.{hidden_path}
use orxies.Proxy.Static.Hidden.{dot_segment, hidden_path-dot_segment}

git_hidden : hidden_path (codes "/.git/config") ≡ true
unfolding hidden_path
git_hidden = refl

well_known_shown : hidden_path (codes "/.well-known/security.txt") ≡ false
unfolding hidden_path
well_known_shown = refl

hidden_path-dot_segment_example : hidden_path (codes "/a/.env") ≡ (
    not (has_prefix (codes "/a/.env") (codes "/.well-known/"))
    && dot_segment true (codes "/a/.env"))
hidden_path-dot_segment_example = hidden_path-dot_segment (codes "/a/.env")
