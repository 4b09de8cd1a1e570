-- ===== src/Proxy/Static/Hidden.antt =====
-- internal/proxy/static.go: hiddenPath against one pass over the path.
use orxies.Prelude.{
  ◌≡◌, refl, Bool, true, false, ◌&&◌, ◌||◌, not, List, [], ◌∷◌, ◌==◌, Text, codes, has_prefix,
  split, arith, Bool-cases, inl, inr, is_empty,
}
use orxies.Proxy.Static.{slash, dot, any_hidden, hidden_path}

-- The byte that follows is of the same segment.
abbrev pub goes_on : Text → Bool
goes_on [] = false
goes_on (a ∷ s) = not (a == slash)

-- A dot at the start of a segment that goes on after it, in one pass: `start` says that the byte
-- before was a slash or that there was none.
abbrev pub dot_segment : Bool → Text → Bool
dot_segment start [] = false
dot_segment start (a ∷ s) = (start && a == dot && goes_on s) || dot_segment (a == slash) s

abbrev first : List Text → Text
first [] = []
first (x ∷ xs) = x

abbrev others : List Text → List Text
others [] = []
others (x ∷ xs) = xs

split-cases : (s : Text) → (x : Text) × (xs : List Text) × (split s slash ≡ x ∷ xs)
split-cases [] = ([], [], refl)
split-cases (a ∷ s) = elim (Bool-cases (a == slash)) [
  | inl e ↦ ([], split s slash, rw e refl)
  | inr e ↦ let (x, xs, f) = split-cases s in (a ∷ x, xs, rw (e, f) refl)
]

split-first : (s : Text) → goes_on s ≡ not (is_empty (first (split s slash)))
split-first [] = refl
split-first (a ∷ s) = let (x, xs, e) = split-cases s in ground (arith, e)

split-dots :
    (s : Text)
    → (dot_segment true s ≡ any_hidden (split s slash))
      × (dot_segment false s ≡ any_hidden (others (split s slash)))
split-dots [] = (refl, refl)
split-dots (a ∷ s) =
    let (x, xs, e) = split-cases s in ground (arith, e, split-dots s, split-first s)

-- A path is hidden exactly if some segment of it starts with a dot and goes on after it, unless
-- it lies under /.well-known/: the segments that the source splits off are read in one pass.
pub hidden_path-dot_segment :
    (p : Text) → hidden_path p ≡ (not (has_prefix p (codes "/.well-known/")) && dot_segment true p)
unfolding hidden_path
hidden_path-dot_segment p = ground (arith, (split-dots p).0)
