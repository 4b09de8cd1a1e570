-- ===== src/Store/Services/Links.antt =====
-- internal/store/services.go: what the links are after they are set.
use orxies.Prelude.{ℕ, Bool, false, ◌||◌, List, [], ◌∷◌, ◌==◌}

abbrev pub among : ℕ → List ℕ → Bool
among a [] = false
among a (id ∷ ids) = (id == a) || among a ids
