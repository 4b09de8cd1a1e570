-- ===== src/Proxy/Pool/Tests.antt =====
-- A run of a pool, and its theorem at it.
use orxies.Prelude.{◌≡◌, refl, [], ◌∷◌, some, codes, arith}
use orxies.Proxy.Pool.{Url, Pool, next_upstream}
use orxies.Proxy.Pool.Turns.{picks, in_turn, picks-in_turn}

abbrev first : Url
first = record { scheme = codes "http"; host = codes "a:1"; path = [] }

abbrev second : Url
second = record { scheme = codes "http"; host = codes "b:2"; path = [] }

abbrev two : Pool
two = record { upstreams = first ∷ second ∷ []; next = 1 }

picked : picks 3 two ≡ some second ∷ some first ∷ some second ∷ []
unfolding picks next_upstream
picked = refl

picks-in_turn_example : picks 3 two ≡ in_turn 3 (first ∷ second ∷ []) 1
picks-in_turn_example = picks-in_turn 3 two (omega arith) (omega arith)
