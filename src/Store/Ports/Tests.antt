-- ===== src/Store/Ports/Tests.antt =====
-- Runs of the port table, and its theorem at one.
use orxies.Prelude.{◌≡◌, refl, [], ◌∷◌, none, some, nat_key, lookup, insert, delete, arith, suc}
use orxies.Store.Ports.{PortTable, allocate_from, allocate_port, release_port}
use orxies.Store.Ports.Lowest.{Lowest, allocate_port-Lowest}

program : Unit {0}
unfolding allocate_from allocate_port release_port lookup insert delete
program = tt

abbrev two_taken : PortTable
two_taken = (8300, 1) ∷ (8302, 2) ∷ []

gap_filled : (allocate_port two_taken 3 8300 8302).1 ≡ some 8301
unfolding program
gap_filled = refl

exhausted : (allocate_port two_taken 3 8302 8302).1 ≡ none
unfolding program
exhausted = refl

allocate_port-Lowest_example :
    Lowest two_taken 3 8300 (suc 8302) (allocate_port two_taken 3 8300 8302)
allocate_port-Lowest_example = allocate_port-Lowest two_taken 3 8300 8302 (omega arith)
