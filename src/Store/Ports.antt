-- ===== src/Store/Ports.antt =====
-- internal/store/ports.go: the loopback ports of the app containers.
-- The table `port_allocations` maps a port to the deployment that has it.
pub mod Lowest
mod Tests
use orxies.Prelude.{
  ℕ, zero, suc, ◌+◌, ◌-◌, Bool, true, false, List, Option, none, some, nat_key, lookup, insert,
  delete,
}

abbrev pub port_range_lo : ℕ
port_range_lo = 8300

abbrev pub port_range_hi : ℕ
port_range_hi = 8999

abbrev pub PortTable : Type 0
PortTable = List (ℕ × ℕ)

-- What the loop does with the answer of the query for one port.
abbrev pub asked : ℕ → PortTable → ℕ → PortTable × Option ℕ → Option ℕ → PortTable × Option ℕ
asked p t deployment rest none = (insert p deployment t, some p)
asked p t deployment rest (some d) = rest

-- The loop from port `p` on, with `n` ports left in the range. `none` is ErrNoFreePort.
unfoldable pub allocate_from : ℕ → ℕ → PortTable → ℕ → PortTable × Option ℕ
allocate_from zero p t deployment = (t, none)
allocate_from (suc n) p t deployment =
    asked p t deployment (allocate_from n (suc p) t deployment) (lookup p t)

unfoldable pub allocate_port : PortTable → ℕ → ℕ → ℕ → PortTable × Option ℕ
unfolding allocate_from
allocate_port t deployment lo hi = allocate_from (suc hi - lo) lo t deployment

unfoldable pub release_port : PortTable → ℕ → PortTable
release_port t port = delete port t
