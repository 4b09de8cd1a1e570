-- ===== src/Proxy/Limiter/Slots.antt =====
-- In-flight requests: every history of `acquire` and of calls of the closures that it returned.
use orxies.Prelude.{
  ℕ, zero, suc, ◌≤◌, ◌≡◌, refl, true, false, List, [], ◌∷◌, Option, none, some, arith, get_elem?,
  set,
}
use orxies.Prelude.Int.{pos, ◌+ℤ◌, ◌-ℤ◌}
use orxies.Proxy.Limiter.{Limiter, Release, noop, give_back, acquire, release}

-- A site with the closures that its requests hold, the latest first.
pub record Traffic : Type 0 where
  pub limiter : Option Limiter
  pub held : List Release

pub data Event : Type 0 where
  arrive : Event
  call : ℕ → Event

arrived : List Release → Option Limiter × Option Release → Traffic
arrived rs (l, none) = record { limiter = l; held = rs }
arrived rs (l, some r) = record { limiter = l; held = r ∷ rs }

called : Traffic → ℕ → Option Release → Traffic
called s i none = s
called s i (some r) =
    let (r', l) = release r s.limiter in record { limiter = l; held = set s.held i r' }

-- Closures may be called in any order, and more than once.
unfoldable pub step : Traffic → Event → Traffic
unfolding arrived called
step s arrive = arrived s.held (acquire s.limiter)
step s (call i) = called s i (get_elem? s.held i)

unfoldable pub run : Traffic → List Event → Traffic
run s [] = s
run s (e ∷ es) = run (step s e) es

-- The slots that are taken: closures that count and have not been called.
unfoldable pub outstanding : List Release → ℕ
outstanding [] = 0
outstanding (noop ∷ rs) = outstanding rs
outstanding (give_back true ∷ rs) = outstanding rs
outstanding (give_back false ∷ rs) = suc (outstanding rs)

abbrev pub Accounted : Option Limiter → ℕ → Type 0
Accounted none n = n ≡ 0
Accounted (some l) n = (l.in_flight ≡ pos n) × (n ≤ l.max_in_flight)

outstanding-set :
    (rs : List Release) (i : ℕ)
    → get_elem? rs i ≡ some (give_back false)
    → outstanding rs ≡ suc (outstanding (set rs i (give_back true)))
unfolding outstanding
outstanding-set [] i e = cc
outstanding-set (r ∷ rs) zero e = ground arith
outstanding-set (noop ∷ rs) (suc i) e = outstanding-set rs i e
outstanding-set (give_back true ∷ rs) (suc i) e = outstanding-set rs i e
outstanding-set (give_back false ∷ rs) (suc i) e = omega (arith, outstanding-set rs i e)

set_same : (rs : List Release) (i : ℕ) (r : Release) → get_elem? rs i ≡ some r → set rs i r ≡ rs
set_same [] i r e = refl
set_same (x ∷ rs) zero r e = cc
set_same (x ∷ rs) (suc i) r e = cc (set_same rs i r e)

abbrev Inv : Traffic → Type 0
Inv s = Accounted s.limiter (outstanding s.held)

arrive-Inv :
    (l : Option Limiter) (rs : List Release)
    → Accounted l (outstanding rs)
    → Inv (arrived rs (acquire l))
unfolding acquire outstanding ◌+ℤ◌ arrived
arrive-Inv none rs h = h
arrive-Inv (some l) rs h = ground arith

call-Inv :
    (l : Option Limiter) (rs : List Release) (i : ℕ) (o : Option Release)
    → get_elem? rs i ≡ o
    → Accounted l (outstanding rs)
    → Inv (called (record { limiter = l; held = rs }) i o)
unfolding release called ◌-ℤ◌
call-Inv l rs i none e h = h
call-Inv l rs i (some noop) e h = rw (set_same rs i noop e) h
call-Inv l rs i (some (give_back true)) e h = rw (set_same rs i (give_back true) e) h
call-Inv none rs i (some (give_back false)) e h = omega (arith, outstanding-set rs i e)
call-Inv (some l) rs i (some (give_back false)) e h = ground (arith, outstanding-set rs i e)

step-Inv : (s : Traffic) (e : Event) → Inv s → Inv (step s e)
unfolding step
step-Inv s arrive h = arrive-Inv s.limiter s.held h
step-Inv s (call i) h = call-Inv s.limiter s.held i (get_elem? s.held i) refl h

-- After any history, closures called late, twice or never, the counter is the number of slots that
-- are taken, and never above the cap.
pub run-Accounted :
    (s : Traffic) (es : List Event)
    → Accounted s.limiter (outstanding s.held)
    → Accounted (run s es).limiter (outstanding (run s es).held)
unfolding run
run-Accounted s [] h = h
run-Accounted s (e ∷ es) h = run-Accounted (step s e) es (step-Inv s e h)
