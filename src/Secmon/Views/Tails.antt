-- ===== src/Secmon/Views/Tails.antt =====
-- internal/secmon/secmon.go: what the capped view of the newest events shows.
use orxies.Prelude.{
  ℕ, zero, suc, ◌≡◌, refl, ap, Bool, List, [], ◌∷◌, if◌then◌else◌, take, Bool-cases, inl, inr,
}
use orxies.Secmon.{Event}
use orxies.Secmon.Views.{reverse, filtered, tail_filtered}

-- All that match.
unfoldable pub select : (Event → Bool) → List Event → List Event
select keep [] = []
select keep (e ∷ es) = let rest = select keep es in if keep e then e ∷ rest else rest

filtered-eq :
    (keep : Event → Bool) (n : ℕ) (es : List Event) → filtered keep n es ≡ take n (select keep es)
unfolding filtered select
filtered-eq keep zero [] = refl
filtered-eq keep (suc n) [] = refl
filtered-eq keep zero (e ∷ es) = refl
filtered-eq keep (suc n) (e ∷ es) = elim (Bool-cases (keep e)) [
  | inl kept ↦ rw kept (ap (λ r. e ∷ r) (filtered-eq keep n es))
  | inr passed ↦ rw passed (filtered-eq keep (suc n) es)
]

-- The view is the newest `n` of all events that match, the newest first: the loop that stops early
-- shows what sorting out the whole log and cutting it off would.
pub tail_filtered-eq :
    (events : List Event) (n : ℕ) (keep : Event → Bool)
    → tail_filtered events n keep ≡ take n (select keep (reverse events))
unfolding tail_filtered
tail_filtered-eq events n keep = filtered-eq keep n (reverse events)
