-- ===== src/Secmon/Counts/Tops.antt =====
-- internal/secmon/secmon.go: the list of the top attackers.
use orxies.Prelude.{
  ℕ, ◌+◌, ◌≤◌, sym, take-append-drop, List, [], ◌∷◌, length, drop, length-take, Text, sort_by,
  sort_by-Descending, sort_by-Perm, Descending, Ranked, Refines, All, take-Descending, take-Ranked,
  sort_by-All, ◌≡◌, if◌then◌else◌, Bool-cases, inl, inr, arith,
}
use mathlib.Core.List.{Perm, ◌++◌, perm_middle}
use mathlib.Core.List.Perm
use mathlib.Core.Path.{subst}
use orxies.Secmon.{IpStat, total}
use orxies.Secmon.Counts.{is_attacker, attackers, attacker_less, max_attackers, top_attackers}

attacker_less-Refines : Refines total attacker_less
attacker_less-Refines a b = (λ h. ground arith, λ h. ground arith)

-- A bound of all totals.
abbrev top_of : List IpStat → ℕ
top_of [] = 0
top_of (s ∷ ss) = total s + top_of ss

All-le :
    (a b : ℕ) (ss : List IpStat) → a ≤ b → All (λ s. total s ≤ a) ss → All (λ s. total s ≤ b) ss
All-le a b [] le h = tt
All-le a b (s ∷ ss) le h = (omega (arith, h.0), All-le a b ss le h.1)

top_of-All : (ss : List IpStat) → All (λ s. total s ≤ top_of ss) ss
top_of-All [] = tt
top_of-All (s ∷ ss) =
    (omega arith, All-le (top_of ss) (top_of (s ∷ ss)) ss (omega arith) (top_of-All ss))

abbrev pub counts_of : List (Text × IpStat) → List IpStat
counts_of [] = []
counts_of ((ip, st) ∷ stats) = st ∷ counts_of stats

-- The addresses that never failed.
abbrev innocent : List (Text × IpStat) → List IpStat
innocent [] = []
innocent ((ip, st) ∷ stats) =
    let rest = innocent stats in if is_attacker st then rest else st ∷ rest

attackers-Perm :
    (stats : List (Text × IpStat)) → Perm (attackers stats ++ innocent stats) (counts_of stats)
attackers-Perm [] = Perm.refl []
attackers-Perm ((ip, st) ∷ stats) = elim (Bool-cases (is_attacker st)) [
  | inl failed ↦ rw failed (Perm.cons st (attackers-Perm stats))
  | inr clean ↦ rw clean (
      Perm.trans (perm_middle {a = st} (attackers stats) (innocent stats))
        (Perm.cons st (attackers-Perm stats)))
]

attackers-Failed :
    (stats : List (Text × IpStat)) → All (λ s. 1 ≤ s.failures + s.invalid_users) (attackers stats)
attackers-Failed [] = tt
attackers-Failed ((ip, st) ∷ stats) = elim (Bool-cases (is_attacker st)) [
  | inl failed ↦ rw failed (ground (arith, failed), attackers-Failed stats)
  | inr clean ↦ rw clean (attackers-Failed stats)
]

innocent-Unfailing :
    (stats : List (Text × IpStat)) → All (λ s. s.failures + s.invalid_users ≡ 0) (innocent stats)
innocent-Unfailing [] = tt
innocent-Unfailing ((ip, st) ∷ stats) = elim (Bool-cases (is_attacker st)) [
  | inl failed ↦ rw failed (innocent-Unfailing stats)
  | inr clean ↦ rw clean (ground (arith, clean), innocent-Unfailing stats)
]

-- The counts of addresses are those who are shown, those who failed too and are `left`, and those
-- who never failed.
pub record IsTop (stats : List (Text × IpStat)) (shown : List IpStat) : Type 0 where
  pub left : List IpStat
  pub others : List IpStat
  pub failed : All (λ s. 1 ≤ s.failures + s.invalid_users) (shown ++ left)
  pub unfailing : All (λ s. s.failures + s.invalid_users ≡ 0) others
  pub few : length shown ≤ max_attackers
  pub top : ℕ
  pub descending : Descending total top shown
  pub ranked : Ranked total shown left
  pub complete : Perm ((shown ++ left) ++ others) (counts_of stats)

-- The list of the top attackers has 30 entries at most, those with the most attempts first; it and
-- those left out are the addresses that failed at all, and nobody left out has more attempts than
-- anybody who is listed.
pub top_attackers-IsTop : (stats : List (Text × IpStat)) → IsTop stats (top_attackers stats)
unfolding top_attackers
top_attackers-IsTop stats =
    let all = attackers stats in
    let sorted = sort_by attacker_less all in
    let top = top_of all in
    let split = sym (take-append-drop max_attackers sorted) in
    let falling =
      sort_by-Descending total attacker_less top all attacker_less-Refines (top_of-All all) in
    record {
      left = drop max_attackers sorted;
      others = innocent stats;
      failed = subst (All (λ s. 1 ≤ s.failures + s.invalid_users)) split (
          sort_by-All (λ s. 1 ≤ s.failures + s.invalid_users) attacker_less all
            (attackers-Failed stats));
      unfailing = innocent-Unfailing stats;
      few = omega (arith, length-take max_attackers sorted);
      top = top;
      descending = take-Descending total max_attackers top sorted falling;
      ranked = take-Ranked total max_attackers top sorted falling;
      complete =
          subst (λ l. Perm (l ++ innocent stats) (counts_of stats)) split
            (Perm.trans (Perm.append_right (innocent stats) (sort_by-Perm attacker_less all))
              (attackers-Perm stats));
    }
