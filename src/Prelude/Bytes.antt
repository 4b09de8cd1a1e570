-- ===== src/Prelude/Bytes.antt =====
-- The functions of Go's package `strings` that the program calls, on bytes. Case and white space
-- are those of ASCII.
use Prim.Native.Nat.{ℕ, zero, suc, ◌+◌, ◌-◌}
use mathlib.Core.Bool.{Bool, true, false, ◌&&◌, ◌||◌}
use mathlib.Core.List.{List, [], ◌∷◌, ◌++◌, map}
use mathlib.Core.Option.{Option, none, some}
use orxies.Prelude.Tests.{leb, ◌==◌, if◌then◌else◌}
use orxies.Prelude.Lists.{length}
use orxies.Prelude.Keys.{Text, text_eq}

abbrev pub is_empty {ℓ} : {A : Type ℓ} → List A → Bool
is_empty [] = true
is_empty (c ∷ s) = false

abbrev pub is_space : ℕ → Bool
is_space c = (leb 9 c && leb c 13) || c == 32

abbrev pub lower : ℕ → ℕ
lower c = if leb 65 c && leb c 90 then c + 32 else c

abbrev pub to_lower : Text → Text
to_lower s = map lower s

abbrev pub has_prefix : Text → Text → Bool
has_prefix s [] = true
has_prefix [] (c ∷ p) = false
has_prefix (a ∷ s) (c ∷ p) = (a == c) && has_prefix s p

abbrev pub contains : Text → Text → Bool
contains [] sub = is_empty sub
contains (a ∷ s) sub = has_prefix (a ∷ s) sub || contains s sub

abbrev pub has_suffix : Text → Text → Bool
has_suffix [] suffix = is_empty suffix
has_suffix (a ∷ s) suffix = text_eq (a ∷ s) suffix || has_suffix s suffix

abbrev pub trim_suffix : Text → Text → Text
trim_suffix [] suffix = []
trim_suffix (a ∷ s) suffix =
    let rest = trim_suffix s suffix in if text_eq (a ∷ s) suffix then [] else a ∷ rest

abbrev pub trim_left : Text → Text
trim_left [] = []
trim_left (a ∷ s) = let rest = trim_left s in if is_space a then rest else a ∷ s

abbrev pub trim_right : Text → Text
trim_right [] = []
trim_right (a ∷ s) = let rest = trim_right s in if is_space a && is_empty rest then [] else a ∷ rest

abbrev pub trim_space : Text → Text
trim_space s = trim_right (trim_left s)

abbrev pub onto_first : ℕ → List Text → List Text
onto_first a [] = (a ∷ []) ∷ []
onto_first a (x ∷ xs) = (a ∷ x) ∷ xs

-- `strings.Split` by a separator of one byte.
abbrev pub split : Text → ℕ → List Text
split [] c = [] ∷ []
split (a ∷ s) c = let rest = split s c in if a == c then [] ∷ rest else onto_first a rest

abbrev pub join : List Text → ℕ → Text
join [] c = []
join (x ∷ []) c = x
join (x ∷ y ∷ xs) c = x ++ (c ∷ join (y ∷ xs) c)

-- What lies before and after the last `c`, by `strings.LastIndex`.
abbrev pub cut_last : Text → ℕ → Option (Text × Text)
cut_last [] c = none
cut_last (a ∷ s) c = elim (cut_last s c) [
  | some ps ↦ some (a ∷ ps.0, ps.1)
  | none ↦ if a == c then some ([], s) else none
]

-- `strings.Cut` by a separator of one byte.
abbrev pub cut : Text → ℕ → Option (Text × Text)
cut [] c = none
cut (a ∷ s) c =
    let rest = cut s c in
    if a == c then some ([], s) else elim rest [ none ↦ none | some ps ↦ some (a ∷ ps.0, ps.1) ]

-- `strings.ReplaceAll`, with the number of bytes of a match that are still to be passed over.
abbrev pub replace_from : ℕ → Text → Text → Text → Text
replace_from skip [] old new = []
replace_from (suc skip) (a ∷ s) old new = replace_from skip s old new
replace_from zero (a ∷ s) old new =
    let after = replace_from (length old - 1) s old new in
    let rest = replace_from zero s old new in
    if has_prefix (a ∷ s) old then new ++ after else a ∷ rest

abbrev pub replace_all : Text → Text → Text → Text
replace_all s old new = replace_from zero s old new

abbrev pub has_byte : Text → ℕ → Bool
has_byte [] c = false
has_byte (a ∷ s) c = (a == c) || has_byte s c

abbrev pub every : (ℕ → Bool) → Text → Bool
every p [] = true
every p (a ∷ s) = p a && every p s
