-- ===== src/Prelude/Cuts.antt =====
-- Where a text is cut at the last of a byte.
use Prim.Native.Nat.{ℕ}
use mathlib.Core.Path.{◌≡◌, refl}
use mathlib.Core.Bool.{false}
use mathlib.Core.Option.{none, some}
use mathlib.Core.List.{[], ◌∷◌, ◌++◌}
use native.Mathlib.Omega.{arith}
use orxies.Prelude.Tests.{◌==◌, ==_iff}
use orxies.Prelude.Keys.{Text}
use orxies.Prelude.Bytes.{cut_last, has_byte}

pub cut_last-none : (c : ℕ) (t : Text) → has_byte t c ≡ false → cut_last t c ≡ none
cut_last-none c [] h = refl
cut_last-none c (a ∷ t) h =
    let rest : has_byte t c ≡ false = ground arith in
    let own : (a == c) ≡ false = ground arith in rw (cut_last-none c t rest, own) refl

pub cut_last-append :
    (c : ℕ) (s t : Text) → has_byte t c ≡ false → cut_last (s ++ (c ∷ t)) c ≡ some (s, t)
cut_last-append c [] t h = rw (cut_last-none c t h, (==_iff c c).1 refl) refl
cut_last-append c (a ∷ s) t h = rw (cut_last-append c s t h) refl
