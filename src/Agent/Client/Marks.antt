-- ===== src/Agent/Client/Marks.antt =====
-- internal/agent/client.go: how a client reads the end of a build from its log.
use orxies.Prelude.{
  ℕ, ◌≡◌, refl, ap, ◌∙◌, Bool, true, false, ◌||◌, List, [], ◌∷◌, ◌++◌, none, some, ◌==◌, Text,
  split, has_prefix, arith, Bool-cases, inl, inr,
}
use orxies.Agent.{newline, failed_mark, ok_mark, build_body}
use orxies.Agent.Client.{any_failed, build_failed}

split-cons : (s : Text) (c : ℕ) → (x : Text) × (xs : List Text) × (split s c ≡ x ∷ xs)
split-cons [] c = ([], [], refl)
split-cons (a ∷ s) c =
    let (x, xs, e) = split-cons s c in
    elim (Bool-cases (a == c)) [
      | inl end ↦ ([], split s c, rw end refl)
      | inr more ↦ (a ∷ x, xs, rw (more, e) refl)
    ]

split-line : (s t : Text) (c : ℕ) → split (s ++ (c ∷ t)) c ≡ split s c ++ split t c
split-line [] t c = ground arith
split-line (a ∷ s) t c =
    let (x, xs, e) = split-cons s c in
    elim (Bool-cases (a == c)) [
      | inl end ↦ rw (end, split-line s t c) refl
      | inr more ↦ rw (more, split-line s t c, e) refl
    ]

or_assoc : (a b c : Bool) → (a || (b || c)) ≡ ((a || b) || c)
or_assoc true b c = refl
or_assoc false b c = refl

or_false : (a b : Bool) → b ≡ false → (a || b) ≡ a
or_false true b h = refl
or_false false b h = h

or_true : (a b : Bool) → b ≡ true → (a || b) ≡ true
or_true true b h = refl
or_true false b h = h

any_failed-append : (xs ys : List Text) → any_failed (xs ++ ys) ≡ (any_failed xs || any_failed ys)
any_failed-append [] ys = refl
any_failed-append (x ∷ xs) ys =
    let first = has_prefix x failed_mark in
    ap (λ r. first || r) (any_failed-append xs ys) ∙ or_assoc first (any_failed xs) (any_failed ys)

-- The last line of a build that went well.
abbrev ok_line : Text
ok_line = ok_mark ++ (newline ∷ [])

ok_quiet : any_failed (split ok_line newline) ≡ false
ok_quiet = refl

-- The last lines of a build that failed.
abbrev failed_lines : Text → Text
failed_lines e = failed_mark ++ (32 ∷ (e ++ (newline ∷ [])))

failed_marked : (e : Text) → any_failed (split (failed_lines e) newline) ≡ true
failed_marked e = let (x, xs, p) = split-cons (e ++ (newline ∷ [])) newline in rw p refl

-- The log of a build that went well is read as its own lines say.
pub build_failed-build_body_ok :
    (log : Text) → build_failed (build_body log none) ≡ build_failed log
unfolding build_failed
build_failed-build_body_ok log =
    ap any_failed (split-line log ok_line newline)
    ∙ any_failed-append (split log newline) (split ok_line newline)
    ∙ or_false (any_failed (split log newline)) (any_failed (split ok_line newline)) ok_quiet

-- The log of a failed build is read as failed, whatever stands in it.
pub build_failed-build_body_error : (log e : Text) → build_failed (build_body log (some e)) ≡ true
unfolding build_failed
build_failed-build_body_error log e =
    ap any_failed (split-line log (failed_lines e) newline)
    ∙ any_failed-append (split log newline) (split (failed_lines e) newline)
    ∙ or_true (any_failed (split log newline)) (any_failed (split (failed_lines e) newline))
        (failed_marked e)
