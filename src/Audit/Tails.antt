-- ===== src/Audit/Tails.antt =====
-- internal/audit/audit.go: what `Tail` reads of what `Log` wrote.
use orxies.Prelude.{
  ℕ, zero, suc, ◌≡◌, refl, sym, ap, ◌∙◌, ◌==◌, false, List, [], ◌∷◌, ◌++◌, Option, none, some, Text,
  is_empty, trim_space, split, onto_first, has_byte, take, Bool-cases, inl, inr, arith,
}
use mathlib.Core.List.{append-nil, append_assoc}
use orxies.Audit.{
  Record, Codec, Logger, newline, append_line, write_record, tail_lines, reverse, tail,
}

unfoldable pub write_all : Codec → Logger → List Record → Logger
unfolding write_record
write_all c f [] = f
write_all c f (rec ∷ recs) = write_all c (write_record c f rec) recs

-- JSON prints the record as one line that is not blank at its ends, and reads it back.
pub record IsLine (c : Codec) (rec : Record) : Type 0 where
  pub line : Text
  pub printed : c.marshal rec ≡ some line
  pub one_line : has_byte line newline ≡ false
  pub trimmed : trim_space line ≡ line
  pub not_blank : is_empty line ≡ false
  pub read_back : c.unmarshal line ≡ some rec

unfoldable pub AllLines : Codec → List Record → Type 0
AllLines c [] = Unit
AllLines c (rec ∷ recs) = IsLine c rec × AllLines c recs

split-line :
    (line s : Text)
    → has_byte line newline ≡ false
    → split (line ++ (newline ∷ s)) newline ≡ line ∷ split s newline
split-line [] s h = refl
split-line (a ∷ line) s h = elim (Bool-cases (a == newline)) [
  | inl is ↦ absurd (ground (arith, h, is))
  | inr isnt ↦ rw isnt (ap (onto_first a) (split-line line s (ground (arith, h, isnt))))
]

-- What the records print.
unfoldable written : Codec → List Record → Text
written c [] = []
written c (rec ∷ recs) = append_line [] (c.marshal rec) ++ written c recs

append_line-append : (f : Text) (o : Option Text) → append_line f o ≡ f ++ append_line [] o
append_line-append f none = sym (append-nil f)
append_line-append f (some line) = refl

write_all-written :
    (c : Codec) (f : Text) (recs : List Record) → write_all c f recs ≡ f ++ written c recs
unfolding write_all written write_record
write_all-written c f [] = sym (append-nil f)
write_all-written c f (rec ∷ recs) =
    write_all-written c (write_record c f rec) recs
    ∙ ap (λ g. g ++ written c recs) (append_line-append f (c.marshal rec))
    ∙ append_assoc f (append_line [] (c.marshal rec)) (written c recs)

-- Each line is read as its record.
record ReadsLine (c : Codec) (line : Text) (rec : Record) : Type 0 where
  there : is_empty (trim_space line) ≡ false
  back : c.unmarshal (trim_space line) ≡ some rec

unfoldable Reads : Codec → List Text → List Record → Type 0
Reads c [] [] = Unit
Reads c [] (rec ∷ recs) = ⊥
Reads c (line ∷ lines) [] = ⊥
Reads c (line ∷ lines) (rec ∷ recs) = ReadsLine c line rec × Reads c lines recs

Reads-snoc :
    (c : Codec) (lines : List Text) (recs : List Record) (line : Text) (rec : Record)
    → Reads c lines recs
    → ReadsLine c line rec
    → Reads c (lines ++ (line ∷ [])) (recs ++ (rec ∷ []))
unfolding Reads
Reads-snoc c [] [] line rec rs r = (r, tt)
Reads-snoc c [] (rec' ∷ recs) line rec rs r = absurd rs
Reads-snoc c (line' ∷ lines) [] line rec rs r = absurd rs
Reads-snoc c (line' ∷ lines) (rec' ∷ recs) line rec (r', rs) r =
    (r', Reads-snoc c lines recs line rec rs r)

Reads-reverse :
    (c : Codec) (lines : List Text) (recs : List Record)
    → Reads c lines recs
    → Reads c (reverse lines) (reverse recs)
unfolding Reads
Reads-reverse c [] [] rs = tt
Reads-reverse c [] (rec ∷ recs) rs = absurd rs
Reads-reverse c (line ∷ lines) [] rs = absurd rs
Reads-reverse c (line ∷ lines) (rec ∷ recs) (r, rs) =
    Reads-snoc c (reverse lines) (reverse recs) line rec (Reads-reverse c lines recs rs) r

tail_lines-take :
    (c : Codec) (n : ℕ) (lines : List Text) (recs : List Record)
    → Reads c lines recs
    → tail_lines c n lines ≡ take n recs
unfolding Reads tail_lines
tail_lines-take c zero [] [] rs = refl
tail_lines-take c (suc n) [] [] rs = refl
tail_lines-take c n [] (rec ∷ recs) rs = absurd rs
tail_lines-take c n (line ∷ lines) [] rs = absurd rs
tail_lines-take c zero (line ∷ lines) (rec ∷ recs) rs = refl
tail_lines-take c (suc n) (line ∷ lines) (rec ∷ recs) (r, rs) =
    rw r.there (rw r.back (ap (λ more. rec ∷ more) (tail_lines-take c n lines recs rs)))

tail_lines-last :
    (c : Codec) (n : ℕ) (lines : List Text) → tail_lines c n ([] ∷ lines) ≡ tail_lines c n lines
unfolding tail_lines
tail_lines-last c zero [] = refl
tail_lines-last c zero (line ∷ lines) = refl
tail_lines-last c (suc n) lines = refl

unfoldable lines_of : (c : Codec) (recs : List Record) → AllLines c recs → List Text
unfolding AllLines
lines_of c [] h = []
lines_of c (rec ∷ recs) (l, h) = l.line ∷ lines_of c recs h

split-written :
    (c : Codec) (recs : List Record) (h : AllLines c recs)
    → split (written c recs) newline ≡ lines_of c recs h ++ ([] ∷ [])
unfolding AllLines written lines_of
split-written c [] h = refl
split-written c (rec ∷ recs) (l, h) =
    ap (λ o. split (append_line [] o ++ written c recs) newline) l.printed
    ∙ ap (λ s. split s newline) (append_assoc l.line (newline ∷ []) (written c recs))
    ∙ split-line l.line (written c recs) l.one_line
    ∙ ap (λ ls. l.line ∷ ls) (split-written c recs h)

lines_of-Reads :
    (c : Codec) (recs : List Record) (h : AllLines c recs) → Reads c (lines_of c recs h) recs
unfolding AllLines Reads lines_of
lines_of-Reads c [] h = tt
lines_of-Reads c (rec ∷ recs) (l, h) = (
  record {
    there = ap is_empty l.trimmed ∙ l.not_blank;
    back = ap c.unmarshal l.trimmed ∙ l.read_back;
  },
  lines_of-Reads c recs h,
)

reverse-snoc : {A : Type 0} (xs : List A) (x : A) → reverse (xs ++ (x ∷ [])) ≡ x ∷ reverse xs
reverse-snoc [] x = refl
reverse-snoc (y ∷ xs) x = ap (λ r. r ++ (y ∷ [])) (reverse-snoc xs x)

-- What was logged is read back: after any records that JSON prints as lines and reads back, the
-- audit page shows the newest `n` of them, or all where they are fewer, the newest first.
pub tail-write_all :
    (c : Codec) (recs : List Record) (n : ℕ)
    → AllLines c recs
    → tail c (write_all c [] recs) n ≡ take n (reverse recs)
unfolding tail
tail-write_all c recs n h =
    let lines = lines_of c recs h in
    ap (λ f. tail_lines c n (reverse (split f newline))) (write_all-written c [] recs)
    ∙ ap (λ ls. tail_lines c n (reverse ls)) (split-written c recs h)
    ∙ ap (tail_lines c n) (reverse-snoc lines [])
    ∙ tail_lines-last c n (reverse lines)
    ∙ tail_lines-take c n (reverse lines) (reverse recs)
        (Reads-reverse c lines recs (lines_of-Reads c recs h))
