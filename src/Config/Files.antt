-- ===== src/Config/Files.antt =====
-- internal/config/config.go: the file in which a site is kept.
use orxies.Prelude.{
  ℕ, zero, suc, ◌-◌, ◌≡◌, refl, Bool, true, false, ◌||◌, not, [], ◌∷◌, ◌++◌, ◌==◌, if◌then◌else◌,
  length, Text, codes, is_empty, to_lower, replace_all, replace_from, has_byte, arith,
}
use orxies.Config.{Site}

abbrev slash : ℕ
slash = 47

abbrev backslash : ℕ
backslash = 92

abbrev underscore : Text
underscore = codes "_"

abbrev without_slash : Text → Text
without_slash domain = replace_all (to_lower domain) (slash ∷ []) underscore

abbrev without_backslash : Text → Text
without_backslash domain = replace_all (without_slash domain) (backslash ∷ []) underscore

unfoldable pub sanitize_filename : Text → Text
sanitize_filename domain = replace_all (without_backslash domain) (codes "..") underscore

unfoldable pub site_filename : Text → Text
unfolding sanitize_filename
site_filename domain = sanitize_filename domain ++ codes ".yml"

-- The guard of `LoadSite` and of `DeleteSite`.
unfoldable pub is_filename : Text → Bool
is_filename name = not (is_empty name || has_byte name slash || has_byte name backslash)

-- The name under which `SaveSite` writes a site.
unfoldable pub save_name : Site → Text
unfolding site_filename
save_name s = if is_empty s.filename then site_filename s.domain else s.filename

-- A replaced byte is gone.
replace_from-has_byte :
    (c d : ℕ) (s : Text)
    → (c == d) ≡ false
    → has_byte (replace_from 0 s (c ∷ []) (d ∷ [])) c ≡ false
replace_from-has_byte c d [] ne = refl
replace_from-has_byte c d (a ∷ s) ne = ground (arith, replace_from-has_byte c d s ne)

-- A replacement brings in the bytes of the new text only.
replace_from-fresh :
    (c d : ℕ) (n : ℕ) (s old : Text)
    → (d == c) ≡ false
    → has_byte s c ≡ false
    → has_byte (replace_from n s old (d ∷ [])) c ≡ false
replace_from-fresh c d n [] old ne h = refl
replace_from-fresh c d zero (a ∷ s) old ne h =
    let rest : has_byte s c ≡ false = ground arith in
    ground (
      arith,
      replace_from-fresh c d (length old - 1) s old ne rest,
      replace_from-fresh c d zero s old ne rest,
    )
replace_from-fresh c d (suc n) (a ∷ s) old ne h = replace_from-fresh c d n s old ne (ground arith)

has_byte-append :
    (s t : Text) (c : ℕ) → has_byte s c ≡ false → has_byte t c ≡ false → has_byte (s ++ t) c ≡ false
has_byte-append [] t c h k = k
has_byte-append (a ∷ s) t c h k =
    let rest : has_byte s c ≡ false = ground arith in ground (arith, has_byte-append s t c rest k)

sanitize_filename-slash : (domain : Text) → has_byte (sanitize_filename domain) slash ≡ false
unfolding sanitize_filename
sanitize_filename-slash domain =
    replace_from-fresh slash 95 0 (without_backslash domain) (codes "..") refl (
      replace_from-fresh slash 95 0 (without_slash domain) (backslash ∷ []) refl
        (replace_from-has_byte slash 95 (to_lower domain) refl))

sanitize_filename-backslash :
    (domain : Text) → has_byte (sanitize_filename domain) backslash ≡ false
unfolding sanitize_filename
sanitize_filename-backslash domain =
    replace_from-fresh backslash 95 0 (without_backslash domain) (codes "..") refl
      (replace_from-has_byte backslash 95 (without_slash domain) refl)

append-not_empty : (s t : Text) → is_empty t ≡ false → is_empty (s ++ t) ≡ false
append-not_empty [] t h = h
append-not_empty (a ∷ s) t h = refl

-- Whatever the domain, the name that it is saved under is one that loading and deleting accept: it
-- is not empty, and has no slash and no backslash, so it stays in the directory of the sites.
pub site_filename-is_filename : (domain : Text) → is_filename (site_filename domain) ≡ true
unfolding is_filename site_filename
site_filename-is_filename domain =
    let yml = codes ".yml" in
    let f = sanitize_filename domain in
    cc (
      append-not_empty f yml refl,
      has_byte-append f yml slash (sanitize_filename-slash domain) refl,
      has_byte-append f yml backslash (sanitize_filename-backslash domain) refl,
    )
