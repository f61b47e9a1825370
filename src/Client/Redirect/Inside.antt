-- ===== src/Client/Redirect/Inside.antt =====
-- A redirect that is let through stays inside.
use mathlib.Core.List.{reverse, reverse-reverse}
use corcy.Prelude.{
  ◌≡◌, refl, ap, ◌∙◌, true, false, Option, none, some, [], ◌∷◌, Text, codes, is_empty, is_space,
  trim, trim_start, starts_with, arith,
}
use corcy.Client.Redirect.{includes, sanitize_redirect}

trim_start_twice : (s : Text) → trim_start (trim_start s) ≡ trim_start s
unfolding trim_start
trim_start_twice [] = refl
trim_start_twice (c ∷ s) = ground (arith, trim_start_twice s)

-- A trimmed text that begins with no blank is not changed by `trim`.
trim_again : (s : Text) → trim_start (trim s) ≡ trim s → trim (trim s) ≡ trim s
unfolding trim
trim_again s kept =
    let back = trim_start (reverse (trim_start s)) in
    ap (λ (t : Text). reverse (trim_start (reverse t))) kept
    ∙ (ap (λ (t : Text). reverse (trim_start t)) (reverse-reverse back)
        ∙ ap reverse (trim_start_twice (reverse (trim_start s))))

slash-trim_start : (s : Text) → starts_with (codes "/") s ≡ true → trim_start s ≡ s
unfolding trim_start starts_with is_space
slash-trim_start [] e = refl
slash-trim_start (c ∷ s) e = ground (arith, e)

abbrev Inside : Text → Type 0
Inside r =
    (is_empty r ≡ false)
    × (starts_with (codes "/") r ≡ true)
    × (starts_with (codes "//") r ≡ false)
    × (includes (codes "://") r ≡ false)

let_through : (t r : Text) → sanitize_redirect (some t) ≡ some r → (trim t ≡ r) × Inside (trim t)
unfolding sanitize_redirect
let_through t r e = (
  ground (arith, e),
  (ground (arith, e), ground (arith, e), ground (arith, e), ground (arith, e)),
)

-- A redirect that is let through begins with one slash, names no protocol, and is let through as it
-- is when it is checked again.
pub sanitize_redirect-inside :
    (redirect : Option Text) (r : Text)
    → sanitize_redirect redirect ≡ some r
    → (starts_with (codes "/") r ≡ true)
      × (starts_with (codes "//") r ≡ false)
      × (includes (codes "://") r ≡ false)
      × (sanitize_redirect (some r) ≡ some r)
sanitize_redirect-inside none r e = absurd (unfold sanitize_redirect in cc e)
sanitize_redirect-inside (some t) r e =
    let (same, (full, slash, single, plain)) = let_through t r e in
    let again : trim (trim t) ≡ trim t = trim_again t (slash-trim_start (trim t) slash) in
    rw (← same) (
      slash,
      single,
      plain,
      unfold sanitize_redirect in rw again (ground (arith, full, slash, single, plain)),
    )
