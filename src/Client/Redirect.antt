-- ===== src/Client/Redirect.antt =====
-- frontend/lib/sanitize-redirect.ts: where a login may lead.
pub mod Inside
use corcy.Prelude.{
  Bool, true, false, not, ◌||◌, Option, none, some, [], ◌∷◌, Text, codes, is_empty, trim,
  starts_with, if◌then◌else◌,
}

-- `s.includes(part)`
unfoldable pub includes : Text → Text → Bool
includes part [] = is_empty part
includes part (c ∷ s) = let later = includes part s in starts_with part (c ∷ s) || later

unfoldable pub sanitize_redirect : Option Text → Option Text
sanitize_redirect none = none
sanitize_redirect (some redirect) =
    let r = trim redirect in
    if is_empty r
    then none
    else if not (starts_with (codes "/") r)
        || starts_with (codes "//") r
        || includes (codes "://") r
    then none
    else some r
