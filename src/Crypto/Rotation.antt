-- ===== src/Crypto/Rotation.antt =====
-- Rotating the keys of `loadKeyStore`.
use corcy.Prelude.{
  ℕ, ◌+◌, ◌<◌, ◌≡◌, some, List, [], ◌∷◌, ◌++◌, ◌==◌, length, length-append, arith, All,
  if◌then◌else◌,
}
use corcy.Crypto.{key_at, max_version, load_versions, load_key_store}

-- Keys of the right length.
abbrev pub Fits : List ℕ → Type 0
Fits b = length b ≡ 32

All-snoc : (bufs : List (List ℕ)) (b : List ℕ) → All Fits bufs → Fits b → All Fits (bufs ++ b ∷ [])
All-snoc [] b h k = (k, tt)
All-snoc (x ∷ xs) b (p, h) k = (p, All-snoc xs b h k)

max_version-load_from :
    (s : ℕ) (b : List ℕ) (bufs : List (List ℕ))
    → All Fits (b ∷ bufs)
    → max_version (load_versions s (b ∷ bufs)) ≡ s + length bufs
unfolding max_version load_versions
max_version-load_from s b [] h = ground arith
max_version-load_from s b (x ∷ xs) h = ground (arith, max_version-load_from (s + 1) x xs h.1)

max_version-load :
    (bufs : List (List ℕ))
    → All Fits bufs
    → max_version (load_versions 1 bufs) + 1 ≡ 1 + length bufs
max_version-load [] h = unfold max_version load_versions in omega arith
max_version-load (b ∷ bufs) h = omega (arith, max_version-load_from 1 b bufs h)

key_at-append :
    (s : ℕ) (bufs : List (List ℕ)) (b : List ℕ) (v : ℕ)
    → All Fits bufs
    → Fits b
    → key_at v (load_versions s (bufs ++ b ∷ []))
      ≡ (if v == s + length bufs then some b else key_at v (load_versions s bufs))
unfolding key_at load_versions
key_at-append s [] b v h k = ground arith
key_at-append s (x ∷ xs) b v h k = ground (arith, key_at-append (s + 1) xs b v h.1 k)

load_versions-below :
    (s : ℕ) (bufs : List (List ℕ)) (v : ℕ) (key : List ℕ)
    → key_at v (load_versions s bufs) ≡ some key
    → v < s + length bufs
unfolding key_at load_versions
load_versions-below s [] v key e = absurd (cc e)
load_versions-below s (x ∷ xs) v key e = ground (arith, load_versions-below (s + 1) xs v key)

-- With the keys of `bufs` numbered and the current key moved to the number behind them, all of 32
-- bytes, every version still has its key beside a new current key.
pub key_at-rotate :
    (bufs : List (List ℕ)) (old new : List ℕ) (v : ℕ) (key : List ℕ)
    → All Fits bufs
    → length old ≡ 32
    → key_at v (load_key_store bufs (some old)) ≡ some key
    → key_at v (load_key_store (bufs ++ old ∷ []) (some new)) ≡ some key
unfolding load_key_store key_at
key_at-rotate bufs old new v key h k e =
    ground (arith, k, e, new_max, old_max, at_last, load_versions-below 1 bufs v key)
  where
    old_max : max_version (load_versions 1 bufs) + 1 ≡ 1 + length bufs
    old_max = max_version-load bufs h

    new_max : max_version (load_versions 1 (bufs ++ old ∷ [])) + 1 ≡ 1 + (length bufs + 1)
    new_max = omega (
      arith,
      max_version-load (bufs ++ old ∷ []) (All-snoc bufs old h k),
      length-append {0} bufs (old ∷ []),
    )

    at_last :
        key_at v (load_versions 1 (bufs ++ old ∷ []))
        ≡ (if v == 1 + length bufs then some old else key_at v (load_versions 1 bufs))
    at_last = key_at-append 1 bufs old v h k
