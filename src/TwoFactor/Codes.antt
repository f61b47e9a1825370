-- ===== src/TwoFactor/Codes.antt =====
-- Activation and its end, and the use of backup codes.
use corcy.Prelude.{
  ℕ, zero, suc, ◌+◌, ◌≡◌, ◌≤◌, inl, inr, refl, Bool, true, false, none, some, List, [], ◌∷◌, Text,
  text_eq, arith, Option-cases,
}
use corcy.Store.{Cuid, Time, User, World, ok}
use corcy.Store.Table.{find_first, count}
use corcy.Store.Table.Laws.{find_first-update_self}
use corcy.Plans.Guard.{has_id}
use corcy.TwoFactor.{
  pending_of, index_of, remove_at, code_hash, verify_and_consume_backup_code, activate_totp,
  verify_totp, disable_totp,
}

-- Codes with the hash.
abbrev pub same_code : Text → Text → Bool
same_code h c = text_eq c h

count-remove_at :
    (h : Text) (cs : List Text) (i : ℕ)
    → index_of h cs ≡ some i
    → count (same_code h) (remove_at i cs) + 1 ≡ count (same_code h) cs
unfolding index_of remove_at count
count-remove_at h [] i e = absurd (cc e)
count-remove_at h (c ∷ cs) zero e = ground (arith, e, Option-cases (index_of h cs))
count-remove_at h (c ∷ cs) (suc i) e =
    ground (arith, e, Option-cases (index_of h cs), count-remove_at h cs i)

index_of-none : (h : Text) (cs : List Text) → count (same_code h) cs ≡ 0 → index_of h cs ≡ none
unfolding index_of count
index_of-none h [] e = refl
index_of-none h (c ∷ cs) e = ground (arith, index_of-none h cs)

module _ (hash to_upper : Text → Text) (user_id : Cuid) (raw_code : Text) (w : World) where
  -- A backup code that the user has once is accepted once: the second use of it is refused and
  -- changes nothing.
  pub backup_code_once :
      (u : User)
      → find_first (has_id user_id) w.users ≡ some u
      → count (same_code (code_hash hash to_upper raw_code)) u.backup_codes ≤ 1
      → (verify_and_consume_backup_code hash to_upper user_id raw_code w).0 ≡ ok true
      → verify_and_consume_backup_code hash to_upper user_id raw_code
          (verify_and_consume_backup_code hash to_upper user_id raw_code w).1
        ≡ (ok false, (verify_and_consume_backup_code hash to_upper user_id raw_code w).1)
  unfolding verify_and_consume_backup_code
  backup_code_once u known once e =
      elim (Option-cases (index_of (code_hash hash to_upper raw_code) u.backup_codes)) [
        | inl missing ↦ absurd (ground (arith, known, missing, e))
        | inr (i, found) ↦
            let left = count-remove_at (code_hash hash to_upper raw_code) u.backup_codes i found in
            let gone =
              index_of-none (code_hash hash to_upper raw_code) (remove_at i u.backup_codes)
                (omega (arith, left, once)) in
            ground (
              arith,
              known,
              found,
              gone,
              find_first-update_self (has_id user_id) (spend i u) w.users (λ x. refl),
            )
      ]
    where
      spend : ℕ → User → User → User
      spend i u row = record row { backup_codes = remove_at i u.backup_codes }

module _ (verify : Text → Text → Bool) (now : Time) (user_id : Cuid) (token : Text)
    (w : World) where
  -- The one-time password that activated the second factor passes the check behind it.
  pub activate_totp-verifies :
      (activate_totp verify now user_id token w).0 ≡ ok true
      → (verify_totp verify user_id token (activate_totp verify now user_id token w).1).0 ≡ ok true
  unfolding activate_totp verify_totp
  activate_totp-verifies e =
      elim (Option-cases (pending_of (find_first (has_id user_id) w.users))) [
        | inl missing ↦ absurd (ground (arith, missing, e))
        | inr (secret, drawn) ↦ elim (Option-cases (find_first (has_id user_id) w.users)) [
          | inl nobody ↦ absurd (ground (arith, nobody, e))
          | inr (u, known) ↦ ground (
            arith,
            drawn,
            known,
            e,
            find_first-update_self (has_id user_id) (turn_on secret) w.users (λ x. refl),
          )
        ]
      ]
    where
      turn_on : Text → User → User
      turn_on secret u = record u {
        totp_secret = some secret;
        pending_totp_secret = none;
        totp_enabled = true;
        totp_enabled_at = some now;
      }

module _ (verify : Text → Text → Bool) (user_id : Cuid) (token : Text) (w : World) where
  -- Once the second factor is disabled, no one-time password and no backup code passes.
  pub disable_totp-refuses :
      (hash to_upper : Text → Text) (other raw_code : Text)
      → (disable_totp verify user_id token w).0 ≡ ok true
      → ((verify_totp verify user_id other (disable_totp verify user_id token w).1).0 ≡ ok false)
        × ((verify_and_consume_backup_code hash to_upper user_id raw_code
              (disable_totp verify user_id token w).1).0
            ≡ ok false)
  unfolding disable_totp verify_totp verify_and_consume_backup_code index_of
  disable_totp-refuses hash to_upper other raw_code e =
      elim (Option-cases (find_first (has_id user_id) w.users)) [
        | inl nobody ↦ absurd (ground (arith, nobody, e))
        | inr (u, known) ↦
            let after = find_first-update_self (has_id user_id) turn_off w.users (λ x. refl) in
            (ground (arith, known, e, after), ground (arith, known, e, after))
      ]
    where
      turn_off : User → User
      turn_off u = record u {
        totp_secret = none;
        pending_totp_secret = none;
        totp_enabled = false;
        backup_codes = [];
      }
