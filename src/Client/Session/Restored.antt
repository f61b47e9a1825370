-- ===== src/Client/Session/Restored.antt =====
-- The start of the web client.
use corcy.Prelude.{
  ℕ, zero, suc, ◌+◌, ◌≡◌, ◌≤◌, refl, inl, inr, true, ◌==◌, Option, is_some, arith, Bool-cases,
  Option-cases,
}
use corcy.Client.Api.{Response}
use corcy.Client.Session.{ClientStores, restored, restore_rounds, try_restore_session}

module _ (net : ℕ → Option Response) where
  rounds-end :
      (left n : ℕ) (s : ClientStores)
      → ((restore_rounds net left n s).0.1.hydrated ≡ true)
        × (is_some (restore_rounds net left n s).0.1.access_token
            ≡ (restore_rounds net left n s).0.0)
        × ((restore_rounds net left n s).1 ≤ n + left)
  unfolding restore_rounds
  rounds-end zero n s = (refl, refl, omega arith)
  rounds-end (suc left) n s =
      let (awake, same, few) = rounds-end left (suc n) s in
      elim (Option-cases (net n)) [
        | inl failed ↦ (
          ground (arith, failed, awake),
          ground (arith, failed, same),
          ground (arith, failed, few),
        )
        | inr (res, came) ↦ elim (Option-cases (restored res)) [
          | inr (g, granted_now) ↦ (
            ground (arith, came, granted_now),
            ground (arith, came, granted_now),
            ground (arith, came, granted_now),
          )
          | inl refused ↦ elim (Bool-cases (res.status == 401)) [
            | inl over ↦ (
              ground (arith, came, refused, over),
              ground (arith, came, refused, over),
              ground (arith, came, refused, over),
            )
            | inr again ↦ (
              ground (arith, came, refused, again, awake),
              ground (arith, came, refused, again, same),
              ground (arith, came, refused, again, few),
            )
          ]
        ]
      ]

  -- Restoring a session sends at most two requests and then lets the pages show, whatever the
  -- network answers; there is an access token exactly if it succeeded.
  pub try_restore_session-ends :
      (s : ClientStores)
      → ((try_restore_session net s).0.1.hydrated ≡ true)
        × (is_some (try_restore_session net s).0.1.access_token ≡ (try_restore_session net s).0.0)
        × ((try_restore_session net s).1 ≤ 2)
  unfolding try_restore_session
  try_restore_session-ends s = rounds-end 2 0 s
