-- ===== src/Waitlist/Invited.antt =====
-- An invite that is sent from the list.
use corcy.Prelude.{◌≡◌, inl, inr, true, Option-cases, some, ◌∷◌, ◌++◌, codes, Text, arith}
use corcy.Store.{
  Cuid, Time, Mail, waitlist_invite_mail, WaitlistEntry, World, Fault, Result-cases, ok, err,
}
use corcy.Store.Table.{count, find_first, update}
use corcy.Connections.Invites.{has_invite_id, is_admin_user}
use corcy.Plans.Guard.{has_id}
use corcy.Connections.Invites.Meter.{IsSound}
use corcy.Waitlist.{WaitlistInvite, listed_invite, has_waitlist_id, mark_invited, send_invite}

module _ (hash : Text → Text) (app_url : Text) (d : WaitlistInvite) (now : Time)
    (waitlist_id admin_id : Cuid) (w : World) where
  abbrev pub sent : World
  sent = (send_invite hash app_url d now waitlist_id admin_id w).1

  -- Whoever is refused changes nothing.
  refused-sent :
      (f : Fault) → (send_invite hash app_url d now waitlist_id admin_id w).0 ≡ err f → sent ≡ w
  refused-sent f thrown =
      elim (Option-cases (find_first (has_waitlist_id waitlist_id) w.waitlist)) [
        | inl missing ↦ unfold send_invite in ground (arith, missing, thrown)
        | inr (e, found) ↦ unfold send_invite in ground (arith, found, thrown)
      ]

  -- The mail with the link of the invite.
  abbrev pub link_mail : WaitlistEntry → Mail
  link_mail e = waitlist_invite_mail e.email (app_url ++ (codes "/invite/" ++ d.raw_token)) e.name

  abbrev Sends : WaitlistEntry → Text → Type 0
  Sends e email =
      (find_first (has_waitlist_id waitlist_id) w.waitlist ≡ some e)
      × (e.email ≡ email)
      × (is_admin_user (find_first (has_id admin_id) w.users) ≡ true)
      × (sent.connections ≡ w.connections)
      × (sent.requests ≡ w.requests)
      × (sent.users ≡ w.users)
      × (sent.invites ≡ listed_invite hash d now admin_id e ∷ w.invites)
      × (sent.waitlist ≡ update (has_waitlist_id waitlist_id) (mark_invited d.invite_id) w.waitlist)
      × (sent.mails ≡ link_mail e ∷ w.mails)

  ok-sent :
      (email : Text)
      → (send_invite hash app_url d now waitlist_id admin_id w).0 ≡ ok email
      → (e : WaitlistEntry) × Sends e email
  ok-sent email done = elim (Option-cases (find_first (has_waitlist_id waitlist_id) w.waitlist)) [
    | inl missing ↦ absurd (unfold send_invite in ground (arith, missing, done))
    | inr (e, found) ↦ (e, unfold send_invite in ground (arith, found, done))
  ]

  pub send_invite-IsSound :
      IsSound w → count (has_invite_id d.invite_id) w.invites ≡ 0 → IsSound sent
  send_invite-IsSound h fresh =
      elim (Result-cases (send_invite hash app_url d now waitlist_id admin_id w).0) [
        | inl (f, thrown) ↦ rw (refused-sent f thrown) h
        | inr (email, done) ↦
            let (e, (found, to, admin, c, r, u, i, l, mailed)) = ok-sent email done in
            record {
              contacts = rw (c, r) h.contacts;
              invites = rw i (record {
                ids = λ k.
                    unfold count in
                    ground (arith, h.invites.ids k, λ (e : d.invite_id ≡ k). rw e at fresh);
                metered = ((omega arith, λ _. omega arith), h.invites.metered);
              });
            }
      ]
