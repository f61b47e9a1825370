-- ===== src/Waitlist.antt =====
-- backend/src/waitlist/waitlist.service.ts: the waiting list, and the invites that an administrator
-- sends from it. SHA-256 and `toLowerCase` are parameters, the random token an argument; a mail is
-- the call that hands it over.
pub mod Invited
pub mod Joining
use corcy.Prelude.{
  ℕ, ◌+◌, ◌-◌, ◌*◌, Bool, true, false, not, ◌&&◌, Option, none, some, List, [], ◌∷◌, ◌++◌, ◌==◌,
  ltb, leb, is_some, Text, text_eq, codes, is_empty, trim, if◌then◌else◌,
}
use corcy.Store.{
  Cuid, Time, User, Invite, WaitlistStatus, waiting, invited, turned_down, WaitlistEntry, World,
  forbidden, invalid_request, already_invited, already_rejected, email_registered, waitlist_join,
  waitlist_invite_sent, waitlist_mail, waitlist_invite_mail, Exec, pure, throw, read, write,
  throw_if, some_or, continue, log_audit, send_mail, ◌>>=◌, ◌>>◌,
}
use corcy.Store.Table.{find_first, find_many, count, update, delete_many}
use corcy.Store.Order.{sort_desc}
use corcy.Plans.Guard.{has_id}
use corcy.Connections.Invites.{has_email, is_admin_user}
use corcy.Auth.{trimmed}

-- `if (!u?.isAdmin) throw`
unfoldable pub assert_admin : Cuid → Exec (Unit {0})
assert_admin admin_id = do
  u ← read (λ w. find_first (has_id admin_id) w.users)
  throw_if (not (is_admin_user u)) forbidden

abbrev pub has_waitlist_id : Cuid → WaitlistEntry → Bool
has_waitlist_id id e = e.id == id

abbrev pub waits_as : Text → WaitlistEntry → Bool
waits_as email e = text_eq e.email email

abbrev pub is_status : WaitlistStatus → WaitlistEntry → Bool
is_status waiting e = elim e.status [ waiting ↦ true | _ ↦ false ]
is_status invited e = elim e.status [ invited ↦ true | _ ↦ false ]
is_status turned_down e = elim e.status [ turned_down ↦ true | _ ↦ false ]

-- An empty text counts as none.
abbrev pub given : Option Text → Option Text
given none = none
given (some t) = if is_empty t then none else some t

-- `ipAddress, createdAt: { gte: oneDayAgo }`
abbrev pub from_ip : Text → Time → WaitlistEntry → Bool
from_ip ip since e = elim e.ip_address [
  | none ↦ false
  | some a ↦ text_eq a ip && leb since e.created_at
]

-- 24 * 60 * 60 * 1000
abbrev pub one_day_ms : ℕ
one_day_ms = 86400000

-- 48 * 60 * 60 * 1000
abbrev pub two_days_ms : ℕ
two_days_ms = 172800000

pub record JoinData : Type 0 where
  pub email : Text
  pub name : Option Text
  pub reason : Option Text
  pub ip_address : Option Text

pub data JoinReply : Type 0 where
  too_many_from_ip has_invite waits_already : JoinReply
  added : Cuid → JoinReply

-- A request without an address is not counted.
abbrev pub too_many : Time → Option Text → World → Bool
too_many now none w = false
too_many now (some ip) w = leb 3 (count (from_ip ip (now - one_day_ms)) w.waitlist)

module _ (to_lower : Text → Text) where
  abbrev pub new_entry : Time → Cuid → JoinData → WaitlistEntry
  new_entry now new_id data_ = record {
    id = new_id;
    email = trim (to_lower data_.email);
    name = trimmed data_.name;
    reason = trimmed data_.reason;
    status = waiting;
    invite_id = none;
    ip_address = given data_.ip_address;
    created_at = now;
  }

  unfoldable pub join : Time → Cuid → JoinData → Exec JoinReply
  join now new_id data_ = do
    full ← read (too_many now (given data_.ip_address))
    if full then pure too_many_from_ip else do
      existing ← read (λ w. find_first (waits_as (trim (to_lower data_.email))) w.waitlist)
      elim existing [
        | some e ↦ if is_status invited e then pure has_invite else pure waits_already
        | none ↦ do
          user ← read (λ w. find_first (has_email (trim (to_lower data_.email))) w.users)
          throw_if (is_some user) email_registered
          write (λ w. record w { waitlist = new_entry now new_id data_ ∷ w.waitlist })
          log_audit none waitlist_join
          send_mail (waitlist_mail (trim (to_lower data_.email)) data_.name)
          pure (added new_id)
      ]

-- `where: status ? { status } : undefined`
abbrev pub of_status : Option WaitlistStatus → WaitlistEntry → Bool
of_status none e = true
of_status (some s) e = is_status s e

unfoldable pub get_list : Cuid → Option WaitlistStatus → Exec (List WaitlistEntry)
unfolding assert_admin
get_list admin_id status = do
  assert_admin admin_id
  read (λ w.
      sort_desc (λ (e : WaitlistEntry). e.created_at) (find_many (of_status status) w.waitlist))

-- The admin's check, and the entry.
unfoldable pub entry_for : Cuid → Cuid → Exec WaitlistEntry
unfolding assert_admin
entry_for waitlist_id admin_id = do
  assert_admin admin_id
  entry ← read (λ w. find_first (has_waitlist_id waitlist_id) w.waitlist)
  some_or entry invalid_request

abbrev pub mark_invited : Cuid → WaitlistEntry → WaitlistEntry
mark_invited invite_id e = record e { status = invited; invite_id = some invite_id }

-- What an invite from the list draws.
pub record WaitlistInvite : Type 0 where
  pub invite_id : Cuid
  pub raw_token : Text

module _ (hash : Text → Text) where
  abbrev pub listed_invite : WaitlistInvite → Time → Cuid → WaitlistEntry → Invite
  listed_invite d now admin_id e = record {
    id = d.invite_id;
    token = d.raw_token;
    token_hash = some (hash d.raw_token);
    from_user_id = admin_id;
    to_email = some e.email;
    expires_at = now + two_days_ms;
    used_at = none;
    used_by_id = none;
    created_at = now;
    used_count = 0;
    max_uses = some 1;
    is_active = true;
  }

  -- Returns the address that the invite was sent to.
  unfoldable pub send_invite : Text → WaitlistInvite → Time → Cuid → Cuid → Exec Text
  unfolding entry_for
  send_invite app_url d now waitlist_id admin_id = do
    entry ← entry_for waitlist_id admin_id
    throw_if (is_status invited entry) already_invited
    write (λ w. record w { invites = listed_invite d now admin_id entry ∷ w.invites })
    write (λ w. record w {
      waitlist = update (has_waitlist_id waitlist_id) (mark_invited d.invite_id) w.waitlist;
    })
    send_mail
        (waitlist_invite_mail entry.email (app_url ++ (codes "/invite/" ++ d.raw_token)) entry.name)
    log_audit (some admin_id) waitlist_invite_sent
    pure entry.email

abbrev pub mark_rejected : WaitlistEntry → WaitlistEntry
mark_rejected e = record e { status = turned_down }

unfoldable pub reject_entry : Cuid → Cuid → Exec Text
unfolding entry_for
reject_entry waitlist_id admin_id = do
  entry ← entry_for waitlist_id admin_id
  throw_if (is_status turned_down entry) already_rejected
  write (λ w. record w { waitlist = update (has_waitlist_id waitlist_id) mark_rejected w.waitlist })
  pure entry.email

unfoldable pub delete_entry : Cuid → Cuid → Exec (Unit {0})
unfolding entry_for
delete_entry waitlist_id admin_id = do
  entry ← entry_for waitlist_id admin_id
  write (λ w. record w { waitlist = delete_many (has_waitlist_id waitlist_id) w.waitlist })

pub record WaitlistStats : Type 0 where
  pub total : ℕ
  pub pending : ℕ
  pub invited : ℕ

unfoldable pub get_stats : Cuid → Exec WaitlistStats
unfolding assert_admin
get_stats admin_id = do
  assert_admin admin_id
  read (λ w. record {
    total = count (λ _. true) w.waitlist;
    pending = count (is_status waiting) w.waitlist;
    invited = count (is_status invited) w.waitlist;
  })
