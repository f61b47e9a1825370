-- ===== src/Connections/Invites.antt =====
-- Invites. SHA-256 (`InviteTokenUtil.hash` of backend/src/invites/invite-security.util.ts) is the
-- parameter `hash`; the random token and placeholder, the new ids, the base of links and the
-- default lifetime of the environment are arguments. Sending the mail is not modelled.
pub mod Usage
pub mod Meter
use corcy.Prelude.{
  ℕ, zero, ◌+◌, ◌*◌, Bool, true, false, not, Option, none, some, List, [], ◌∷◌, ◌++◌, ◌&&◌, ◌||◌,
  ◌==◌, ltb, leb, or_else, is_some, map, Text, text_eq, codes, if◌then◌else◌,
}
use corcy.Store.{
  Cuid, Time, User, Invite, Connection, World, Fault, not_found, forbidden, already_used,
  active_invite_limit, expired, exhausted, own_invite, invite_created, invite_revoked,
  invites_history_cleared, invite_invalid_token, invite_used, Result, ok, err, Exec, pure, throw,
  read, write, throw_if, some_or, log_audit, continue, ◌>>=◌, ◌>>◌,
}
use corcy.Store.Table.{find_first, find_many, count, update, delete_many}
use corcy.Store.Order.{sort_desc}
use corcy.Plans.Guard.{has_id, check_invite_limit}
use corcy.Connections.{are_connected, upsert_connection}

-- `CreateInviteDto`
pub record CreateInvite : Type 0 where
  pub max_uses : Option ℕ
  pub expires_hours : Option ℕ

-- What a create operation draws: ids, random texts.
pub record Draw : Type 0 where
  pub invite_id : Cuid
  pub raw_token : Text
  pub placeholder : Text

abbrev max_active_invites : ℕ
max_active_invites = 10

abbrev pub is_live : Time → Cuid → Invite → Bool
is_live now user_id i =
    i.from_user_id == user_id && i.is_active && ltb now i.expires_at && not (is_some i.used_at)

assert_under_active_invite_limit : Time → Cuid → Exec (Unit {0})
assert_under_active_invite_limit now user_id = do
  n ← read (λ w. count (is_live now user_id) w.invites)
  throw_if (leb max_active_invites n) active_invite_limit

-- `env_hours` is `Number(process.env.INVITE_TOKEN_EXPIRES_HOURS)`, 0 where that is not a number.
abbrev pub default_invite_expires_hours : ℕ → CreateInvite → ℕ
default_invite_expires_hours env_hours opts =
    or_else opts.expires_hours (if env_hours == 0 then 720 else env_hours)

abbrev pub has_invite_id : Cuid → Invite → Bool
has_invite_id invite_id i = i.id == invite_id

-- `maxUses ?? 1`
abbrev pub max_uses : Invite → ℕ
max_uses i = or_else i.max_uses 1

-- What `acceptInvite` writes into the row of the invite `i` that it had read.
abbrev pub use_invite : Time → Cuid → Invite → Invite → Invite
use_invite now user_id i row = record row {
  used_count = row.used_count + 1;
  used_at = some (or_else i.used_at now);
  used_by_id = some user_id;
  is_active = ltb (i.used_count + 1) (max_uses i);
}

abbrev pub is_admin_user : Option User → Bool
is_admin_user none = false
is_admin_user (some u) = u.is_admin

pub data InviteReply : Type 0 where
  self_invite already_contact : InviteReply
  created : Text → Text → InviteReply

-- `${baseUrl}/invite/${rawToken}`
abbrev link_of : Text → Text → Text
link_of base_url raw_token = base_url ++ (codes "/invite/" ++ raw_token)

abbrev pub has_email : Text → User → Bool
has_email email u = text_eq u.email email

abbrev contact_already : Cuid → Option User → World → Bool
contact_already user_id none w = false
contact_already user_id (some u) w = are_connected user_id u.id w

module _ (hash : Text → Text) where
  -- The row that `createInviteRecord` creates.
  abbrev pub new_invite : ℕ → Draw → Time → Cuid → CreateInvite → Option Text → Invite
  new_invite env_hours d now from_user_id opts to_email = record {
    id = d.invite_id;
    token = d.placeholder;
    token_hash = some (hash d.raw_token);
    from_user_id = from_user_id;
    to_email = to_email;
    expires_at = now + default_invite_expires_hours env_hours opts * 3600000;
    used_at = none;
    used_by_id = none;
    created_at = now;
    used_count = 0;
    max_uses = opts.max_uses;
    is_active = true;
  }

  create_invite_record : ℕ → Draw → Time → Cuid → CreateInvite → Option Text → Exec Cuid
  create_invite_record env_hours d now from_user_id opts to_email = do
    write (λ w. record w {
      invites = new_invite env_hours d now from_user_id opts to_email ∷ w.invites;
    })
    pure d.invite_id

  -- The checks of both create operations, and the record.
  unfoldable pub checked_record :
      ℕ → Draw → Time → Cuid → CreateInvite → Option Text → Exec (Unit {0})
  unfolding assert_under_active_invite_limit create_invite_record
  checked_record env_hours d now user_id opts to_email = do
    check_invite_limit now user_id
    assert_under_active_invite_limit now user_id
    invite_id ← create_invite_record env_hours d now user_id opts to_email
    log_audit (some user_id) invite_created

  unfoldable pub create_invite_link :
      Text → ℕ → Draw → Time → Cuid → CreateInvite → Exec (Text × Text)
  create_invite_link base_url env_hours d now user_id opts = do
    me ← read (λ w. find_first (has_id user_id) w.users)
    throw_if (not (is_some me)) forbidden
    checked_record env_hours d now user_id opts none
    pure (link_of base_url d.raw_token, d.raw_token)

  unfoldable pub invite : Text → ℕ → Draw → Time → Cuid → Text → CreateInvite → Exec InviteReply
  invite base_url env_hours d now user_id to_norm opts = do
    found ← read (λ w. find_first (has_id user_id) w.users)
    me ← some_or found forbidden
    if text_eq me.email to_norm then pure self_invite else do
      existing ← read (λ w. find_first (has_email to_norm) w.users)
      already ← read (contact_already user_id existing)
      if already then pure already_contact else do
        checked_record env_hours d now user_id opts (some to_norm)
        pure (created (link_of base_url d.raw_token) d.raw_token)

  -- `tokenHash: h, isActive: true`
  abbrev pub has_token : Text → Invite → Bool
  has_token raw_token i = elim i.token_hash [
    | none ↦ false
    | some h ↦ text_eq h (hash raw_token) && i.is_active
  ]

  unfoldable pub get_invite_info : Time → Text → Exec Invite
  get_invite_info now raw_token = do
    found ← read (λ w. find_first (has_token raw_token) w.invites)
    i ← some_or found not_found
    throw_if (ltb i.expires_at now) expired
    throw_if (leb (max_uses i) i.used_count) exhausted
    pure i

  -- The checks of `acceptInvite`: the invite that the token may use.
  accept_checks : Time → Text → Cuid → Exec Invite
  accept_checks now raw_token user_id = do
    found ← read (λ w. find_first (has_token raw_token) w.invites)
    elim found [
      | none ↦ do log_audit (some user_id) invite_invalid_token; throw not_found
      | some i ↦ do
        throw_if (ltb i.expires_at now) expired
        throw_if (leb (max_uses i) i.used_count) exhausted
        user ← read (λ w. find_first (has_id user_id) w.users)
        throw_if (not (is_some user)) forbidden
        throw_if (i.from_user_id == user_id) own_invite
        pure i
    ]

  -- Returns the id of the user who invited.
  unfoldable pub accept_invite : Cuid → Time → Text → Cuid → Exec Cuid
  unfolding accept_checks
  accept_invite connection_id now raw_token user_id = do
    i ← accept_checks now raw_token user_id
    inviter ← read (λ w. find_first (has_id i.from_user_id) w.users)
    write (λ w. record w {
      invites = update (has_invite_id i.id) (use_invite now user_id i) w.invites;
    })
    (if is_admin_user inviter
        then pure tt
        else write (upsert_connection connection_id now i.from_user_id user_id))
    log_audit (some user_id) invite_used
    pure i.from_user_id

pub data InviteStatus : Type 0 where
  active used gone revoked : InviteStatus

-- The `status` that `listInvites` reports; `gone` is 'expired'.
unfoldable pub invite_status : Time → Invite → InviteStatus
invite_status now i =
    if not i.is_active && not (is_some i.used_at)
    then revoked
    else if is_some i.used_at
    then used
    else if ltb i.expires_at now
    then gone
    else active

unfoldable pub list_invites : Time → Cuid → Exec (List (Invite × InviteStatus))
unfolding invite_status
list_invites now user_id = read (λ w.
    map (λ i. (i, invite_status now i))
      (sort_desc (λ (i : Invite). i.created_at)
        (find_many (λ (i : Invite). i.from_user_id == user_id) w.invites)))

unfoldable pub clear_invites_history : Cuid → Exec ℕ
clear_invites_history user_id = do
  n ← read (λ w. count (λ (i : Invite). i.from_user_id == user_id) w.invites)
  write (λ w. record w {
    invites = delete_many (λ (i : Invite). i.from_user_id == user_id) w.invites;
  })
  log_audit (some user_id) invites_history_cleared
  pure n

unfoldable pub revoke_invite : Cuid → Cuid → Exec (Unit {0})
revoke_invite user_id invite_id = do
  found ← read (λ w.
      find_first (λ (i : Invite). has_invite_id invite_id i && i.from_user_id == user_id) w.invites)
  i ← some_or found forbidden
  throw_if (is_some i.used_at) already_used
  if not i.is_active then pure tt else do
    write (λ w. record w {
      invites = update (has_invite_id invite_id) (λ i. record i { is_active = false }) w.invites;
    })
    log_audit (some user_id) invite_revoked
