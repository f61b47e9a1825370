-- ===== src/Store/State.antt =====
-- The state that the services share: the tables, the newest row first, the map of the gateway from
-- a user to the ids of the user's sockets, and the effects so far, the latest first.
use corcy.Prelude.{ℕ, List, []}
use corcy.Store.Rows.{
  Cuid, User, Invite, Connection, ConnectionRequest, Message, MessageReaction, Room, RoomMember,
  RoomMessage, RefreshToken, RateLimit, EmailVerification, WaitlistEntry, Subscription,
  PushSubscription,
}
use corcy.Store.Effects.{AuditEntry, Emission, Push, Mail}

pub record World : Type 0 where
  pub users : List User
  pub invites : List Invite
  pub connections : List Connection
  pub requests : List ConnectionRequest
  pub messages : List Message
  pub reactions : List MessageReaction
  pub rooms : List Room
  pub members : List RoomMember
  pub room_messages : List RoomMessage
  pub refresh_tokens : List RefreshToken
  pub rate_limits : List RateLimit
  pub verifications : List EmailVerification
  pub waitlist : List WaitlistEntry
  pub subscriptions : List Subscription
  pub push_subscriptions : List PushSubscription
  pub user_sockets : List (Cuid × List ℕ)
  pub audit : List AuditEntry
  pub outbox : List Emission
  pub pushes : List Push
  pub mails : List Mail

abbrev pub empty_world : World
empty_world = record {
  users = [];
  invites = [];
  connections = [];
  requests = [];
  messages = [];
  reactions = [];
  rooms = [];
  members = [];
  room_messages = [];
  refresh_tokens = [];
  rate_limits = [];
  verifications = [];
  waitlist = [];
  subscriptions = [];
  push_subscriptions = [];
  user_sockets = [];
  audit = [];
  outbox = [];
  pushes = [];
  mails = [];
}
