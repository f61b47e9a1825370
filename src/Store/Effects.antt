-- ===== src/Store/Effects.antt =====
-- What a request does besides writing rows: audit entries, events for websocket clients, pushes.
use corcy.Prelude.{Option, Text, Bool}
use corcy.Store.Rows.{Cuid, Time, Message, RoomMessage}

-- The `action` strings of the audit log.
pub data AuditAction : Type 0 where
  invite_created invites_history_cleared invite_revoked : AuditAction
  invite_invalid_token invite_used : AuditAction
  refresh_token_reuse_or_invalid : AuditAction
  two_factor_enabled two_factor_disabled backup_code_used : AuditAction
  register_invalid_invite register_via_invite register_admin register_bootstrap : AuditAction
  email_verified login_failed login_two_factor_required user_login user_logout : AuditAction
  two_factor_challenge_failed login_two_factor_success : AuditAction
  two_factor_backup_failed login_two_factor_backup_success : AuditAction
  two_factor_setup_initiated password_changed : AuditAction
  waitlist_join waitlist_invite_sent admin_plan_changed : AuditAction

pub record AuditEntry : Type 0 where
  pub user_id : Option Cuid
  pub action : AuditAction

-- The columns of an answered message that a payload shows.
pub record ReplyView : Type 0 where
  pub id : Cuid
  pub text : Text
  pub sender_id : Cuid
  pub attachment_name : Option Text

-- A message as a client gets it: the row with a readable text, and the message it answers.
pub record MessageView : Type 0 where
  pub message : Message
  pub reply_to : Option ReplyView

pub record RoomMessageView : Type 0 where
  pub message : RoomMessage
  pub reply_to : Option ReplyView

-- The payloads of `sendToUser` and `sendToRoom`. A reaction's flag is true for 'added'.
pub data Event : Type 0 where
  new_direct_message : MessageView → Event
  message_read : Cuid → Time → Event
  message_edited : Cuid → Text → Time → Event
  reaction_updated : Cuid → Text → Cuid → Bool → Event
  new_room_message : RoomMessageView → Event
  room_message_edited : Cuid → Cuid → Text → Time → Event

-- `server.to(...).emit(...)`: the socket.io room of a user or of a chat room.
pub data Emission : Type 0 where
  to_user : Cuid → Event → Emission
  to_room : Cuid → Event → Emission

pub record Push : Type 0 where
  pub user_id : Cuid
  pub title : Text
  pub body : Text

-- What is handed to `sendMail`, with the address: the code, the name, or the link.
pub data Mail : Type 0 where
  verification_mail : Text → Text → Mail
  welcome_mail : Text → Text → Mail
  waitlist_mail : Text → Option Text → Mail
  waitlist_invite_mail : Text → Text → Option Text → Mail
