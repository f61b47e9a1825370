-- ===== src/Store/Rows.antt =====
-- The rows of the tables of backend/prisma/schema.prisma, with the columns that the modelled
-- services read or write. Ids are numbers in the order of the `cuid` strings, 0 for the empty
-- string; a time is a number of milliseconds; a `?` column is an `Option`.
use corcy.Prelude.{ℕ, Bool, Option, List, Text}

abbrev pub Cuid : Type 0
Cuid = ℕ

abbrev pub Time : Type 0
Time = ℕ

pub data Plan : Type 0 where
  free pro team : Plan

pub record User : Type 0 where
  pub id : Cuid
  pub email : Text
  pub password_hash : Text
  pub name : Option Text
  pub is_verified : Bool
  pub is_admin : Bool
  pub plan : Plan
  pub plan_expires_at : Option Time
  pub totp_secret : Option Text
  pub pending_totp_secret : Option Text
  pub totp_enabled : Bool
  pub totp_enabled_at : Option Time
  pub backup_codes : List Text
  pub avatar_url : Option Text
  pub stripe_customer_id : Option Text
  pub e2e_public_key : Option Text
  pub e2e_key_uploaded_at : Option Time

pub record Invite : Type 0 where
  pub id : Cuid
  pub token : Text
  pub token_hash : Option Text
  pub from_user_id : Cuid
  pub to_email : Option Text
  pub expires_at : Time
  pub used_at : Option Time
  pub used_by_id : Option Cuid
  pub created_at : Time
  pub used_count : ℕ
  pub max_uses : Option ℕ
  pub is_active : Bool

pub record Connection : Type 0 where
  pub id : Cuid
  pub user_id_a : Cuid
  pub user_id_b : Cuid
  pub created_at : Time

pub data RequestStatus : Type 0 where
  pending accepted rejected : RequestStatus

pub record ConnectionRequest : Type 0 where
  pub id : Cuid
  pub from_user_id : Cuid
  pub to_user_id : Cuid
  pub status : RequestStatus
  pub created_at : Time

pub record Message : Type 0 where
  pub id : Cuid
  pub created_at : Time
  pub sender_id : Cuid
  pub recipient_id : Cuid
  pub text : Text
  pub attachment_url : Option Text
  pub attachment_name : Option Text
  pub attachment_type : Option Text
  pub read_at : Option Time
  pub edited_at : Option Time
  pub reply_to_id : Option Cuid

pub record MessageReaction : Type 0 where
  pub id : Cuid
  pub message_id : Cuid
  pub user_id : Cuid
  pub emoji : Text

pub record Room : Type 0 where
  pub id : Cuid
  pub name : Text
  pub password_hash : Text
  pub owner_id : Cuid
  pub expires_at : Time

pub record RoomMember : Type 0 where
  pub id : Cuid
  pub room_id : Cuid
  pub user_id : Cuid
  pub joined_at : Time

pub record RoomMessage : Type 0 where
  pub id : Cuid
  pub room_id : Cuid
  pub sender_id : Cuid
  pub text : Text
  pub system_event_type : Option Text
  pub attachment_url : Option Text
  pub attachment_name : Option Text
  pub attachment_type : Option Text
  pub created_at : Time
  pub edited_at : Option Time
  pub reply_to_id : Option Cuid

pub record RefreshToken : Type 0 where
  pub user_id : Cuid
  pub token_hash : Text
  pub expires_at : Time

pub record RateLimit : Type 0 where
  pub key : Text
  pub count : ℕ
  pub reset_at : Time

pub record EmailVerification : Type 0 where
  pub id : Cuid
  pub user_id : Cuid
  pub code : Text
  pub expires_at : Time
  pub created_at : Time

pub data WaitlistStatus : Type 0 where
  waiting invited turned_down : WaitlistStatus

pub record WaitlistEntry : Type 0 where
  pub id : Cuid
  pub email : Text
  pub name : Option Text
  pub reason : Option Text
  pub status : WaitlistStatus
  pub invite_id : Option Cuid
  pub ip_address : Option Text
  pub created_at : Time

pub record Subscription : Type 0 where
  pub user_id : Cuid
  pub stripe_sub_id : Text
  pub stripe_price_id : Text
  pub status : Text
  pub current_period_start : Time
  pub current_period_end : Time
  pub cancel_at_period_end : Bool

pub record PushSubscription : Type 0 where
  pub user_id : Cuid
  pub endpoint : Text
  pub p256dh : Text
  pub auth : Text
  pub user_agent : Option Text
