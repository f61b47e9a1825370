-- ===== src/Store/Handler.antt =====
-- Handlers: a step over the world that returns or throws. Each query is committed at once, so what
-- was written before an exception stays written, and the world comes back beside the fault.
use corcy.Prelude.{
  ◌≡◌, ◌⊎◌, inl, inr, refl, ℤ, Bool, true, false, Option, none, some, ◌∷◌, ◌==◌, if◌then◌else◌,
}
use corcy.Store.Rows.{Cuid, Plan}
use corcy.Store.Effects.{AuditAction, Event, to_user, to_room, Push, Mail}
use corcy.Store.State.{World}

-- The exceptions that the services throw: the class of the exception and the case of its message.
pub data Fault : Type 0 where
  -- ForbiddenException of the plan guard
  invite_limit room_limit room_members_limit contacts_limit : Plan → ℤ → Fault
  -- NotFoundException
  not_found : Fault
  -- ForbiddenException
  forbidden self_target already_connected already_sent reverse_pending processed : Fault
  not_a_contact edit_window_over wrong_password owner_cannot_leave already_used : Fault
  -- BadRequestException
  invalid_request empty_text text_too_long recipient_missing bad_attachment : Fault
  active_invite_limit expired exhausted own_invite bad_emoji reaction_limit : Fault
  avatar_data_uri avatar_too_long name_too_long already_invited already_rejected : Fault
  -- UnauthorizedException
  unauthorized : Fault
  -- ConflictException
  email_registered : Fault
  -- a PrismaClientKnownRequestError, or another Error
  record_missing stripe_disabled no_customer no_session_url bad_signature : Fault

pub data Result (A : Type 0) : Type 0 where
  ok : A → Result A
  err : Fault → Result A

abbrev pub Exec : Type 0 → Type 0
Exec A = World → Result A × World

module _ {A : Type 0} where
  abbrev pub pure : A → Exec A
  pure a w = (ok a, w)

  abbrev pub throw : Fault → Exec A
  throw f w = (err f, w)

  abbrev pub read : (World → A) → Exec A
  read f w = (ok (f w), w)

  -- `if (!o) throw f`, where the value of `o` is used afterwards.
  abbrev pub some_or : Option A → Fault → Exec A
  some_or none f w = (err f, w)
  some_or (some a) f w = (ok a, w)

abbrev pub write : (World → World) → Exec (Unit {0})
write f w = (ok tt, f w)

-- `if (b) throw f`.
abbrev pub throw_if : Bool → Fault → Exec (Unit {0})
throw_if true f w = (err f, w)
throw_if false f w = (ok tt, w)

module _ {A B : Type 0} where
  abbrev pub continue : Result A → (A → Exec B) → Exec B
  continue (ok a) f w = f a w
  continue (err e) f w = (err e, w)

  infixl 5 ◌>>=◌ ◌>>◌
  abbrev pub ◌>>=◌ : Exec A → (A → Exec B) → Exec B
  ◌>>=◌ m f w = continue (m w).0 f (m w).1

  abbrev pub ◌>>◌ : Exec A → Exec B → Exec B
  m >> n = m >>= λ _. n

-- `if (!id)`: an empty id, which is 0, counts as none.
abbrev pub present_id : Option Cuid → Option Cuid
present_id none = none
present_id (some u) = if u == 0 then none else some u

-- `audit.log({ userId, action })`, which never throws.
abbrev pub log_audit : Option Cuid → AuditAction → Exec (Unit {0})
log_audit user action =
    write (λ w. record w { audit = record { user_id = user; action = action } ∷ w.audit })

-- `chatGateway.sendToUser` and `sendToRoom`.
abbrev pub send_to_user : Cuid → Event → Exec (Unit {0})
send_to_user user e = write (λ w. record w { outbox = to_user user e ∷ w.outbox })

abbrev pub send_to_room : Cuid → Event → Exec (Unit {0})
send_to_room room e = write (λ w. record w { outbox = to_room room e ∷ w.outbox })

abbrev pub send_mail : Mail → Exec (Unit {0})
send_mail m = write (λ w. record w { mails = m ∷ w.mails })

abbrev pub push_to_user : Push → Exec (Unit {0})
push_to_user p = write (λ w. record w { pushes = p ∷ w.pushes })

pub Result-cases :
    {A : Type 0} (r : Result A) → ((f : Fault) × (r ≡ err f)) ⊎ ((a : A) × (r ≡ ok a))
Result-cases (ok a) = inr (a, refl)
Result-cases (err f) = inl (f, refl)
