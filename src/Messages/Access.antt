-- ===== src/Messages/Access.antt =====
-- Who may write to whom, and what a sent message leaves behind.
use corcy.Prelude.{
  ◌≤◌, ◌≡◌, ◌≢◌, ◌⊎◌, ◌↔◌, inl, inr, ap, true, false, Option, ◌∷◌, arith, Text, is_some, is_empty,
  length, trim, codes,
}
use corcy.Store.{
  Cuid, Time, Message, Push, World, MessageView, Fault, Result, ok, err, Result-cases,
}
use corcy.Store.Table.{find_first}
use corcy.Env.{Env, is_given, is_allowed_attachment_url}
use corcy.Plans.Guard.{has_id}
use corcy.Connections.{are_connected}
use corcy.Messages.{
  Attachment, url_of, max_text_length, new_message, validated_reply, send_checks, send, deliver,
  message_view, display_name, push_body,
}

-- What `send` asks for.
pub record MaySend (env : Env) (user_id to : Cuid) (text : Text) (attachment : Option Attachment)
    (w : World) : Type 0 where
  pub content : (is_empty (trim text) ≡ false) ⊎ (is_given (url_of attachment) ≡ true)
  pub fits : length (trim text) ≤ max_text_length
  pub other : user_id ≢ to
  pub recipient : is_some (find_first (has_id to) w.users) ≡ true
  pub contact : are_connected user_id to w ≡ true
  pub link :
      (is_given (url_of attachment) ≡ false)
      ⊎ (is_allowed_attachment_url env (url_of attachment) ≡ true)

module _ (env : Env) (user_id to : Cuid) (text : Text) (attachment : Option Attachment)
    (reply : Option Cuid) (w : World) where
  send_checks-eq-ok_iff :
      (send_checks env user_id to text attachment reply w
        ≡ (ok (validated_reply user_id to reply w), w))
      ↔ MaySend env user_id to text attachment w
  unfolding send_checks
  send_checks-eq-ok_iff = ground arith

  send_checks-frame : (send_checks env user_id to text attachment reply w).1 ≡ w
  unfolding send_checks
  send_checks-frame = ground arith

  send_checks-reply :
      (r : Option Cuid)
      → (send_checks env user_id to text attachment reply w).0 ≡ ok r
      → r ≡ validated_reply user_id to reply w
  unfolding send_checks
  send_checks-reply r e = ground arith

module _ (env : Env) (new_id : Cuid) (now : Time) (user_id to : Cuid) (text : Text)
    (attachment : Option Attachment) (reply : Option Cuid) (w : World) where
  abbrev pub sent_row : Message
  sent_row =
      new_message env new_id now user_id to text attachment (validated_reply user_id to reply w)

  abbrev pub stored : World
  stored = record w { messages = sent_row ∷ w.messages }

  -- What the recipient is notified of: the sender's name, and the text or the attachment.
  abbrev pub notice : Push
  notice = record {
    user_id = to;
    title = display_name (find_first (has_id user_id) w.users) (codes "Corsy");
    body = push_body text attachment;
  }

  abbrev pub sent_view : MessageView
  sent_view = message_view env stored sent_row

  send_accepted :
      MaySend env user_id to text attachment w
      → send env new_id now user_id to text attachment reply w
        ≡ (ok sent_view, (deliver user_id to text attachment sent_view stored).1)
  unfolding send deliver
  send_accepted may =
      ground (arith, (send_checks-eq-ok_iff env user_id to text attachment reply w).1 may)

  send_refused :
      ¬ MaySend env user_id to text attachment w
      → (f : Fault) × (send env new_id now user_id to text attachment reply w ≡ (err f, w))
  unfolding send
  send_refused may_not =
      elim (Result-cases (send_checks env user_id to text attachment reply w).0) [
        | inl (f, refused) ↦
            (f, ground (arith, refused, send_checks-frame env user_id to text attachment reply w))
        | inr (r, passed) ↦ absurd (
            may_not (
              (send_checks-eq-ok_iff env user_id to text attachment reply w).0 (
                cc (
                  passed,
                  send_checks-reply env user_id to text attachment reply w r passed,
                  send_checks-frame env user_id to text attachment reply w,
                ))))
      ]

  -- Delivering writes no table.
  pub deliver_tables :
      ((deliver user_id to text attachment sent_view stored).1.messages ≡ stored.messages)
      × ((deliver user_id to text attachment sent_view stored).1.reactions ≡ w.reactions)
  unfolding deliver
  deliver_tables = ground arith

  -- The message is stored, sent and returned exactly if the request may be sent; otherwise the
  -- request throws and changes nothing.
  pub send_cases :
      (MaySend env user_id to text attachment w
        × (send env new_id now user_id to text attachment reply w
            ≡ (ok sent_view, (deliver user_id to text attachment sent_view stored).1)))
      ⊎ (¬ MaySend env user_id to text attachment w
          × ((f : Fault) × (send env new_id now user_id to text attachment reply w ≡ (err f, w))))
  send_cases = elim (Result-cases (send_checks env user_id to text attachment reply w).0) [
    | inl (f, refused) ↦
        let may_not : ¬ MaySend env user_id to text attachment w = λ may. cc (
          refused,
          ap (λ (x : Result (Option Cuid) × World). x.0)
              ((send_checks-eq-ok_iff env user_id to text attachment reply w).1 may),
        ) in
        inr (may_not, send_refused may_not)
    | inr (r, passed) ↦
        let may : MaySend env user_id to text attachment w =
          (send_checks-eq-ok_iff env user_id to text attachment reply w).0 (
            cc (
              passed,
              send_checks-reply env user_id to text attachment reply w r passed,
              send_checks-frame env user_id to text attachment reply w,
            )) in
        inl (may, send_accepted may)
  ]
