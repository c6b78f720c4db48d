-- ===== src/Notifications.antt =====
-- notification/src/app.service.ts: notifications, stored by user and told to every session.
mod Tests
use hide_server.Base.{
  for_each, Key, str_key, nat_key, lookup, insert, erase, Map, keys, lookup-insert_self,
  lookup-erase_self, String, ◌≡◌, refl, ap, ◌∙◌, inl, inr, Bool, true, false, not, ◌||◌, none, some,
  List, [], map, if◌then◌else◌, Bool-cases, Option-cases,
}
use hide_server.Platform.{World, Event, SocketMessage, send_all, get_presence}

pub data NotificationType : Type 0 where
  workspace_invite membership_removed workspace_downgraded : NotificationType
  -- whether the request for the code was granted
  access_code : Bool → NotificationType

-- the documents of each user, by their id, and the platform
pub record Inbox : Type 0 where
  pub messages : Map String (Map String NotificationType)
  pub world : World

abbrev pub messages_of : String → Inbox → Map String NotificationType
messages_of uid b = elim (lookup uid b.messages) [ none ↦ [] | some m ↦ m ]

abbrev pub set_messages : String → Map String NotificationType → Inbox → Inbox
set_messages uid m b = record b { messages = insert uid m b.messages }

-- the message to every session of the user that is in the cache
unfoldable pub tell_sessions : String → SocketMessage → Inbox → Inbox
tell_sessions uid msg b = elim (get_presence b.world uid) [
  | none ↦ b
  | some p ↦ record b {
    world = send_all (map (λ sid. Event.socket_send uid sid msg) (keys p)) b.world;
  }
]

unfoldable pub push_notification : String → String → NotificationType → Inbox → Inbox
push_notification uid id kind b =
    tell_sessions uid (SocketMessage.new_notification id)
      (set_messages uid (insert id kind (messages_of uid b)) b)

unfoldable pub push_all_pending_notifications : String → Inbox → Inbox
push_all_pending_notifications uid b =
    tell_sessions uid (SocketMessage.pending_notifications (keys (messages_of uid b))) b

-- `persistentNtfnTypes`, `persistentNtfnTypesChecks` and `isNotificationPersistent`
unfoldable pub is_notification_persistent : NotificationType → Bool
is_notification_persistent workspace_invite = true
is_notification_persistent (access_code success) = success
is_notification_persistent _ = false

unfoldable pub delete_read : Bool → String → String → Inbox → Inbox
delete_read ignore_persistent uid id b = elim (lookup id (messages_of uid b)) [
  | none ↦ b
  | some kind ↦
      if not ignore_persistent || not (is_notification_persistent kind)
      then set_messages uid (erase id (messages_of uid b)) b
      else b
]

unfoldable pub handle_read_notification : Bool → Bool → String → String → Inbox → Inbox
handle_read_notification ignore_persistent system_read uid id b =
    let after = delete_read ignore_persistent uid id b in
    if system_read then tell_sessions uid (SocketMessage.deleted_notification id) after else after

abbrev pub delete_message : String → String → Inbox → Inbox
delete_message uid id b = set_messages uid (erase id (messages_of uid b)) b

unfoldable pub handle_read_all_notifications : String → List String → Inbox → Inbox
handle_read_all_notifications uid ids b = for_each (delete_message uid) ids b

abbrev pub get_all_notifications : String → Inbox → List String
get_all_notifications uid b = keys (messages_of uid b)

tell_sessions-messages :
    (uid : String) (msg : SocketMessage) (b : Inbox)
    → (tell_sessions uid msg b).messages ≡ b.messages
unfolding tell_sessions
tell_sessions-messages uid msg b = elim (Option-cases (get_presence b.world uid)) [
  | inl e ↦ rw (e, tell_sessions) refl
  | inr (p, e) ↦ rw (e, tell_sessions) refl
]

messages_of-set_messages :
    (uid : String) (m : Map String NotificationType) (b : Inbox)
    → messages_of uid (set_messages uid m b) ≡ m
messages_of-set_messages uid m b =
    ap (λ o. elim o [ none ↦ [] | some n ↦ n ]) (lookup-insert_self uid m b.messages)

delete_read_lem :
    (uid id : String) (kind : NotificationType) (b : Inbox)
    → lookup id (messages_of uid b) ≡ some kind
    → lookup id (messages_of uid (delete_read true uid id b))
      ≡ (if is_notification_persistent kind then some kind else none)
unfolding delete_read
delete_read_lem uid id kind b e = elim (Bool-cases (is_notification_persistent kind)) [
  | inl p ↦ rw (e, delete_read) (rw (p, delete_read) e)
  | inr p ↦
      rw (e, delete_read)
        (rw (p, delete_read)
          (ap (lookup id) (messages_of-set_messages uid (erase id (messages_of uid b)) b)
            ∙ lookup-erase_self id (messages_of uid b)))
]

-- A notification that was pushed stays after the user has read it exactly if it is persistent: an
-- invitation, or an access code that was granted.
pub handle_read_notification-push_notification :
    (uid id : String) (kind : NotificationType) (b : Inbox)
    → let b' = push_notification uid id kind b in
      lookup id (messages_of uid (handle_read_notification true false uid id b'))
      ≡ (if is_notification_persistent kind then some kind else none)
unfolding handle_read_notification push_notification
handle_read_notification-push_notification uid id kind b = delete_read_lem uid id kind pushed (
    ap (λ m. lookup id (elim (lookup uid m) [ none ↦ [] | some n ↦ n ]))
      (tell_sessions-messages uid (SocketMessage.new_notification id) stored)
    ∙ ap (lookup id) (messages_of-set_messages uid (insert id kind (messages_of uid b)) b)
    ∙ lookup-insert_self id kind (messages_of uid b))
  where
    stored : Inbox
    stored = set_messages uid (insert id kind (messages_of uid b)) b

    pushed : Inbox
    pushed = tell_sessions uid (SocketMessage.new_notification id) stored
