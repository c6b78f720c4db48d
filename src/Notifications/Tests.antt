-- ===== src/Notifications/Tests.antt =====
-- An empty inbox, and one access code.
use hide_server.Base.{str_key, nat_key, lookup, ◌≡◌, true, false, some, []}
use hide_server.Notifications.{
  is_notification_persistent, access_code, Inbox, messages_of, push_notification,
  handle_read_notification, handle_read_notification-push_notification,
}

abbrev inbox : Inbox
inbox = record {
  messages = [];
  world = record {
    cache = record { presences = []; workspaces = []; memberships = []; timers = [] };
    locks = [];
    sent = [];
  };
}

handle_read_notification-push_notification_example :
    lookup "n1" (
      messages_of "ann" (
        handle_read_notification true false "ann" "n1"
          (push_notification "ann" "n1" (access_code true) inbox)))
    ≡ some (access_code true)
unfolding is_notification_persistent
handle_read_notification-push_notification_example =
    handle_read_notification-push_notification "ann" "n1" (access_code true) inbox
