-- ===== src/Notification/Cases.antt =====
-- src/notification/application: handle-event, mark-one-read, mark-all-read,
-- get-unread-count and list-notifications, and the limit of a list in notification.controller.ts.
use estate_server.Base.{
  Bool, Key, List, Option, Time, [], if◌then◌else◌, min, none, some, ℕ, ◌++◌, ◌==◌, ◌∷◌,
}
use estate_server.Base.Int.{ℤ, pos, negsuc}
use estate_server.Events.{DomainEvent}
use estate_server.Notification.Store.{
  Content, Notification, NotificationState, list_for_user, build_content, save_if_new,
  mark_all_read, mark_one_read, count_unread, unread_increment, unread_decrement, get_unread,
  unread_backfill, unread_reset,
}
use estate_server.Notification.Recipients.{resolve}

-- One pass of the loop of `execute`. `relayed` says whether the relay takes the push, whose failure
-- is ignored.
unfoldable pub notify :
    (Key → Bool) → Time → Content → Key → Key → NotificationState → NotificationState
notify relayed now content event_id user_id s =
    let (created, s') = save_if_new now user_id content event_id s in
    elim created [
      | none ↦ s'
      | some id ↦
          let counted = unread_increment now user_id s' in
          if relayed id then record counted { pushed = counted.pushed ++ id ∷ [] } else counted
    ]

unfoldable pub notify_all :
    (Key → Bool) → Time → Content → Key → List Key → NotificationState → NotificationState
notify_all relayed now content event_id [] s = s
notify_all relayed now content event_id (user_id ∷ users) s =
    notify_all relayed now content event_id users (notify relayed now content event_id user_id s)

-- `HandleEventUseCase.execute`, while the database and the counters answer.
unfoldable pub handle_event :
    (Key → Key) → (Key → Bool) → Time → DomainEvent → NotificationState → NotificationState
handle_event clip relayed now event s = elim (build_content clip event) [
  | none ↦ s
  | some content ↦ notify_all relayed now content event.event_id (resolve event s.board s.rooms) s
]

-- `MarkAllReadUseCase.execute`
unfoldable pub mark_all : Time → Key → NotificationState → NotificationState
mark_all now user_id s = unread_reset user_id (mark_all_read now user_id s)

-- `MarkOneReadUseCase.execute`
unfoldable pub mark_one : Time → Key → Key → NotificationState → NotificationState
mark_one now user_id id s =
    let (transitioned, s') = mark_one_read now user_id id s in
    if transitioned then unread_decrement now user_id s' else s'

-- `GetUnreadCountUseCase.execute`
unfoldable pub unread_count : Time → Key → NotificationState → ℕ × NotificationState
unread_count now user_id s = elim (get_unread now user_id s) [
  | some n ↦ (n, s)
  | none ↦ (count_unread user_id s, unread_backfill now user_id (count_unread user_id s) s)
]

-- DEFAULT_LIMIT and MAX_LIMIT
abbrev pub default_limit : ℕ
default_limit = 50

abbrev pub max_limit : ℕ
max_limit = 100

-- `Math.min(Number(limit) || DEFAULT_LIMIT, MAX_LIMIT)`, of the integers; `none` is a limit that is
-- missing or no number.
abbrev pub page_limit : Option ℤ → ℤ
page_limit none = pos default_limit
page_limit (some (pos n)) = pos (if n == 0 then default_limit else min n max_limit)
page_limit (some (negsuc n)) = negsuc n

-- `ListNotificationsUseCase.execute`
unfoldable pub list_notifications : Key → ℤ → NotificationState → List Notification
list_notifications = list_for_user

-- `NotificationController.listMine`, for the rows.
unfoldable pub list_mine : Key → Option ℤ → NotificationState → List Notification
unfolding list_notifications
list_mine user_id query s = list_notifications user_id (page_limit query) s
