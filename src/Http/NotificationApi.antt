-- ===== src/Http/NotificationApi.antt =====
-- src/notification/interface/notification.controller.ts, with the use cases of
-- src/notification/application for the `sub` of `request.user`: a condition on `undefined` is no
-- condition to Prisma, and in a key of Redis `undefined` is written as a text.
use estate_server.Base.{
  Action, Bool, Key, List, Option, Time, count_where, gets, is_none, map, modify, none, ok, pure,
  some, sort_newest, take_rows, true, update_many, if◌then◌else◌, ℕ, ◌&&◌, ◌==◌, ◌>>◌, [],
}
use estate_server.Base.Int.{ℤ}
use estate_server.RateLimit.Window.{Method, get, patch}
use estate_server.Notification.Store.{
  Content, Notification, NotificationState, get_unread, made_at, set_read, unread_backfill,
  unread_decrement, unread_reset,
}
use estate_server.Notification.Cases.{list_mine, mark_all, mark_one, page_limit, unread_count}
use estate_server.Http.Bearer.{CurrentUser}
use estate_server.Http.Server.{Routes}

-- The handlers; the query parameter `limit` is an integer, or missing or no number.
pub data NotificationCall : Type 0 where
  list_mine_handler : (limit : Option ℤ) → NotificationCall
  unread_count_handler : NotificationCall
  read_all_handler : NotificationCall
  read_one_handler : (id : Key) → NotificationCall

-- NotificationResponseDto
pub record NotificationView : Type 0 where
  pub id : Key
  pub content : Content
  pub read_at : Option Time
  pub created_at : Time

pub data Answer : Type 0 where
  of_notifications : List NotificationView → Answer
  of_count : ℕ → Answer
  done : Answer

abbrev pub view_of : Notification → NotificationView
view_of n = record {
  id = n.id;
  content = n.content;
  read_at = n.read_at;
  created_at = n.created_at;
}

-- The decorators @Get and @Patch.
unfoldable pub method_of : NotificationCall → Method
method_of (list_mine_handler limit) = get
method_of unread_count_handler = get
method_of read_all_handler = patch
method_of (read_one_handler id) = patch

abbrev pub is_new : Notification → Bool
is_new n = is_none n.read_at

abbrev pub is_new_one : Key → Notification → Bool
is_new_one id n = n.id == id && is_none n.read_at

-- `undefined_text` is the text `undefined`.
pub record NotificationSite : Type 0 where
  pub undefined_text : Key
  pub path_of : NotificationCall → Key

module _ (site : NotificationSite) where
  unfoldable pub list_by : Option Key → Option ℤ → NotificationState → List Notification
  unfolding list_mine
  list_by (some id) limit s = list_mine id limit s
  list_by none limit s = take_rows (page_limit limit) (sort_newest made_at s.notifications)

  unfoldable pub unread_by : Time → Option Key → NotificationState → ℕ × NotificationState
  unfolding unread_count get_unread unread_backfill
  unread_by now (some id) s = unread_count now id s
  unread_by now none s = elim (get_unread now site.undefined_text s) [
    | some n ↦ (n, s)
    | none ↦ (
      count_where is_new s.notifications,
      unread_backfill now site.undefined_text (count_where is_new s.notifications) s,
    )
  ]

  unfoldable pub mark_all_by : Time → Option Key → NotificationState → NotificationState
  unfolding mark_all unread_reset
  mark_all_by now (some id) s = mark_all now id s
  mark_all_by now none s =
      unread_reset site.undefined_text
        (record s { notifications = update_many is_new (set_read now) s.notifications })

  unfoldable pub mark_one_by : Time → Option Key → Key → NotificationState → NotificationState
  unfolding mark_one unread_decrement
  mark_one_by now (some user_id) id s = mark_one now user_id id s
  mark_one_by now none id s =
      let s' = record s {
        notifications = update_many (is_new_one id) (set_read now) s.notifications;
      } in
      if count_where (is_new_one id) s.notifications == 1
      then unread_decrement now site.undefined_text s'
      else s'

  -- The four handlers.
  unfoldable pub run :
      Time → Time → CurrentUser → NotificationCall → Option (Action NotificationState Answer)
  unfolding list_by unread_by mark_all_by mark_one_by
  run now later user (list_mine_handler limit) =
      some (gets (λ s. of_notifications (map view_of (list_by user.sub limit s))))
  run now later user unread_count_handler =
      some (λ s. let (n, s') = unread_by now user.sub s in (ok (of_count n), s'))
  run now later user read_all_handler = some (modify (mark_all_by now user.sub) >> pure done)
  run now later user (read_one_handler id) =
      some (modify (mark_one_by now user.sub id) >> pure done)

  -- The guard is on the class.
  abbrev pub routes : Routes NotificationCall Answer NotificationState
  routes = record {
    method_of = method_of;
    limit_of = λ call. none;
    is_guarded = λ call. true;
    roles_of = λ call. [];
    success_of = λ call. 200;
    path_of = site.path_of;
    run = run;
  }
