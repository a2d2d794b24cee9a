-- ===== src/Notification/Reading.antt =====
-- Reading a notification: src/notification/application/mark-one-read.use-case.ts.
use estate_server.Base.{
  Bool-cases, Key, List, Time, ap, arith, count_where, inl, inr, update_many, ◌==◌, ◌∙◌, ◌≡◌,
  count_where-update_many_self, update_many-none,
}
use estate_server.Notification.Store.{
  Notification, NotificationState, is_unread_one, set_read, mark_one_read, unread_decrement,
}
use estate_server.Notification.Cases.{mark_one}

module _ (now now' : Time) (user_id id : Key) (s : NotificationState) where
  abbrev read_rows : List Notification
  read_rows = update_many (is_unread_one user_id id) (set_read now) s.notifications

  mark_one-notifications : (mark_one now user_id id s).notifications ≡ read_rows
  unfolding mark_one mark_one_read unread_decrement
  mark_one-notifications =
      elim (Bool-cases (count_where (is_unread_one user_id id) s.notifications == 1)) [
        | inl one ↦ ground arith
        | inr other ↦ ground arith
      ]

  mark_one-none :
      (t : NotificationState)
      → count_where (is_unread_one user_id id) t.notifications ≡ 0
      → mark_one now' user_id id t ≡ t
  unfolding mark_one mark_one_read
  mark_one-none t e =
      let same = update_many-none (is_unread_one user_id id) (set_read now') t.notifications e in
      ground arith

  -- Marking a notification as read a second time, at whatever time, changes nothing, the
  -- counter of unread notifications included.
  pub mark_one_once :
      mark_one now' user_id id (mark_one now user_id id s) ≡ mark_one now user_id id s
  mark_one_once = mark_one-none (mark_one now user_id id s) (
      ap (count_where (is_unread_one user_id id)) mark_one-notifications
      ∙ count_where-update_many_self (is_unread_one user_id id) (set_read now) s.notifications
          (λ n. ground arith))
