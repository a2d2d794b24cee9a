-- ===== src/Notification/Fanout.antt =====
-- The fan-out of an event to its recipients: src/notification/application/handle-event.use-case.ts.
use estate_server.Base.{
  All, Bool, Key, List, Option-cases, Time, [], ap, arith, find_first, inl, inr, is_some,
  is_some-find_first-append, is_some-find_first-before, none, refl, some, true, ◌++◌, ◌∙◌, ◌∷◌, ◌≡◌,
}
use estate_server.Events.{DomainEvent}
use estate_server.Notification.Store.{
  Content, Notification, NotificationState, is_notice, build_content, save_if_new, unread_increment,
}
use estate_server.Notification.Recipients.{resolve}
use estate_server.Notification.Cases.{notify, notify_all, handle_event}

-- The recipient has a notification of the event.
abbrev pub IsTold : Key → NotificationState → Key → Type 0
IsTold event_id s user_id = is_some (find_first (is_notice event_id user_id) s.notifications) ≡ true

module _ (relayed : Key → Bool) (now : Time) (content : Content) (event_id : Key) where
  pub notify-again :
      (user_id : Key) (s : NotificationState)
      → IsTold event_id s user_id
      → notify relayed now content event_id user_id s ≡ s
  unfolding notify save_if_new
  notify-again user_id s h = ground arith

  abbrev pub notice : Key → NotificationState → Notification
  notice user_id s = record {
    id = s.next_id;
    recipient_id = user_id;
    content = content;
    event_id = event_id;
    read_at = none;
    created_at = now;
  }

  pub notify-new :
      (user_id : Key) (s : NotificationState)
      → find_first (is_notice event_id user_id) s.notifications ≡ none
      → (notify relayed now content event_id user_id s).notifications
        ≡ s.notifications ++ notice user_id s ∷ []
  unfolding notify save_if_new unread_increment
  notify-new user_id s missing = ground arith

  -- Whoever was told stays told, and the recipient is.
  notify-IsTold :
      (user_id other : Key) (s : NotificationState)
      → IsTold event_id s other
      → IsTold event_id (notify relayed now content event_id user_id s) other
  notify-IsTold user_id other s h =
      elim (Option-cases (find_first (is_notice event_id user_id) s.notifications)) [
        | inr (n, there) ↦ rw (notify-again user_id s (ap is_some there)) h
        | inl missing ↦ rw (notify-new user_id s missing) (
            is_some-find_first-before (is_notice event_id other) s.notifications
              (notice user_id s ∷ []) h)
      ]

  pub notify-reaches :
      (user_id : Key) (s : NotificationState)
      → IsTold event_id (notify relayed now content event_id user_id s) user_id
  notify-reaches user_id s =
      elim (Option-cases (find_first (is_notice event_id user_id) s.notifications)) [
        | inr (n, there) ↦ rw (notify-again user_id s (ap is_some there)) (ap is_some there)
        | inl missing ↦ rw (notify-new user_id s missing) (
            is_some-find_first-append (is_notice event_id user_id) s.notifications
              (notice user_id s) (ground arith))
      ]

  notify_all-IsTold :
      (users : List Key) (other : Key) (s : NotificationState)
      → IsTold event_id s other
      → IsTold event_id (notify_all relayed now content event_id users s) other
  unfolding notify_all
  notify_all-IsTold [] other s h = h
  notify_all-IsTold (user_id ∷ users) other s h =
      notify_all-IsTold users other (notify relayed now content event_id user_id s)
        (notify-IsTold user_id other s h)

  pub notify_all-reaches :
      (users : List Key) (s : NotificationState)
      → All (IsTold event_id (notify_all relayed now content event_id users s)) users
  unfolding notify_all
  notify_all-reaches [] s = tt
  notify_all-reaches (user_id ∷ users) s =
      let s' = notify relayed now content event_id user_id s in
      (notify_all-IsTold users user_id s' (notify-reaches user_id s), notify_all-reaches users s')

  notify_all-again :
      (users : List Key) (s : NotificationState)
      → All (IsTold event_id s) users
      → notify_all relayed now content event_id users s ≡ s
  unfolding notify_all
  notify_all-again [] s h = refl
  notify_all-again (user_id ∷ users) s (told, h) =
      rw (notify-again user_id s told) (notify_all-again users s h)

  -- The rows of everybody else's notifications, and the tables that the recipients are read from.
  pub notify-tables :
      (user_id : Key) (s : NotificationState)
      → ((notify relayed now content event_id user_id s).board ≡ s.board)
        × ((notify relayed now content event_id user_id s).rooms ≡ s.rooms)
  unfolding notify save_if_new unread_increment
  notify-tables user_id s =
      elim (Option-cases (find_first (is_notice event_id user_id) s.notifications)) [
        | inr (n, there) ↦ ground arith
        | inl missing ↦ ground arith
      ]

  pub notify_all-tables :
      (users : List Key) (s : NotificationState)
      → ((notify_all relayed now content event_id users s).board ≡ s.board)
        × ((notify_all relayed now content event_id users s).rooms ≡ s.rooms)
  unfolding notify_all
  notify_all-tables [] s = (refl, refl)
  notify_all-tables (user_id ∷ users) s =
      let (board, rooms) = notify-tables user_id s in
      let (boards, roomss) =
        notify_all-tables users (notify relayed now content event_id user_id s) in
      (boards ∙ board, roomss ∙ rooms)

pub handle_event-content :
    (clip : Key → Key) (relayed : Key → Bool) (now : Time) (event : DomainEvent)
    (s : NotificationState) {content : Content}
    → build_content clip event ≡ some content
    → handle_event clip relayed now event s
      ≡ notify_all relayed now content event.event_id (resolve event s.board s.rooms) s
unfolding handle_event
handle_event-content clip relayed now event s {content} e = rw (handle_event, e) refl

module _ (clip : Key → Key) (relayed relayed' : Key → Bool) (now now' : Time) (event : DomainEvent)
    (s : NotificationState) where
  -- Of an event that has a content, every recipient has a notification after it was handled,
  -- and handling it again, at any time and whatever the relay does, changes nothing: no row,
  -- no counter, no push.
  pub handle_event_once :
      {content : Content}
      → build_content clip event ≡ some content
      → let s' = handle_event clip relayed now event s in
        All (IsTold event.event_id s') (resolve event s.board s.rooms)
        × (handle_event clip relayed' now' event s' ≡ s')
  handle_event_once {content} e =
      let users = resolve event s.board s.rooms in
      let s' = notify_all relayed now content event.event_id users s in
      let told = notify_all-reaches relayed now content event.event_id users s in
      let (board, rooms) = notify_all-tables relayed now content event.event_id users s in
      let same : resolve event s'.board s'.rooms ≡ users =
        ap (λ b. resolve event b s'.rooms) board ∙ ap (resolve event s.board) rooms in
      rw (handle_event-content clip relayed now event s e) (
        told,
        handle_event-content clip relayed' now' event s' e
            ∙ ap (λ us. notify_all relayed' now' content event.event_id us s') same
            ∙ notify_all-again relayed' now' content event.event_id users s' told,
      )
