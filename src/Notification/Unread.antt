-- ===== src/Notification/Unread.antt =====
-- The counters of unread notifications beside the rows that they count:
-- src/notification/infrastructure/redis-notification-counter.ts under the use cases of
-- src/notification/application, one after the other.
use estate_server.Base.{
  All, ==_iff, ap, All-append, All-map, All-update_many, Bool, Bool-cases, Key, List, Option-cases,
  Time, [], arith, count_where, count_where-append, find_first, if◌then◌else◌, inl, inr, is_some,
  ltb, none, refl, true, update_many, updated, ◌++◌, ◌+◌, ◌<◌, ◌==◌, ◌≤◌, ◌∷◌, ◌≡◌,
}
use estate_server.Events.{DomainEvent}
use estate_server.Notification.Store.{
  Content, Notification, NotificationState, UnreadCount, is_notice, is_unread, build_content,
  save_if_new, unread_is, unread_up, unread_increment,
}
use estate_server.Notification.Recipients.{resolve}
use estate_server.Notification.Cases.{notify, notify_all, handle_event}
use estate_server.Notification.Fanout.{notify-again, handle_event-content}

-- A counter that is alive has the number of the rows.
abbrev pub Agrees : Time → List Notification → UnreadCount → Type 0
Agrees now rows c = ltb now c.expires_at ≡ true → c.value ≡ count_where (is_unread c.user_id) rows

abbrev pub has_id : Key → Notification → Bool
has_id k n = n.id == k

-- Of the rows, the counters, and the next id of the table.
pub record Counted (now : Time) (rows : List Notification) (counters : List UnreadCount)
    (next : Key) : Type 0 where
  pub counted : All (Agrees now rows) counters
  pub fresh : All (λ (n : Notification). n.id < next) rows
  pub unique : (k : Key) → count_where (has_id k) rows ≤ 1

abbrev pub IsValid : Time → NotificationState → Type 0
IsValid now s = Counted now s.notifications s.unread s.next_id

pub later-IsValid :
    {now now' : Time} (s : NotificationState) → now ≤ now' → IsValid now s → IsValid now' s
later-IsValid {now} {now'} s h v = record {
  counted =
      All-map (Agrees now s.notifications) (Agrees now' s.notifications) s.unread
        (λ c agrees alive. agrees (ground arith)) v.counted;
  fresh = v.fresh;
  unique = v.unique;
}

count-fresh :
    (k : Key) (rows : List Notification)
    → All (λ (n : Notification). n.id < k) rows
    → count_where (has_id k) rows ≡ 0
unfolding count_where
count-fresh k [] h = refl
count-fresh k (n ∷ rows) (h, hs) = let rest = count-fresh k rows hs in ground arith

module _ (relayed : Key → Bool) (now : Time) (content : Content) (event_id user_id : Key) where
  abbrev row_of : NotificationState → Notification
  row_of s = record {
    id = s.next_id;
    recipient_id = user_id;
    content = content;
    event_id = event_id;
    read_at = none;
    created_at = now;
  }

  -- The count of a user's unread rows, with the row of `user_id` at the end.
  count-row_of :
      (s : NotificationState) (user : Key)
      → count_where (is_unread user) (s.notifications ++ row_of s ∷ [])
        ≡ count_where (is_unread user) s.notifications + (if user == user_id then 1 else 0)
  unfolding count_where
  count-row_of s user =
      ground (arith, count_where-append (is_unread user) s.notifications (row_of s ∷ []))

  notify-Agrees :
      (s : NotificationState) (c : UnreadCount)
      → Agrees now s.notifications c
      → Agrees now (s.notifications ++ row_of s ∷ []) (updated (unread_is user_id now) unread_up c)
  notify-Agrees s c h = elim (Bool-cases (ltb now c.expires_at)) [
    | inr dead ↦ rw dead (ground arith)
    | inl live ↦ elim (Bool-cases (c.user_id == user_id)) [
      | inl mine ↦
          rw (mine, live) (λ _. let n = h live in let m = count-row_of s c.user_id in ground arith)
      | inr other ↦
          rw (other, live) (λ _. let n = h live in let m = count-row_of s c.user_id in ground arith)
    ]
  ]

  notify-parts :
      (s : NotificationState)
      → find_first (is_notice event_id user_id) s.notifications ≡ none
      → let t = notify relayed now content event_id user_id s in
        (t.notifications ≡ s.notifications ++ row_of s ∷ [])
        × (t.unread ≡ update_many (unread_is user_id now) unread_up s.unread)
        × (t.next_id ≡ s.next_id + 1)
  unfolding notify save_if_new unread_increment
  notify-parts s missing = elim (Bool-cases (relayed s.next_id)) [
    | inl up ↦ rw (notify, missing, up) (ground arith, ground arith, ground arith)
    | inr down ↦ rw (notify, missing, down) (ground arith, ground arith, ground arith)
  ]

  append_unique :
      (s : NotificationState) (k : Key)
      → IsValid now s
      → count_where (has_id k) (s.notifications ++ row_of s ∷ []) ≤ 1
  unfolding count_where
  append_unique s k v =
      let before = v.unique k in
      let none_yet = count-fresh s.next_id s.notifications v.fresh in
      elim (Bool-cases (s.next_id == k)) [
        | inl new ↦
            let same = (==_iff s.next_id k).0 new in
            let free : count_where (has_id k) s.notifications ≡ 0 = rw same at none_yet in
            ground (arith, count_where-append (has_id k) s.notifications (row_of s ∷ []))
        | inr old ↦ ground (arith, count_where-append (has_id k) s.notifications (row_of s ∷ []))
      ]

  notify-IsValid :
      (s : NotificationState)
      → IsValid now s
      → IsValid now (notify relayed now content event_id user_id s)
  notify-IsValid s v =
      elim (Option-cases (find_first (is_notice event_id user_id) s.notifications)) [
        | inr (n, there) ↦
            rw (notify-again relayed now content event_id user_id s (ap is_some there)) v
        | inl missing ↦
            let (rows, counters, next) = notify-parts s missing in
            rw (rows, counters, next)
              (record {
                counted =
                    All-update_many (Agrees now s.notifications)
                      (Agrees now (s.notifications ++ row_of s ∷ [])) (unread_is user_id now)
                      unread_up s.unread (notify-Agrees s) v.counted;
                fresh =
                    All-append (λ (n : Notification). n.id < s.next_id + 1) s.notifications
                      (row_of s ∷ []) (All-map _ _ s.notifications (λ n h. omega arith) v.fresh)
                      (omega arith, tt);
                unique = λ k. append_unique s k v;
              })
      ]

module _ (relayed : Key → Bool) (now : Time) (content : Content) (event_id : Key) where
  notify_all-IsValid :
      (users : List Key) (s : NotificationState)
      → IsValid now s
      → IsValid now (notify_all relayed now content event_id users s)
  unfolding notify_all
  notify_all-IsValid [] s v = v
  notify_all-IsValid (user_id ∷ users) s v =
      notify_all-IsValid users (notify relayed now content event_id user_id s)
        (notify-IsValid relayed now content event_id user_id s v)

pub handle_event-IsValid :
    (clip : Key → Key) (relayed : Key → Bool) (now : Time) (event : DomainEvent)
    (s : NotificationState)
    → IsValid now s
    → IsValid now (handle_event clip relayed now event s)
unfolding handle_event
handle_event-IsValid clip relayed now event s v = elim (Option-cases (build_content clip event)) [
  | inl quiet ↦ rw (handle_event, quiet) v
  | inr (content, e) ↦
      rw (handle_event-content clip relayed now event s e)
        (notify_all-IsValid relayed now content event.event_id (resolve event s.board s.rooms) s v)
]
