-- ===== src/Notification/Totals.antt =====
-- What src/notification/application/get-unread-count.use-case.ts answers after any sequence of
-- events handled and notifications read, one after the other, at clocks that do not go back.
use estate_server.Base.{
  All, All-append, All-map, All-update_many, Bool, Bool-cases, Key, List, Option-cases, Time, [],
  arith, ap, ==_iff, false, sym, ◌<◌, ◌∙◌, update_many-none, count_where_mono, count_where,
  count_where-update_many, delete_many, delete_many-All, find_first, find_first-All,
  find_first_sound, if◌then◌else◌, inl, inr, ltb, refl, true, update_many, updated, ◌+◌, ◌==◌, ◌≤◌,
  ◌∷◌, ◌≡◌,
}
use estate_server.Events.{DomainEvent}
use estate_server.Notification.Store.{
  Notification, NotificationState, UnreadCount, is_unread, is_unread_one, set_read, mark_all_read,
  mark_one_read, count_unread, get_unread, of_owner, unread_is, unread_down, unread_decrement,
  unread_backfill, unread_reset,
}
use estate_server.Notification.Cases.{handle_event, mark_all, mark_one, unread_count}
use estate_server.Notification.Unread.{Agrees, IsValid, has_id, later-IsValid, handle_event-IsValid}

module _ (now : Time) (user_id : Key) where
  -- Reading keeps the ids.
  read-fresh :
      (p : Notification → Bool) (next : Key) (rows : List Notification)
      → All (λ (n : Notification). n.id < next) rows
      → All (λ (n : Notification). n.id < next) (update_many p (set_read now) rows)
  read-fresh p next rows h =
      All-update_many (λ (n : Notification). n.id < next) (λ (n : Notification). n.id < next) p
        (set_read now) rows
        (λ n lt. elim (Bool-cases (p n)) [ inl hit ↦ rw hit lt | inr miss ↦ rw miss lt ]) h

  read_unique :
      (p : Notification → Bool) (k : Key) (rows : List Notification)
      → count_where (has_id k) (update_many p (set_read now) rows) ≡ count_where (has_id k) rows
  read_unique p k rows =
      count_where-update_many (has_id k) (has_id k) p (set_read now) rows
        (λ n. elim (Bool-cases (p n)) [ inl hit ↦ rw hit refl | inr miss ↦ rw miss refl ])

  -- One row that is read is one row less for its recipient, and none for anybody else.
  count-read_one :
      (id user : Key) (rows : List Notification)
      → count_where (is_unread user) (update_many (is_unread_one user_id id) (set_read now) rows)
          + (if user == user_id then count_where (is_unread_one user_id id) rows else 0)
        ≡ count_where (is_unread user) rows
  unfolding count_where update_many
  count-read_one id user [] = ground arith
  count-read_one id user (n ∷ rows) = ground (arith, count-read_one id user rows)

  count-read_all :
      (user : Key) (rows : List Notification)
      → (user == user_id) ≡ false
      → count_where (is_unread user) (update_many (is_unread user_id) (set_read now) rows)
        ≡ count_where (is_unread user) rows
  unfolding count_where update_many
  count-read_all user [] h = refl
  count-read_all user (n ∷ rows) h = ground (arith, count-read_all user rows h)

  one-le-id :
      (id : Key) (rows : List Notification)
      → count_where (is_unread_one user_id id) rows ≤ count_where (has_id id) rows
  one-le-id id rows =
      count_where_mono (is_unread_one user_id id) (has_id id) rows (λ n h. ground arith)

  -- A row was read: its recipient's counter goes down.
  read_one-Agrees :
      (id : Key) (rows : List Notification) (c : UnreadCount)
      → count_where (is_unread_one user_id id) rows ≡ 1
      → Agrees now rows c
      → Agrees now
          (update_many (is_unread_one user_id id) (set_read now) rows)
          (updated (unread_is user_id now) unread_down c)
  read_one-Agrees id rows c one h = elim (Bool-cases (ltb now c.expires_at)) [
    | inr dead ↦ rw dead (ground arith)
    | inl live ↦ elim (Bool-cases (c.user_id == user_id)) [
      | inl mine ↦
          rw (mine, live)
            (λ _. let n = h live in let m = count-read_one id c.user_id rows in ground arith)
      | inr other ↦
          rw (other, live)
            (λ _. let n = h live in let m = count-read_one id c.user_id rows in ground arith)
    ]
  ]

  mark_one-IsValid :
      (id : Key) (s : NotificationState) → IsValid now s → IsValid now (mark_one now user_id id s)
  unfolding mark_one mark_one_read unread_decrement
  mark_one-IsValid id s v =
      let p = is_unread_one user_id id in
      let bound = one-le-id id s.notifications in
      let only = v.unique id in
      elim (Bool-cases (count_where p s.notifications == 1)) [
        | inl one ↦
            rw (mark_one, one)
              (record {
                counted =
                    All-update_many (Agrees now s.notifications)
                      (Agrees now (update_many p (set_read now) s.notifications))
                      (unread_is user_id now) unread_down s.unread
                      (λ c. read_one-Agrees id s.notifications c ((==_iff _ 1).0 one)) v.counted;
                fresh = read-fresh p s.next_id s.notifications v.fresh;
                unique = λ k. rw (read_unique p k s.notifications) (v.unique k);
              })
        | inr other ↦
            let nothing : count_where p s.notifications ≡ 0 = ground arith in
            rw (mark_one, other, update_many-none p (set_read now) s.notifications nothing) v
      ]

  mark_all-IsValid : (s : NotificationState) → IsValid now s → IsValid now (mark_all now user_id s)
  unfolding mark_all mark_all_read unread_reset
  mark_all-IsValid s v =
      let p = is_unread user_id in
      record {
        counted =
            All-map _ (Agrees now (update_many p (set_read now) s.notifications))
              (delete_many (of_owner user_id) s.unread)
              (λ c h live. h.0 live ∙ sym (count-read_all c.user_id s.notifications h.1))
              (delete_many-All (Agrees now s.notifications) (of_owner user_id) s.unread v.counted);
        fresh = read-fresh p s.next_id s.notifications v.fresh;
        unique = λ k. rw (read_unique p k s.notifications) (v.unique k);
      }

  -- The answer of a request for the count, and the counters that it leaves.
  unread_count-IsValid :
      (s : NotificationState)
      → IsValid now s
      → IsValid now (unread_count now user_id s).1
        × ((unread_count now user_id s).0 ≡ count_where (is_unread user_id) s.notifications)
        × ((unread_count now user_id s).1.notifications ≡ s.notifications)
  unfolding unread_count get_unread unread_backfill count_unread
  unread_count-IsValid s v = elim (Option-cases (find_first (unread_is user_id now) s.unread)) [
    | inr (c, found) ↦
        let hit = find_first_sound (unread_is user_id now) s.unread found in
        let agrees =
          find_first-All (Agrees now s.notifications) (unread_is user_id now) s.unread v.counted
            found in
        let live : ltb now c.expires_at ≡ true = ground arith in
        let mine : c.user_id ≡ user_id = ground arith in
        rw (unread_count, get_unread, found)
          (v, agrees live ∙ ap (λ u. count_where (is_unread u) s.notifications) mine, refl)
    | inl missing ↦
        rw (unread_count, get_unread, missing)
          (
            record {
              counted =
                  rw (unread_backfill, missing)
                    (All-append (Agrees now s.notifications)
                      (delete_many (of_owner user_id) s.unread) _
                      (All-map _ _ (delete_many (of_owner user_id) s.unread) (λ c h. h.0)
                        (delete_many-All (Agrees now s.notifications) (of_owner user_id) s.unread
                          v.counted))
                      (λ live. refl, tt));
              fresh = v.fresh;
              unique = v.unique;
            },
            refl,
            refl,
          )
  ]

-- What reaches the tables: an event at the worker, with what the relay does of it, and the
-- requests of the users.
pub data Call : Type 0 where
  handled : (Key → Bool) → DomainEvent → Call
  read_one : (user_id id : Key) → Call
  read_all : (user_id : Key) → Call
  counted_for : (user_id : Key) → Call

unfoldable pub run_call : (Key → Key) → Time → Call → NotificationState → NotificationState
run_call clip now (handled relayed event) s = handle_event clip relayed now event s
run_call clip now (read_one user_id id) s = mark_one now user_id id s
run_call clip now (read_all user_id) s = mark_all now user_id s
run_call clip now (counted_for user_id) s = (unread_count now user_id s).1

unfoldable pub run_calls : (Key → Key) → List (Time × Call) → NotificationState → NotificationState
unfolding run_call
run_calls clip [] s = s
run_calls clip ((now, call) ∷ calls) s = run_calls clip calls (run_call clip now call s)

-- The clock does not go back, from the first time to the last.
abbrev pub Ordered : Time → List (Time × Call) → Time → Type 0
Ordered from [] to = from ≤ to
Ordered from ((now, call) ∷ calls) to = (from ≤ now) × Ordered now calls to

run_call-IsValid :
    (clip : Key → Key) (now : Time) (call : Call) (s : NotificationState)
    → IsValid now s
    → IsValid now (run_call clip now call s)
unfolding run_call
run_call-IsValid clip now (handled relayed event) s v =
    handle_event-IsValid clip relayed now event s v
run_call-IsValid clip now (read_one user_id id) s v = mark_one-IsValid now user_id id s v
run_call-IsValid clip now (read_all user_id) s v = mark_all-IsValid now user_id s v
run_call-IsValid clip now (counted_for user_id) s v = (unread_count-IsValid now user_id s v).0

run_calls-IsValid :
    (clip : Key → Key) (from to : Time) (calls : List (Time × Call)) (s : NotificationState)
    → IsValid from s
    → Ordered from calls to
    → IsValid to (run_calls clip calls s)
unfolding run_calls
run_calls-IsValid clip from to [] s v h = later-IsValid s h v
run_calls-IsValid clip from to ((now, call) ∷ calls) s v (h, hs) =
    run_calls-IsValid clip now to calls (run_call clip now call s)
      (run_call-IsValid clip now call s (later-IsValid s h v)) hs

-- If the ids of the notifications are unique and below the next one, and the counters that are
-- alive agree with the rows, then after any sequence of events handled, notifications read and
-- counts asked for, at clocks that do not go back, a request for the count of a user is answered
-- with the number of the rows of that user that are not read.
pub unread_exact :
    (clip : Key → Key) (from to : Time) (calls : List (Time × Call)) (user_id : Key)
    (s : NotificationState)
    → IsValid from s
    → Ordered from calls to
    → (unread_count to user_id (run_calls clip calls s)).0
      ≡ count_where (is_unread user_id) (run_calls clip calls s).notifications
unread_exact clip from to calls user_id s v h =
    (unread_count-IsValid to user_id (run_calls clip calls s)
      (run_calls-IsValid clip from to calls s v h)).1
