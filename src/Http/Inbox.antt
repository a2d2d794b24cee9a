-- ===== src/Http/Inbox.antt =====
-- Whose notifications the routes of src/notification/interface/notification.controller.ts read and
-- change.
use estate_server.Base.{
  All, All-find_first, All-mapped, All-map, All-sort_newest, All-take_rows, Key, List, Option, Time,
  arith, find_first, find_many, find_many-All, find_many-update_many_other,
  find_many-delete_many_other, find_many-append_other, Bool, Bool-cases, Option-cases, inl, inr,
  is_none, is_some, map, refl, some, true, false, ◌==◌, ==_iff, ◌&&◌, ◌∙◌, ◌≡◌, ◌⊎◌,
  All-update_many, trivial-All, count_where, delete_many,
}
use estate_server.Base.Int.{ℤ}
use estate_server.Auth.Session.{TokenPayload}
use estate_server.Auth.Access.{OnboardingPayload}
use estate_server.Notification.Store.{
  Notification, NotificationState, get_unread, is_for, is_unread, is_unread_one, list_for_user,
  made_at, mark_all_read, mark_one_read, of_owner, set_read, unread_backfill, unread_decrement,
  unread_down, unread_is, unread_reset,
}
use estate_server.Notification.Cases.{
  list_mine, list_notifications, mark_all, mark_one, page_limit, unread_count,
}
use estate_server.Http.Bearer.{access, onboarding, jwt_auth_guard, roles_guard, validate}
use estate_server.Http.Server.{
  Gate, HttpRequest, Response, answered, refused, ServerState, run_guarded, serve, status,
}
use estate_server.Http.NotificationApi.{
  NotificationCall, list_mine_handler, unread_count_handler, read_all_handler, read_one_handler,
  NotificationView, view_of, Answer, of_notifications, of_count, done, NotificationSite, list_by,
  unread_by, mark_all_by, mark_one_by, run, routes, is_new,
}
use estate_server.Http.Guarding.{serve_split}

-- A row of the user has the id of the view.
abbrev pub IsOwn : Key → List Notification → NotificationView → Type 0
IsOwn user rows v =
    is_some (find_first (λ (n : Notification). n.id == v.id && n.recipient_id == user) rows) ≡ true

-- An answer that is a list shows rows of the user only.
abbrev pub OnlyOwn : Key → List Notification → Response Answer → Type 0
OnlyOwn user rows (answered n (of_notifications views)) = All (IsOwn user rows) views
OnlyOwn user rows (answered n (of_count k)) = Unit {0}
OnlyOwn user rows (answered n done) = Unit {0}
OnlyOwn user rows (refused e) = Unit {0}

-- The rows and the counters of a user are the same in both states.
abbrev pub SameFor : Key → NotificationState → NotificationState → Type 0
SameFor other s s' =
    (find_many (is_for other) s'.notifications ≡ find_many (is_for other) s.notifications)
    × (find_many (of_owner other) s'.unread ≡ find_many (of_owner other) s.unread)

module _ (user other : Key) (s : NotificationState) (different : (other == user) ≡ false) where
  mark_all-SameFor : (now : Time) → SameFor other s (mark_all now user s)
  unfolding mark_all mark_all_read unread_reset
  mark_all-SameFor now = (
    find_many-update_many_other (is_for other) (is_unread user) (set_read now) s.notifications
        (λ n. refl) (λ n h. ground arith),
    find_many-delete_many_other (of_owner other) (of_owner user) s.unread (λ c h. ground arith),
  )

  mark_one-SameFor : (now : Time) (id : Key) → SameFor other s (mark_one now user id s)
  unfolding mark_one mark_one_read unread_decrement
  mark_one-SameFor now id =
      let rows =
        find_many-update_many_other (is_for other) (is_unread_one user id) (set_read now)
          s.notifications (λ n. refl) (λ n h. ground arith) in
      let counters =
        find_many-update_many_other (of_owner other) (unread_is user now) unread_down s.unread
          (λ c. refl) (λ c h. ground arith) in
      elim (Bool-cases (count_where (is_unread_one user id) s.notifications == 1)) [
        | inl one ↦ rw (mark_one, one) (rows, counters)
        | inr no_row ↦ rw (mark_one, no_row) (rows, refl)
      ]

  unread_count-SameFor : (now : Time) → SameFor other s (unread_count now user s).1
  unfolding unread_count get_unread unread_backfill
  unread_count-SameFor now = elim (Option-cases (find_first (unread_is user now) s.unread)) [
    | inr (c, found) ↦ rw (unread_count, get_unread, found) (refl, refl)
    | inl missing ↦
        rw (unread_count, get_unread, missing)
          (
            refl,
            rw (unread_backfill, missing)
                (find_many-append_other (of_owner other) (delete_many (of_owner user) s.unread) _
                    (ground arith)
                  ∙ find_many-delete_many_other (of_owner other) (of_owner user) s.unread
                      (λ c h. ground arith)),
          )
  ]

-- The same id and recipient.
abbrev same_notice : Notification → Notification → Bool
same_notice n m = m.id == n.id && m.recipient_id == n.recipient_id

list_mine-OnlyOwn :
    (user : Key) (limit : Option ℤ) (s : NotificationState)
    → All (IsOwn user s.notifications) (map view_of (list_mine user limit s))
unfolding list_mine list_notifications list_for_user
list_mine-OnlyOwn user limit s =
    let IsListed = λ (n : Notification). IsOwn user s.notifications (view_of n) in
    let found = All-find_first same_notice s.notifications (λ n. ground arith) in
    let own = find_many-All _ (is_for user) s.notifications found in
    let listed =
      All-map _ IsListed (find_many (is_for user) s.notifications)
        (λ n h. let mine = (==_iff n.recipient_id user).0 h.1 in rw mine at h.0) own in
    All-mapped (IsOwn user s.notifications) view_of _ (
      All-take_rows IsListed (page_limit limit) _
        (All-sort_newest IsListed made_at (find_many (is_for user) s.notifications) listed))

module _ (gate : Gate) (site : NotificationSite) (now later : Time)
    (req : HttpRequest NotificationCall) (token : Key) where
  module _ (p : TokenPayload) (other : Key) (s : NotificationState)
      (good : gate.jwt.verify now token ≡ some (access p))
      (different : (other == p.sub) ≡ false) where
    -- What a request is answered that passed the rate limit.
    own_run :
        (ip : Option Key) (call : NotificationCall)
        → let (response, s') =
            run_guarded gate
              (routes site)
              now
              later
              (record { ip = ip; bearer = some token; call = call })
              s in
          (status response ≡ 200) × OnlyOwn p.sub s.notifications response × SameFor other s s'
    unfolding run_guarded jwt_auth_guard roles_guard validate run list_by unread_by mark_all_by
        mark_one_by status
    own_run ip (list_mine_handler limit) =
        rw (run_guarded, jwt_auth_guard, good) (refl, list_mine-OnlyOwn p.sub limit s, (refl, refl))
    own_run ip unread_count_handler =
        rw (run_guarded, jwt_auth_guard, good)
          (refl, tt, unread_count-SameFor p.sub other s different now)
    own_run ip read_all_handler =
        rw (run_guarded, jwt_auth_guard, good)
          (refl, tt, mark_all-SameFor p.sub other s different now)
    own_run ip (read_one_handler id) =
        rw (run_guarded, jwt_auth_guard, good)
          (refl, tt, mark_one-SameFor p.sub other s different now id)

  -- If the bearer token verifies as an access token, then a request to the notifications is
  -- answered with 200, or 429 of the rate limit, a list that it is answered with shows only rows
  -- of the user of the token, and the rows and the counters of any other user are as they were.
  pub own_inbox_only :
      (p : TokenPayload) (other : Key) (s : ServerState NotificationState)
      → req.bearer ≡ some token
      → gate.jwt.verify now token ≡ some (access p)
      → (other == p.sub) ≡ false
      → let (response, s') = serve gate (routes site) now later req s in
        ((status response ≡ 200) ⊎ (status response ≡ 429))
        × OnlyOwn p.sub s.tables.notifications response
        × SameFor other s.tables s'.tables
  unfolding status
  own_inbox_only p other s carried good different =
      let ran = own_run p other s.tables good different req.ip req.call in
      elim (serve_split gate (routes site) now later req s) [
        | inl (e, limited, code, kept) ↦ rw (limited, kept) (inr code, tt, (refl, refl))
        | inr (answer, kept) ↦ rw (answer, kept, carried) (inl ran.0, ran.1, ran.2)
      ]

-- PATCH /notifications/read with a bearer token.
abbrev pub read_all_request : Option Key → Key → HttpRequest NotificationCall
read_all_request ip token = record { ip = ip; bearer = some token; call = read_all_handler }

abbrev pub AllRead : NotificationState → Type 0
AllRead s = All (λ (n : Notification). is_none n.read_at ≡ false) s.notifications

-- An onboarding token has no `sub`, and the guard lets it in.
module _ (gate : Gate) (site : NotificationSite) (now later : Time) (ip : Option Key) (token : Key)
    (p : OnboardingPayload) (good : gate.jwt.verify now token ≡ some (onboarding p)) where
  everyone_reads :
      (user : Key) (s : NotificationState)
      → (user == site.undefined_text) ≡ false
      → let (response, s') =
          run_guarded gate (routes site) now later (read_all_request ip token) s in
        (status response ≡ 200)
        × AllRead s'
        × (find_many (of_owner user) s'.unread ≡ find_many (of_owner user) s.unread)
  unfolding run_guarded jwt_auth_guard roles_guard validate run mark_all_by unread_reset status
  everyone_reads user s real =
      rw (run_guarded, jwt_auth_guard, good)
        (
          refl,
          All-update_many (λ _. Unit {0}) _ is_new (set_read now) s.notifications
              (λ n h. ground arith) (trivial-All s.notifications),
          find_many-delete_many_other (of_owner user) (of_owner site.undefined_text) s.unread
              (λ c h. ground arith),
        )

  -- If the bearer token verifies as an onboarding token, then PATCH /notifications/read with it
  -- either is refused by the rate limit and changes no table, or is answered with 200, leaves every
  -- notification of every user read, and leaves the counters of every user as they were whose id
  -- is not the text `undefined`.
  pub onboarding_reads_all :
      (user : Key) (s : ServerState NotificationState)
      → (user == site.undefined_text) ≡ false
      → let (response, s') = serve gate (routes site) now later (read_all_request ip token) s in
        ((status response ≡ 429) × (s'.tables ≡ s.tables))
        ⊎ ((status response ≡ 200)
            × AllRead s'.tables
            × (find_many (of_owner user) s'.tables.unread
                ≡ find_many (of_owner user) s.tables.unread))
  unfolding status
  onboarding_reads_all user s real =
      let ran = everyone_reads user s.tables real in
      elim (serve_split gate (routes site) now later (read_all_request ip token) s) [
        | inl (e, limited, code, kept) ↦ rw (limited, kept) (inl (code, refl))
        | inr (answer, kept) ↦ rw (answer, kept) (inr ran)
      ]
