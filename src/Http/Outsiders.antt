-- ===== src/Http/Outsiders.antt =====
-- Who is a member of no building, at the routes of src/board/interface/board.controller.ts.
use estate_server.Base.{
  Action, Bool, Key, Option, Option-cases, Result, Time, arith, err, false, inl, inr, none,
  not_building_member, post_not_found, refl, some, true, ◌≡◌, ◌⊎◌,
}
use estate_server.Auth.Session.{TokenPayload}
use estate_server.Errors.{exception_of, status_of, to_error_response}
use estate_server.Property.Store.{is_member}
use estate_server.Board.Store.{BoardState, find_post, get_cached}
use estate_server.Board.Posts.{
  RedisCalls, create_post_case, create_comment_case, get_post, load_detail, load_detail_hit,
  load_detail_miss,
}
use estate_server.Board.Likes.{like_post, unlike_post}
use estate_server.Board.Listing.{list_posts}
use estate_server.Http.Bearer.{access, admitted, jwt_auth_guard, roles_guard, validate}
use estate_server.Http.Server.{Gate, HttpRequest, ServerState, serve, status, refuse, run_guarded}
use estate_server.Http.BoardApi.{
  BoardCall, BoardSite, create_post_handler, list_posts_handler, get_post_handler,
  update_post_handler, delete_post_handler, create_comment_handler, like_post_handler,
  unlike_post_handler, Answer, routes, run, run_as, of_posts, of_detail, of_likes, created_answer,
  comment_answer, category_of, trimmed, filled, then_answer, with_field, with_field, then_answer,
}
use estate_server.Http.Guarding.{serve_cases}

-- The routes for the members of a building; the author of a post need not be one any more to
-- change or delete it.
abbrev pub for_members : BoardCall → Bool
for_members (update_post_handler post_id title content) = false
for_members (delete_post_handler post_id) = false
for_members _ = true

-- A refusal that changes nothing.
abbrev Refused : {A : Type 0} → Result A × BoardState → BoardState → Type 0
Refused (r, s') s = ((r ≡ err not_building_member) ⊎ (r ≡ err post_not_found)) × (s' ≡ s)

module _ (id : Key) (s : BoardState)
    (outside : (building : Key) → is_member id building s.property ≡ false) where
  outside_create_post :
      (redis : RedisCalls) (now : Time) (building : Key) (category : _) (title content : Key)
      → Refused (create_post_case redis now id building category title content s) s
  unfolding create_post_case
  outside_create_post redis now building category title content =
      let no = outside building in (inl (ground arith), ground arith)

  outside_list_posts : (now : Time) (building : Key) → Refused (list_posts now id building s) s
  unfolding list_posts
  outside_list_posts now building = let no = outside building in (inl (ground arith), ground arith)

  outside_get_post : (now : Time) (post : Key) → Refused (get_post now id post s) s
  unfolding get_post load_detail load_detail_hit load_detail_miss
  outside_get_post now post = elim (Option-cases (get_cached now post s.details)) [
    | inr (cached, e) ↦ let no = outside cached.building_id in (inl (ground arith), ground arith)
    | inl miss ↦ elim (Option-cases (find_post post s)) [
      | inl gone ↦ (inr (ground arith), ground arith)
      | inr (p, found) ↦ let no = outside p.building_id in (inl (ground arith), ground arith)
    ]
  ]

  outside_create_comment :
      (redis : RedisCalls) (now : Time) (post content : Key)
      → Refused (create_comment_case redis now id post content s) s
  unfolding create_comment_case
  outside_create_comment redis now post content = elim (Option-cases (find_post post s)) [
    | inl gone ↦ (inr (ground arith), ground arith)
    | inr (p, found) ↦ let no = outside p.building_id in (inl (ground arith), ground arith)
  ]

  outside_like :
      (reachable : Bool) (now : Time) (post : Key) → Refused (like_post reachable now id post s) s
  unfolding like_post
  outside_like reachable now post = elim (Option-cases (find_post post s)) [
    | inl gone ↦ (inr (ground arith), ground arith)
    | inr (p, found) ↦ let no = outside p.building_id in (inl (ground arith), ground arith)
  ]

  outside_unlike :
      (reachable : Bool) (now : Time) (post : Key) → Refused (unlike_post reachable now id post s) s
  unfolding unlike_post
  outside_unlike reachable now post = elim (Option-cases (find_post post s)) [
    | inl gone ↦ (inr (ground arith), ground arith)
    | inr (p, found) ↦ let no = outside p.building_id in (inl (ground arith), ground arith)
  ]

  -- The body is not valid, or the handler refuses.
  abbrev Stops : Option (Action BoardState Answer) → Type 0
  Stops o = (o ≡ none) ⊎ ((m : Action BoardState Answer) × (o ≡ some m) × Refused (m s) s)

  with_field-Stops :
      {A : Type 0} (o : Option A) (f : A → Option (Action BoardState Answer))
      → ((a : A) → Stops (f a))
      → Stops (with_field o f)
  with_field-Stops none f h = inl refl
  with_field-Stops (some a) f h = h a

  then_answer-Stops :
      {A : Type 0} (f : A → Answer) (m : Action BoardState A)
      → Refused (m s) s
      → Stops (some (then_answer f m))
  then_answer-Stops f m (inl e, same) = inr (_, refl, (inl (ground arith), ground arith))
  then_answer-Stops f m (inr e, same) = inr (_, refl, (inr (ground arith), ground arith))

  run_as-Stops :
      (site : BoardSite) (now later : Time) (call : BoardCall)
      → for_members call ≡ true
      → Stops (run_as site now later id call)
  unfolding run_as
  run_as-Stops site now later (create_post_handler building category title content) h =
      with_field-Stops (category_of category) _ (λ c.
        with_field-Stops (trimmed site.trim title) _ (λ t. with_field-Stops (filled content) _ (λ k.
          then_answer-Stops created_answer (create_post_case site.redis now id building c t k)
            (outside_create_post site.redis now building c t k))))
  run_as-Stops site now later (list_posts_handler building) h =
      then_answer-Stops of_posts (list_posts now id building) (outside_list_posts now building)
  run_as-Stops site now later (get_post_handler post) h =
      then_answer-Stops of_detail (get_post now id post) (outside_get_post now post)
  run_as-Stops site now later (update_post_handler post title content) h = cc
  run_as-Stops site now later (delete_post_handler post) h = cc
  run_as-Stops site now later (create_comment_handler post content) h =
      with_field-Stops (filled content) _ (λ k.
        then_answer-Stops comment_answer (create_comment_case site.redis now id post k)
          (outside_create_comment site.redis now post k))
  run_as-Stops site now later (like_post_handler post) h =
      then_answer-Stops (λ n. of_likes post true n) (like_post site.reachable now id post)
        (outside_like site.reachable now post)
  run_as-Stops site now later (unlike_post_handler post) h =
      then_answer-Stops (λ n. of_likes post false n) (unlike_post site.reachable now id post)
        (outside_unlike site.reachable now post)

module _ (gate : Gate) (site : BoardSite) (now later : Time) (req : HttpRequest BoardCall)
    (token : Key) (p : TokenPayload) where
  member_admitted :
      req.bearer ≡ some token
      → gate.jwt.verify now token ≡ some (access p)
      → jwt_auth_guard gate.jwt now req.bearer ≡ admitted (validate (access p))
  unfolding jwt_auth_guard
  member_admitted carried good = rw (carried, jwt_auth_guard, good) refl

  -- If a call to the board neither updates nor deletes a post, the bearer token verifies as
  -- an access token, and its user is a member of no building, then the answer has the status
  -- 400, 403, 404, or 429 of the rate limit, and nothing of the board has changed, its tables
  -- and caches alike.
  pub outsiders_refused :
      (s : ServerState BoardState)
      → for_members req.call ≡ true
      → req.bearer ≡ some token
      → gate.jwt.verify now token ≡ some (access p)
      → ((building : Key) → is_member p.sub building s.tables.property ≡ false)
      → let (response, s') = serve gate (routes site) now later req s in
        ((status response ≡ 400)
          ⊎ (status response ≡ 403)
          ⊎ (status response ≡ 404)
          ⊎ (status response ≡ 429))
        × (s'.tables ≡ s.tables)
  unfolding refuse status to_error_response status_of run_guarded validate run roles_guard
      exception_of
  outsiders_refused s h carried good outside =
      let entered = member_admitted carried good in
      elim (serve_cases gate (routes site) now later req s) [
        | inl (limited, same) ↦ (inr (inr (inr limited)), same)
        | inr (ran, same) ↦ elim (run_as-Stops p.sub s.tables outside site now later req.call h) [
          | inl bad ↦ rw (ran, same, run_guarded, entered, bad) (inl refl, refl)
          | inr (m, e, (inl out, kept)) ↦
              rw (ran, same, run_guarded, entered, e, out) (inr (inl refl), kept)
          | inr (m, e, (inr out, kept)) ↦
              rw (ran, same, run_guarded, entered, e, out) (inr (inr (inl refl)), kept)
        ]
      ]
