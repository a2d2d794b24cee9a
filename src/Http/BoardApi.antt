-- ===== src/Http/BoardApi.antt =====
-- src/board/interface: board.controller.ts with its DTOs and board-rate-limit.constants.ts.
use estate_server.Base.{
  Action, Bool, Key, List, Option, Time, [], false, if◌then◌else◌, no_key, none, pure, some, true,
  ℕ, ◌==◌, ◌>>=◌,
}
use estate_server.Events.{Category}
use estate_server.RateLimit.Window.{Method, get, post, patch, delete, Options}
use estate_server.Board.Store.{BoardState, Post, Comment}
use estate_server.Board.Posts.{
  RedisCalls, create_post_case, create_comment_case, update_post_case, delete_post_case, get_post,
  PostDetailView,
}
use estate_server.Board.Likes.{like_post, unlike_post}
use estate_server.Board.Listing.{list_posts, PostSummaryView}
use estate_server.Http.Bearer.{CurrentUser}
use estate_server.Http.Server.{Routes}

-- The field `category` of a body: left out, a category, or anything else.
pub data CategoryField : Type 0 where
  unset : CategoryField
  named : Category → CategoryField
  not_category : CategoryField

-- The handlers with their bodies; a field of text is `none` where the body lacks it.
pub data BoardCall : Type 0 where
  create_post_handler :
      (building_id : Key) → CategoryField → (title content : Option Key) → BoardCall
  list_posts_handler : (building_id : Key) → BoardCall
  get_post_handler : (post_id : Key) → BoardCall
  update_post_handler : (post_id : Key) (title content : Option Key) → BoardCall
  delete_post_handler : (post_id : Key) → BoardCall
  create_comment_handler : (post_id : Key) (content : Option Key) → BoardCall
  like_post_handler : (post_id : Key) → BoardCall
  unlike_post_handler : (post_id : Key) → BoardCall

-- The decorators @Get, @Post, @Patch and @Delete.
unfoldable pub method_of : BoardCall → Method
method_of (create_post_handler building_id category title content) = post
method_of (list_posts_handler building_id) = get
method_of (get_post_handler post_id) = get
method_of (update_post_handler post_id title content) = patch
method_of (delete_post_handler post_id) = delete
method_of (create_comment_handler post_id content) = post
method_of (like_post_handler post_id) = post
method_of (unlike_post_handler post_id) = delete

-- BOARD_RATE_LIMIT
abbrev pub create_post_limit : Options
create_post_limit = record { user_max = some 20; ip_max = some 30; window_sec = none }

abbrev pub create_comment_limit : Options
create_comment_limit = record { user_max = some 30; ip_max = some 60; window_sec = none }

unfoldable pub limit_of : BoardCall → Option Options
limit_of (create_post_handler building_id category title content) = some create_post_limit
limit_of (create_comment_handler post_id content) = some create_comment_limit
limit_of _ = none

-- @HttpCode(204) at the deletion of a post.
unfoldable pub success_of : BoardCall → ℕ
success_of (create_post_handler building_id category title content) = 201
success_of (create_comment_handler post_id content) = 201
success_of (like_post_handler post_id) = 201
success_of (delete_post_handler post_id) = 204
success_of _ = 200

pub record PostView : Type 0 where
  pub id : Option Key
  pub building_id : Key
  pub category : Category
  pub title : Key

pub data Answer : Type 0 where
  of_created : PostView → Answer
  of_posts : List PostSummaryView → Answer
  of_detail : PostDetailView → Answer
  of_updated : (id : Option Key) (title content : Key) → Answer
  nothing : Answer
  of_comment : (id : Option Key) (post_id content : Key) → Answer
  of_likes : (post_id : Key) (liked : Bool) (like_count : ℕ) → Answer

abbrev pub created_answer : Post → Answer
created_answer p =
    of_created
      (record { id = p.id; building_id = p.building_id; category = p.category; title = p.title })

abbrev pub updated_answer : Post → Answer
updated_answer p = of_updated p.id p.title p.content

abbrev pub comment_answer : Comment → Answer
comment_answer c = of_comment c.id c.post_id c.content

-- What the handlers call outside the repository: `trim`, whether Redis takes an increment, and which
-- deletions.
-- `without_sub` is what they do for claims without a `sub`, which is left open: a condition on
-- `undefined` is no condition to Prisma.
pub record BoardSite : Type 0 where
  pub trim : Key → Key
  pub reachable : Bool
  pub redis : RedisCalls
  pub without_sub : Time → Time → BoardCall → Option (Action BoardState Answer)
  pub path_of : BoardCall → Key

-- `@IsNotEmpty()`
abbrev pub filled : Option Key → Option Key
filled none = none
filled (some k) = if k == no_key then none else some k

-- `@Trim() @IsNotEmpty()`
abbrev pub trimmed : (Key → Key) → Option Key → Option Key
trimmed trim none = none
trimmed trim (some k) = filled (some (trim k))

-- `@IsOptional() @IsEnum(PostCategory)`
abbrev pub category_of : CategoryField → Option (Option Category)
category_of unset = some none
category_of (named c) = some (some c)
category_of not_category = none

abbrev pub with_field :
    {A B : Type 0} → Option A → (A → Option (Action BoardState B)) → Option (Action BoardState B)
with_field none f = none
with_field (some a) f = f a

abbrev pub then_answer :
    {A : Type 0} → (A → Answer) → Action BoardState A → Action BoardState Answer
then_answer f m = m >>= λ a. pure (f a)

module _ (site : BoardSite) where
  -- The handlers behind the ValidationPipe, for a user with an id.
  unfoldable pub run_as : Time → Time → Key → BoardCall → Option (Action BoardState Answer)
  run_as now later id (create_post_handler building_id category title content) =
      with_field (category_of category) (λ c. with_field (trimmed site.trim title) (λ t.
        with_field (filled content) (λ k.
          some
            (then_answer created_answer (create_post_case site.redis now id building_id c t k)))))
  run_as now later id (list_posts_handler building_id) =
      some (then_answer of_posts (list_posts now id building_id))
  run_as now later id (get_post_handler post_id) =
      some (then_answer of_detail (get_post now id post_id))
  run_as now later id (update_post_handler post_id title content) =
      with_field (trimmed site.trim title) (λ t.
        with_field (filled content)
          (λ k. some (then_answer updated_answer (update_post_case site.redis id post_id t k))))
  run_as now later id (delete_post_handler post_id) =
      some (then_answer (λ _. nothing) (delete_post_case site.redis now id post_id))
  run_as now later id (create_comment_handler post_id content) =
      with_field (filled content)
        (λ k. some (then_answer comment_answer (create_comment_case site.redis now id post_id k)))
  run_as now later id (like_post_handler post_id) =
      some (then_answer (λ n. of_likes post_id true n) (like_post site.reachable now id post_id))
  run_as now later id (unlike_post_handler post_id) =
      some (then_answer (λ n. of_likes post_id false n) (unlike_post site.reachable now id post_id))

  unfoldable pub run : Time → Time → CurrentUser → BoardCall → Option (Action BoardState Answer)
  unfolding run_as
  run now later user call = elim user.sub [
    | none ↦ site.without_sub now later call
    | some id ↦ run_as now later id call
  ]

  -- The guard is on the class.
  abbrev pub routes : Routes BoardCall Answer BoardState
  routes = record {
    method_of = method_of;
    limit_of = limit_of;
    is_guarded = λ call. true;
    roles_of = λ call. [];
    success_of = success_of;
    path_of = site.path_of;
    run = run;
  }
