-- ===== src/Board/Store/Entities.antt =====
-- src/board/domain: the entities Post and Comment, the rows of the likes, and what Redis holds.
use estate_server.Base.{
  Key, List, Option, Result, Time, domain_error, err, get_or, if◌then◌else◌, no_key, none, ok, ℕ,
  ◌==◌, ◌||◌,
}
use estate_server.Events.{Category, free}

-- Post. A row is the entity with the id set and the column deletedAt, which the entity hides.
pub record Post : Type 0 where
  pub id : Option Key
  pub building_id : Key
  pub author_id : Key
  pub category : Category
  pub title : Key
  pub content : Key
  pub deleted_at : Option Time

-- `Post.create`
unfoldable pub create_post : Key → Key → Option Category → Key → Key → Result Post
create_post building_id author_id category title content =
    if building_id == no_key || author_id == no_key || title == no_key || content == no_key
    then err domain_error
    else ok (record {
      id = none;
      building_id = building_id;
      author_id = author_id;
      category = get_or category free;
      title = title;
      content = content;
      deleted_at = none;
    })

-- `Post.edit`
unfoldable pub edit : Key → Key → Post → Result Post
edit title content p =
    if title == no_key || content == no_key
    then err domain_error
    else ok (record p { title = title; content = content })

pub record Comment : Type 0 where
  pub id : Option Key
  pub post_id : Key
  pub author_id : Key
  pub content : Key
  pub deleted_at : Option Time

-- `Comment.create`
unfoldable pub create_comment : Key → Key → Key → Result Comment
create_comment post_id author_id content =
    if post_id == no_key || author_id == no_key || content == no_key
    then err domain_error
    else ok (record {
      id = none;
      post_id = post_id;
      author_id = author_id;
      content = content;
      deleted_at = none;
    })

-- A row of the table PostLike.
pub record PostLike : Type 0 where
  pub post_id : Key
  pub user_id : Key

-- A key `board:like:count:{postId}` in Redis.
pub record LikeCount : Type 0 where
  pub post_id : Key
  pub value : ℕ
  pub expires_at : Time

-- PostSummary
pub record PostSummary : Type 0 where
  pub id : Key
  pub category : Category
  pub title : Key
  pub author_id : Key

pub record CommentView : Type 0 where
  pub id : Key
  pub author_id : Key
  pub content : Key

pub record PostDetail : Type 0 where
  pub id : Key
  pub building_id : Key
  pub category : Category
  pub title : Key
  pub content : Key
  pub author_id : Key
  pub comments : List CommentView

-- A key `board:detail:{postId}` or `board:list:{buildingId}` in Redis.
pub record Cached (A : Type 0) : Type 0 where
  pub key : Key
  pub value : A
  pub expires_at : Time
