-- ===== src/Board/Tests.antt =====
-- A post in a building of which its author is the owner, and nobody has liked it.
use estate_server.Base.{
  arith, All, ◌≢◌, not_author, List, [], count_where, err, false, find_first, find_many, includes,
  lookup, map, none, ok, post_not_found, refl, some, true, ◌∷◌, ◌≡◌, ◌⊎◌,
}
use estate_server.Events.{free}
use estate_server.Property.Entities.{Building}
use estate_server.Property.Store.{PropertyState, is_member}
use estate_server.Board.Store.{
  get_cached, get_count, BoardState, Post, PostLike, LikeCount, find_post, like_is, like,
  count_by_post,
}
use estate_server.Board.Likes.{add_event, read_one, like_post, unlike_post}
use estate_server.Board.Counting.{IsCoherent}
use estate_server.Board.Drift.{IsBehind, IsExpiring}
use estate_server.Board.LikeCycle.{IsCounted, like_post_counts, unlike_undoes_like}
use estate_server.Board.Listing.{
  PostSummaryView, list_posts, load_summaries, find_by_building, decorate, read_many, get_many,
  liked_post_ids,
}
use estate_server.Board.Lists.{IsExactView, list_posts_exact, summaries_of}
use estate_server.Board.Posts.{RedisCalls, get_post, delete_post_case}
use estate_server.Board.Authors.{IsDeletedBy, delete_post_authorised, deleted_not_served}

abbrev building : Building
building = record { id = some 1; owner_id = 10; name = 100; address = 101; deleted_at = none }

abbrev tables : PropertyState
tables = record {
  buildings = building ∷ [];
  units = [];
  leases = [];
  invites = [];
  events = [];
  next_id = 4;
  next_uuid = 50;
  draws = 0;
}

abbrev the_post : Post
the_post = record {
  id = some 2;
  building_id = 1;
  author_id = 10;
  category = free;
  title = 200;
  content = 201;
  deleted_at = none;
}

abbrev other_like : PostLike
other_like = record { post_id = 2; user_id = 11 }

abbrev counter : LikeCount
counter = record { post_id = 2; value = 1; expires_at = 1000 }

abbrev state : BoardState
state = record {
  property = tables;
  posts = the_post ∷ [];
  comments = [];
  likes = other_like ∷ [];
  events = [];
  counters = counter ∷ [];
  details = [];
  lists = [];
  next_id = 4;
  next_uuid = 50;
}

posted : find_post 2 state ≡ some the_post
unfolding find_post find_first
posted = refl

resident : is_member 10 1 state.property ≡ true
unfolding is_member find_first
resident = refl

coherent : IsCoherent 5 state
unfolding count_where
coherent = (λ alive. refl, tt)

not_liked : find_first (like_is 2 10) state.likes ≡ none
unfolding find_first
not_liked = refl

expiring : IsExpiring 5 state
expiring = (omega arith, tt)

-- Redis does not take the increment, and is read an hour later.
like_post_counts_example :
    let r = like_post false 5 10 2 state in
    (IsCounted 5 2 r
      ⊎ ((false ≡ false) × (find_first (like_is 2 10) state.likes ≡ none) × IsBehind 2 r))
    × ((read_one 3600005 2 r.1).0 ≡ ok (count_by_post 2 r.1))
like_post_counts_example =
    like_post_counts 5 10 2 state posted resident false 3600005 coherent expiring (omega arith)

missed_one : (like_post false 5 10 2 state).0 ≡ ok 1
unfolding like_post read_one get_count find_post find_first is_member like add_event
missed_one = refl

unlike_undoes_like_example :
    (unlike_post true 6 10 2 (like_post true 5 10 2 state).1).1.likes ≡ other_like ∷ []
unlike_undoes_like_example = unlike_undoes_like true true 5 6 10 2 state posted resident not_liked

-- Redis takes the deletion of the post's cached copy, and not that of the list.
abbrev partial : RedisCalls
partial = record { detail_up = true; list_up = false; count_up = true }

delete_post_authorised_example :
    ((p : Post) × (find_post 2 state ≡ some p)
      × (p.author_id ≡ 10)
      × IsDeletedBy partial 5 10 2 state p (delete_post_case partial 5 10 2 state))
    ⊎ (((find_post 2 state ≡ none)
          × (delete_post_case partial 5 10 2 state ≡ (err post_not_found, state)))
        ⊎ ((p : Post) × (find_post 2 state ≡ some p)
            × (p.author_id ≢ 10)
            × (delete_post_case partial 5 10 2 state ≡ (err not_author, state))))
delete_post_authorised_example = delete_post_authorised partial 5 10 2 state

deleted_not_served_example :
    (get_post 6 10 2 (delete_post_case partial 5 10 2 state).1).0 ≡ err post_not_found
deleted_not_served_example = deleted_not_served partial 5 6 10 10 2 state refl posted refl

abbrev listed : List PostSummaryView
listed =
    record {
      summary = record { id = 2; category = free; title = 200; author_id = 10 };
      like_count = 1;
      liked_by_me = false;
    }
    ∷ []

lists_one : (list_posts 5 10 1 state).0 ≡ ok listed
unfolding list_posts load_summaries get_cached find_by_building find_many decorate read_many
    get_many get_count find_first lookup liked_post_ids is_member includes
lists_one = refl

list_posts_exact_example :
    (is_member 10 1 state.property ≡ true)
    × (map (λ v. v.summary) listed ≡ summaries_of 5 1 state)
    × All (IsExactView 10 state) listed
    × IsCoherent 5 (list_posts 5 10 1 state).1
list_posts_exact_example = list_posts_exact 5 10 1 state coherent lists_one
