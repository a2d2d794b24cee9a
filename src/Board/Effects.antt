-- ===== src/Board/Effects.antt =====
-- What a like and its end change, and what they leave: src/board/application/like-post.use-case.ts and
-- unlike-post.use-case.ts.
use estate_server.Base.{
  Bool, Bool-cases, Key, List, Option-cases, Time, [], arith, count_where, delete_many, find_first,
  find_first-none-count, inl, inr, is_some-find_first-append, none, refl, some, sym, true, ◌++◌,
  ◌+◌, ◌∙◌, ◌∷◌, ◌≡◌,
}
use mathlib.Core.Path.{subst}
use estate_server.Events.{DomainEvent}
use estate_server.Property.Store.{is_member}
use estate_server.Board.Store.{
  BoardState, Post, PostLike, find_post, increment, decrement, get_count, backfill, like_is,
}
use estate_server.Board.Likes.{like_post, unlike_post, read_one, like_event}
use estate_server.Board.Counting.{
  like_post-new, like_post-again, unlike_post-removed, after_like, after_unlike, new_like,
}

-- The reader writes the counters only.
read_one-frame :
    (now : Time) (post_id : Key) (s : BoardState)
    → ((read_one now post_id s).1.posts ≡ s.posts)
      × ((read_one now post_id s).1.property ≡ s.property)
      × ((read_one now post_id s).1.likes ≡ s.likes)
      × ((read_one now post_id s).1.events ≡ s.events)
unfolding read_one backfill
read_one-frame now post_id s = elim (Option-cases (get_count now post_id s)) [
  | inl missing ↦ rw (read_one, missing) (refl, refl, refl, refl)
  | inr (n, found) ↦ rw (read_one, found) (refl, refl, refl, refl)
]

pub find_first-new_like :
    (post_id user_id : Key) (rows : List PostLike)
    → (l : PostLike) × (find_first
          (like_is post_id user_id)
          (rows ++ record { post_id = post_id; user_id = user_id } ∷ [])
        ≡ some l)
find_first-new_like post_id user_id rows =
    let there =
      is_some-find_first-append (like_is post_id user_id) rows
        (record { post_id = post_id; user_id = user_id }) (ground arith) in
    elim (Option-cases (
      find_first (like_is post_id user_id)
        (rows ++ record { post_id = post_id; user_id = user_id } ∷ []))) [
          | inl missing ↦ absurd (ground arith)
          | inr found ↦ found
        ]

-- `t` has the posts, buildings and tenancies of `s`, and the given likes and events.
pub record IsSameBut (likes : List PostLike) (events : List DomainEvent) (s t : BoardState)
    : Type 0 where
  pub posts : t.posts ≡ s.posts
  pub property : t.property ≡ s.property
  pub likes_now : t.likes ≡ likes
  pub events_now : t.events ≡ events

read_one-IsSameBut :
    {likes : List PostLike} {events : List DomainEvent} (now : Time) (post_id : Key)
    (s t : BoardState)
    → IsSameBut likes events s t
    → IsSameBut likes events s (read_one now post_id t).1
read_one-IsSameBut now post_id s t h =
    let (posts, property, likes, events) = read_one-frame now post_id t in
    record {
      posts = posts ∙ h.posts;
      property = property ∙ h.property;
      likes_now = likes ∙ h.likes_now;
      events_now = events ∙ h.events_now;
    }

module _ (reachable : Bool) (now : Time) (user_id post_id : Key) (s : BoardState) {p : Post}
    (e : find_post post_id s ≡ some p) (m : is_member user_id p.building_id s.property ≡ true) where
  abbrev pub liked : BoardState
  liked = (like_post reachable now user_id post_id s).1

  abbrev unliked : BoardState
  unliked = (unlike_post reachable now user_id post_id s).1

  after_like-IsSameBut :
      IsSameBut
        (s.likes ++ new_like now post_id user_id s ∷ [])
        (s.events ++ like_event now user_id post_id p.building_id s.next_uuid ∷ [])
        s
        (after_like reachable now user_id post_id p.building_id s)
  unfolding increment
  after_like-IsSameBut = elim (Bool-cases reachable) [
    | inl up ↦ rw up (record { posts = refl; property = refl; likes_now = refl; events_now = refl })
    | inr down ↦
        rw down (record { posts = refl; property = refl; likes_now = refl; events_now = refl })
  ]

  after_unlike-IsSameBut :
      IsSameBut
        (delete_many (like_is post_id user_id) s.likes)
        s.events
        s
        (after_unlike reachable now user_id post_id s)
  unfolding decrement
  after_unlike-IsSameBut = elim (Bool-cases reachable) [
    | inl up ↦ rw up (record { posts = refl; property = refl; likes_now = refl; events_now = refl })
    | inr down ↦
        rw down (record { posts = refl; property = refl; likes_now = refl; events_now = refl })
  ]

  pub like-IsSameBut-new :
      find_first (like_is post_id user_id) s.likes ≡ none
      → IsSameBut
          (s.likes ++ new_like now post_id user_id s ∷ [])
          (s.events ++ like_event now user_id post_id p.building_id s.next_uuid ∷ [])
          s
          liked
  like-IsSameBut-new fresh =
      subst
        (λ r.
          IsSameBut (s.likes ++ new_like now post_id user_id s ∷ [])
            (s.events ++ like_event now user_id post_id p.building_id s.next_uuid ∷ []) s r.1)
        (sym (like_post-new reachable now user_id post_id s e m fresh))
        (read_one-IsSameBut now post_id s _ after_like-IsSameBut)

  pub like-IsSameBut-again :
      {l : PostLike}
      → find_first (like_is post_id user_id) s.likes ≡ some l
      → IsSameBut s.likes s.events s liked
  like-IsSameBut-again there =
      subst (λ r. IsSameBut s.likes s.events s r.1)
        (sym (like_post-again reachable now user_id post_id s e m there))
        (read_one-IsSameBut now post_id s s
          (record { posts = refl; property = refl; likes_now = refl; events_now = refl }))

  pub unlike-IsSameBut :
      count_where (like_is post_id user_id) s.likes ≡ 1
      → IsSameBut (delete_many (like_is post_id user_id) s.likes) s.events s unliked
  unlike-IsSameBut one =
      subst (λ r. IsSameBut (delete_many (like_is post_id user_id) s.likes) s.events s r.1)
        (sym (unlike_post-removed reachable now user_id post_id s e m one))
        (read_one-IsSameBut now post_id s _ after_unlike-IsSameBut)

pub one_more :
    (post_id user_id : Key) (rows : List PostLike)
    → find_first (like_is post_id user_id) rows ≡ none
    → count_where (like_is post_id user_id) rows
        + count_where
            (like_is post_id user_id)
            (record { post_id = post_id; user_id = user_id } ∷ [])
      ≡ 1
unfolding count_where
one_more post_id user_id rows e =
    let zero_rows = find_first-none-count (like_is post_id user_id) rows e in
    ground (arith, zero_rows)
