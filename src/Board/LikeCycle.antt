-- ===== src/Board/LikeCycle.antt =====
-- Liking and unliking a post: the count that is answered, repetition, and undoing.
use estate_server.Base.{
  false, refl, ◌⊎◌, ◌≤◌, ◌+◌, Bool, Bool-cases, Key, List, Option-cases, Result, Time, [], ap,
  arith, count_where, count_where-append, delete_many, delete_many-append, find_first, inl, inr,
  none, ok, some, sym, true, ℕ, ◌==◌, ◌∙◌, ◌∷◌, ◌≡◌,
}
use estate_server.Events.{DomainEvent}
use estate_server.Property.Store.{is_member}
use estate_server.Board.Store.{
  BoardState, Post, PostLike, find_post, count_by_post, increment, decrement, like_is, like_of,
  post_is, like_ttl,
}
use estate_server.Board.Likes.{like_post, unlike_post, read_one}
use estate_server.Board.Drift.{
  IsBehind, IsExpiring, after_like-IsExpiring, missed_like, read_one-healed,
}
use estate_server.Board.Counting.{
  IsCoherent, IsUnique, read_one-exact, like_post-new, like_post-again, unlike_post-removed,
  unlike_post-none, after_like, after_unlike, increment-IsExact, decrement-IsExact, new_like,
}
use estate_server.Board.Effects.{
  find_first-new_like, like-IsSameBut-new, like-IsSameBut-again, unlike-IsSameBut, one_more,
  IsSameBut,
}

-- The answer is the number of the rows, and the counters agree with the rows.
abbrev pub IsCounted : Time → Key → Result ℕ × BoardState → Type 0
IsCounted now post_id r = (r.0 ≡ ok (count_by_post post_id r.1)) × IsCoherent now r.1

read_one-IsCounted :
    (now : Time) (post_id : Key) (s : BoardState)
    → IsCoherent now s
    → IsCounted now post_id (read_one now post_id s)
unfolding count_by_post
read_one-IsCounted now post_id s h =
    let (exact, coherent, likes, events) = read_one-exact now post_id s h in
    (exact ∙ ap (λ rows. ok (count_where (like_of post_id) rows)) (sym likes), coherent)

module _ (now : Time) (user_id post_id : Key) (s : BoardState) {p : Post}
    (e : find_post post_id s ≡ some p) (m : is_member user_id p.building_id s.property ≡ true) where
  like-IsCounted :
      (reachable : Bool)
      → IsCoherent now s
      → let r = read_one now post_id (after_like reachable now user_id post_id p.building_id s) in
        IsCounted now post_id r ⊎ ((reachable ≡ false) × IsBehind post_id r)
  unfolding increment
  like-IsCounted true h = inl (
      read_one-IsCounted now post_id (after_like true now user_id post_id p.building_id s)
        (increment-IsExact now post_id user_id s h))
  like-IsCounted false h = elim (missed_like now user_id post_id p.building_id s h) [
    | inl counted ↦ inl counted
    | inr behind ↦ inr (refl, behind)
  ]

  -- If the post is there, the user is a member, the counters that are alive agree with the rows,
  -- and none outlives the time to live of a counter, then a like, the first or a repeated one,
  -- answers with the number of the rows of the post, and the counters agree with the rows again;
  -- or Redis did not take the increment of a first like, and the answer is one less than the
  -- number of the rows. In both cases a reader answers with that number once the time to live of a
  -- counter is over.
  pub like_post_counts :
      (reachable : Bool) (later : Time)
      → IsCoherent now s
      → IsExpiring now s
      → now + like_ttl ≤ later
      → let r = like_post reachable now user_id post_id s in
        (IsCounted now post_id r
          ⊎ ((reachable ≡ false)
              × (find_first (like_is post_id user_id) s.likes ≡ none)
              × IsBehind post_id r))
        × ((read_one later post_id r.1).0 ≡ ok (count_by_post post_id r.1))
  like_post_counts reachable later h short enough =
      elim (Option-cases (find_first (like_is post_id user_id) s.likes)) [
        | inr (l, there) ↦ rw (like_post-again reachable now user_id post_id s e m there) (
          inl (read_one-IsCounted now post_id s h),
          read_one-healed now post_id later s short enough,
        )
        | inl fresh ↦
            let t = after_like reachable now user_id post_id p.building_id s in
            let short' =
              after_like-IsExpiring now user_id post_id p.building_id s reachable short in
            rw (like_post-new reachable now user_id post_id s e m fresh) (
              elim (like-IsCounted reachable h) [
                | inl exact ↦ inl exact
                | inr (down, behind) ↦ inr (down, fresh, behind)
              ],
              read_one-healed now post_id later t short' enough,
            )
      ]

  -- If the post is there, the user is a member, a user has one like of a post at most, the
  -- counters that are alive agree with the rows, and Redis takes the decrement, then an
  -- unlike, with a like to remove or without, answers with the number of the rows of the
  -- post, and the counters agree with the rows again.
  pub unlike_post_counts :
      IsUnique s.likes
      → IsCoherent now s
      → IsCounted now post_id (unlike_post true now user_id post_id s)
  unfolding decrement
  unlike_post_counts u h =
      let few = u post_id user_id in
      elim (Bool-cases (count_where (like_is post_id user_id) s.likes == 1)) [
        | inl one ↦
            let one : count_where (like_is post_id user_id) s.likes ≡ 1 = ground arith in
            rw (unlike_post-removed true now user_id post_id s e m one) (
              read_one-IsCounted now post_id (after_unlike true now user_id post_id s)
                (decrement-IsExact now post_id user_id s one h))
        | inr other ↦
            rw (unlike_post-none true now user_id post_id s e m (ground arith))
              (read_one-IsCounted now post_id s h)
      ]

module _ (reachable reachable' : Bool) (now now' : Time) (user_id post_id : Key) (s : BoardState)
    {p : Post} (e : find_post post_id s ≡ some p)
    (m : is_member user_id p.building_id s.property ≡ true) where
  -- The post is still there and the user still a member, whatever was liked.
  same_post :
      {likes : List PostLike} {events : List DomainEvent} {t : BoardState}
      → IsSameBut likes events s t
      → (find_post post_id t ≡ some p) × (is_member user_id p.building_id t.property ≡ true)
  unfolding find_post
  same_post h = (
    ap (find_first (post_is post_id)) h.posts ∙ e,
    ap (is_member user_id p.building_id) h.property ∙ m,
  )

  -- If the post is there and the user is a member, then liking the post once more, at any
  -- time and whether or not Redis takes the increments, changes neither the likes nor the
  -- events.
  pub like_post_idempotent :
      let first = (like_post reachable now user_id post_id s).1 in
      let second = (like_post reachable' now' user_id post_id first).1 in
      (second.likes ≡ first.likes) × (second.events ≡ first.events)
  like_post_idempotent =
      let first = (like_post reachable now user_id post_id s).1 in
      elim (Option-cases (find_first (like_is post_id user_id) s.likes)) [
        | inl fresh ↦
            let h = like-IsSameBut-new reachable now user_id post_id s e m fresh in
            let (e', m') = same_post h in
            let (l, last) = find_first-new_like post_id user_id s.likes in
            let again =
              like-IsSameBut-again reachable' now' user_id post_id first e' m'
                (ap (find_first (like_is post_id user_id)) h.likes_now ∙ last) in
            (again.likes_now, again.events_now)
        | inr (l, there) ↦
            let h = like-IsSameBut-again reachable now user_id post_id s e m there in
            let (e', m') = same_post h in
            let again =
              like-IsSameBut-again reachable' now' user_id post_id first e' m'
                (ap (find_first (like_is post_id user_id)) h.likes_now ∙ there) in
            (again.likes_now, again.events_now)
      ]

  -- If the post is there and the user is a member who has not liked it, then a like followed
  -- by an unlike, whether or not Redis takes the changes, leaves the rows of PostLike as they
  -- were.
  pub unlike_undoes_like :
      find_first (like_is post_id user_id) s.likes ≡ none
      → let first = (like_post reachable now user_id post_id s).1 in
        (unlike_post reachable' now' user_id post_id first).1.likes ≡ s.likes
  unlike_undoes_like fresh =
      let first = (like_post reachable now user_id post_id s).1 in
      let h = like-IsSameBut-new reachable now user_id post_id s e m fresh in
      let (e', m') = same_post h in
      let row = new_like now post_id user_id s in
      let one : count_where (like_is post_id user_id) first.likes ≡ 1 =
        ap (count_where (like_is post_id user_id)) h.likes_now
        ∙ count_where-append (like_is post_id user_id) s.likes (row ∷ [])
        ∙ one_more post_id user_id s.likes fresh in
      let back = unlike-IsSameBut reachable' now' user_id post_id first e' m' one in
      back.likes_now
      ∙ ap (delete_many (like_is post_id user_id)) h.likes_now
      ∙ delete_many-append (like_is post_id user_id) s.likes row fresh (ground arith)
