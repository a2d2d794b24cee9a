-- ===== src/Board/Lists.antt =====
-- The list of the posts of a building against the tables:
-- src/board/application/list-posts.use-case.ts.
use mathlib.Core.Path.{subst}
use estate_server.Base.{
  ==_iff, ==_refl, All, All-map, Bool-cases, Key, List, Option-cases, Result, Time, [], ap, arith,
  count_where, err, false, find_first, find_many, get_or, includes, inl, inr, is_some, map,
  not_building_member, ok, refl, sym, true, ℕ, ◌==◌, ◌∙◌, ◌∷◌, ◌≡◌,
}
use estate_server.Property.Store.{is_member}
use estate_server.Board.Store.{
  BoardState, PostLike, PostSummary, count_by_post, has_liked, get_cached, like_is, like_of,
}
use estate_server.Board.Counting.{IsCoherent}
use estate_server.Board.Listing.{
  PostSummaryView, like_by, liked_post_ids, count_of, view_of, decorate, list_posts, load_summaries,
  summary_of, find_by_building, read_many,
}
use estate_server.Board.Batch.{read_many-IsCounted}

includes-liked :
    (id user_id : Key) (ids : List Key) (rows : List PostLike)
    → includes id ids ≡ true
    → includes id (map (λ l. l.post_id) (find_many (like_by user_id ids) rows))
      ≡ is_some (find_first (like_is id user_id) rows)
unfolding includes find_many find_first
includes-liked id user_id ids [] there = refl
includes-liked id user_id ids (l ∷ rows) there =
    let rest = includes-liked id user_id ids rows there in
    elim (Bool-cases (l.post_id == id)) [
      | inl same ↦
          let at = ap (λ k. includes k ids) ((==_iff l.post_id id).0 same) in
          ground (arith, at, rest)
      | inr other ↦ ground (arith, rest)
    ]

All-included :
    (Q : Key → Type 0) (ps : List PostSummary)
    → ((id : Key) → includes id (map (λ p. p.id) ps) ≡ true → Q id)
    → All (λ p. Q p.id) ps
unfolding includes
All-included Q [] h = tt
All-included Q (p ∷ ps) h =
    (h p.id (rw (==_refl p.id) refl), All-included Q ps (λ id there. h id (ground arith)))

All-views :
    (P : PostSummaryView → Type 0) (f : PostSummary → PostSummaryView) (ps : List PostSummary)
    → All (λ p. P (f p)) ps
    → All P (map f ps)
All-views P f [] h = tt
All-views P f (p ∷ ps) (q, h) = (q, All-views P f ps h)

map-views :
    (counts : List (Key × ℕ)) (liked : List Key) (ps : List PostSummary)
    → map (λ v. v.summary) (map (view_of counts liked) ps) ≡ ps
map-views counts liked [] = refl
map-views counts liked (p ∷ ps) = ap (λ qs. p ∷ qs) (map-views counts liked ps)

-- A view tells the number of the likes and the user's own.
pub record IsExactView (user_id : Key) (s : BoardState) (v : PostSummaryView) : Type 0 where
  pub like_count : v.like_count ≡ count_by_post v.summary.id s
  pub liked_by_me : v.liked_by_me ≡ has_liked v.summary.id user_id s

record IsDecorated (now : Time) (user_id : Key) (ps : List PostSummary) (s : BoardState)
    (r : Result (List PostSummaryView) × BoardState) : Type 0 where
  views : List PostSummaryView
  answered : r.0 ≡ ok views
  summaries : map (λ v. v.summary) views ≡ ps
  exact : All (IsExactView user_id s) views
  coherent : IsCoherent now r.1

decorate-runs :
    (now : Time) (user_id : Key) (ps : List PostSummary) (s : BoardState) (counts : List (Key × ℕ))
    → (read_many now (map (λ p. p.id) ps) s).0 ≡ ok counts
    → decorate now user_id ps s ≡ (
      ok (
          map
            (view_of counts (
              liked_post_ids user_id (map (λ p. p.id) ps) (read_many now (map (λ p. p.id) ps) s).1))
            ps),
      (read_many now (map (λ p. p.id) ps) s).1,
    )
unfolding decorate
decorate-runs now user_id ps s counts e = ground arith

decorate-IsDecorated :
    (now : Time) (user_id : Key) (ps : List PostSummary) (s : BoardState)
    → IsCoherent now s
    → IsDecorated now user_id ps s (decorate now user_id ps s)
unfolding liked_post_ids has_liked
decorate-IsDecorated now user_id ps s h =
    let ids = map (λ p. p.id) ps in
    let c = read_many-IsCounted now ids s h in
    let liked = liked_post_ids user_id ids (read_many now ids s).1 in
    let seen : (id : Key) → includes id ids ≡ true → includes id liked ≡ has_liked id user_id s =
      λ id there. rw c.read.likes (includes-liked id user_id ids s.likes there) in
    subst (IsDecorated now user_id ps s) (sym (decorate-runs now user_id ps s c.counts c.answered))
      (record {
        views = map (view_of c.counts liked) ps;
        answered = refl;
        summaries = map-views c.counts liked ps;
        exact = All-views (IsExactView user_id s) (view_of c.counts liked) ps (
            All-map _ _ ps (λ p q. record { like_count = q.0; liked_by_me = q.1 })
              (All-included
                (λ id.
                  (count_of c.counts id ≡ count_by_post id s)
                  × (includes id liked ≡ has_liked id user_id s))
                ps (λ id there. (c.exact id there, seen id there))));
        coherent = c.read.coherent;
      })

-- The summaries that the list starts from: the cached ones, or those of the live posts.
abbrev pub summaries_of : Time → Key → BoardState → List PostSummary
summaries_of now building_id s =
    get_or (get_cached now building_id s.lists) (map summary_of (find_by_building building_id s))

record IsLoaded (now : Time) (building_id : Key) (s : BoardState)
    (r : Result (List PostSummary) × BoardState) : Type 0 where
  answered : r.0 ≡ ok (summaries_of now building_id s)
  likes : r.1.likes ≡ s.likes
  counters : r.1.counters ≡ s.counters

load_summaries-IsLoaded :
    (now : Time) (building_id : Key) (s : BoardState)
    → IsLoaded now building_id s (load_summaries now building_id s)
unfolding load_summaries
load_summaries-IsLoaded now building_id s =
    elim (Option-cases (get_cached now building_id s.lists)) [
      | inl e ↦ record { answered = ground arith; likes = ground arith; counters = ground arith }
      | inr (ps, e) ↦ record {
        answered = ground arith;
        likes = ground arith;
        counters = ground arith;
      }
    ]

list_posts-runs :
    (now : Time) (user_id building_id : Key) (s : BoardState) (ps : List PostSummary)
    → (load_summaries now building_id s).0 ≡ ok ps
    → is_member user_id building_id s.property ≡ true
    → list_posts now user_id building_id s
      ≡ decorate now user_id ps (load_summaries now building_id s).1
unfolding list_posts
list_posts-runs now user_id building_id s ps loaded member = ground arith

list_posts-outsider :
    (now : Time) (user_id building_id : Key) (s : BoardState)
    → is_member user_id building_id s.property ≡ false
    → list_posts now user_id building_id s ≡ (err not_building_member, s)
unfolding list_posts
list_posts-outsider now user_id building_id s outsider = ground arith

-- Where the likes are the same.
IsExactView-same :
    (user_id : Key) (s s' : BoardState) (v : PostSummaryView)
    → s'.likes ≡ s.likes
    → IsExactView user_id s' v
    → IsExactView user_id s v
unfolding count_by_post has_liked
IsExactView-same user_id s s' v e q = record {
  like_count = q.like_count ∙ ap (λ rows. count_where (like_of v.summary.id) rows) e;
  liked_by_me =
      q.liked_by_me ∙ ap (λ rows. is_some (find_first (like_is v.summary.id user_id) rows)) e;
}

-- If the counters that are alive agree with the rows and a user is answered a list of the posts
-- of a building, then the user is a member of the building, the list has the summaries that are
-- cached or else those of the live posts in their order, each with the number of the rows of
-- PostLike of its post and with whether the user has one of them, and the counters that are
-- alive agree with the rows afterwards.
pub list_posts_exact :
    (now : Time) (user_id building_id : Key) (s : BoardState) {views : List PostSummaryView}
    → IsCoherent now s
    → (list_posts now user_id building_id s).0 ≡ ok views
    → (is_member user_id building_id s.property ≡ true)
      × (map (λ v. v.summary) views ≡ summaries_of now building_id s)
      × All (IsExactView user_id s) views
      × IsCoherent now (list_posts now user_id building_id s).1
list_posts_exact now user_id building_id s {views} h e =
    elim (Bool-cases (is_member user_id building_id s.property)) [
      | inr outsider ↦
          let refused = ap (λ r. r.0) (list_posts-outsider now user_id building_id s outsider) in
          absurd (ground arith)
      | inl member ↦
          let loaded = load_summaries-IsLoaded now building_id s in
          let s' = (load_summaries now building_id s).1 in
          let ps = summaries_of now building_id s in
          let h' : IsCoherent now s' = rw (loaded.likes, loaded.counters) h in
          let d = decorate-IsDecorated now user_id ps s' h' in
          let runs = list_posts-runs now user_id building_id s ps loaded.answered member in
          let same : ok d.views ≡ ok views = sym d.answered ∙ ap (λ r. r.0) (sym runs) ∙ e in
          let same_views : d.views ≡ views = ground arith in
          subst
            (λ vs.
              (is_member user_id building_id s.property ≡ true)
              × (map (λ v. v.summary) vs ≡ ps)
              × All (IsExactView user_id s) vs
              × IsCoherent now (list_posts now user_id building_id s).1)
            same_views
            (
              member,
              d.summaries,
              All-map _ _ d.views (λ v. IsExactView-same user_id s s' v loaded.likes) d.exact,
              subst (λ r. IsCoherent now r.1) (sym runs) d.coherent,
            )
    ]
