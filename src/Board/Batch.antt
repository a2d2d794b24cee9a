-- ===== src/Board/Batch.antt =====
-- The like counters of several posts at once, and the list of the posts of a building, against the
-- rows: src/board/application/like-count-reader.ts and list-posts.use-case.ts.
use estate_server.Base.{
  ==_refl, Key, List, List-cases, Option-cases, Result, Time, [], ap, arith, find_many,
  if◌then◌else◌, includes, includes-find_many, inl, inr, is_none, lookup, lookup-append,
  lookup-map_of, lookup-map_where, map_of, none, ok, refl, some, sym, true, ℕ, ◌++◌, ◌==◌, ◌∙◌, ◌∷◌,
  ◌≡◌,
}
use mathlib.Core.Path.{subst}
use mathlib.Core.Option
use estate_server.Board.Store.{BoardState, count_by_post, get_count, backfill}
use estate_server.Board.Counting.{IsCoherent, get_count-exact, backfill-IsCoherent}
use estate_server.Board.Listing.{
  get_many, count_by_posts, backfill_all, is_missed, count_of, rebuild, read_many,
}

-- What a read of counters leaves as it was.
pub record IsRead (now : Time) (s s' : BoardState) : Type 0 where
  pub coherent : IsCoherent now s'
  pub likes : s'.likes ≡ s.likes
  pub lists : s'.lists ≡ s.lists

module _ (now : Time) where
  backfill_all-IsRead :
      (f : Key → ℕ) (ids : List Key) (s : BoardState)
      → IsCoherent now s
      → ((id : Key) → includes id ids ≡ true → f id ≡ count_by_post id s)
      → IsRead now s (backfill_all now (map_of f ids) s)
  unfolding backfill_all backfill count_by_post includes
  backfill_all-IsRead f [] s h exact = record { coherent = h; likes = refl; lists = refl }
  backfill_all-IsRead f (id ∷ ids) s h exact =
      let here : f id ≡ count_by_post id s = exact id (rw (==_refl id) refl) in
      let h' : IsCoherent now (backfill now id (f id) s) =
        subst (λ n. IsCoherent now (backfill now id n s)) (sym here)
          (backfill-IsCoherent now id s h) in
      let rest =
        backfill_all-IsRead f ids (backfill now id (f id) s) h'
          (λ k there. exact k (ground arith)) in
      record { coherent = rest.coherent; likes = rest.likes; lists = rest.lists }

  count_of-counted :
      (ids : List Key) (s : BoardState) (id : Key)
      → includes id ids ≡ true
      → count_of (count_by_posts ids s) id ≡ count_by_post id s
  unfolding count_by_posts
  count_of-counted ids s id there =
      let found =
        lookup-map_where id (λ k. if count_by_post k s == 0 then none else some (count_by_post k s))
          ids in
      ground (arith, found)

-- The counts that were asked for are those of the rows.
pub record IsCounted (now : Time) (ids : List Key) (s : BoardState)
    (r : Result (List (Key × ℕ)) × BoardState) : Type 0 where
  pub counts : List (Key × ℕ)
  pub answered : r.0 ≡ ok counts
  pub exact : (id : Key) → includes id ids ≡ true → count_of counts id ≡ count_by_post id s
  pub read : IsRead now s r.1

module _ (now : Time) (ids : List Key) (s : BoardState) (h : IsCoherent now s) where
  abbrev cached : List (Key × ℕ)
  cached = get_many now ids s

  abbrev missed : List Key
  missed = find_many (is_missed cached) ids

  lookup-cached : (id : Key) → includes id ids ≡ true → lookup id cached ≡ get_count now id s
  unfolding get_many
  lookup-cached id there = lookup-map_where id (λ k. get_count now k s) ids ∙ rw there refl

  includes-missed :
      (id : Key) → includes id ids ≡ true → includes id missed ≡ is_none (get_count now id s)
  includes-missed id there =
      includes-find_many id (is_missed cached) ids ∙ rw (there, lookup-cached id there) refl

  rebuild-IsCounted : IsCounted now ids s (rebuild now cached missed s)
  unfolding rebuild Option.or_else
  rebuild-IsCounted =
      let f = count_of (count_by_posts missed s) in
      record {
        counts = map_of f missed ++ cached;
        answered = refl;
        exact = λ id there.
            let both = lookup-append id (map_of f missed) cached in
            let left = lookup-map_of id f missed in
            let right = lookup-cached id there in
            let gone = includes-missed id there in
            elim (Option-cases (get_count now id s)) [
              | inl e ↦
                  let counted = count_of-counted now missed s id in
                  ground (arith, both, left, right, gone, counted)
              | inr (n, e) ↦
                  let same = get_count-exact now id s h e in ground (arith, both, left, right, gone)
            ];
        read = backfill_all-IsRead now f missed s h (count_of-counted now missed s);
      }

  -- Every key that was asked for is in the cache where none is missed.
  hit-IsCounted : missed ≡ [] → IsCounted now ids s (ok cached, s)
  unfolding includes
  hit-IsCounted none_missed = record {
    counts = cached;
    answered = refl;
    exact = λ id there.
        let hit = sym (includes-missed id there) ∙ ap (includes id) none_missed in
        let found = lookup-cached id there in
        elim (Option-cases (get_count now id s)) [
          | inl e ↦ absurd (ground arith)
          | inr (n, e) ↦ let same = get_count-exact now id s h e in ground (arith, found)
        ];
    read = record { coherent = h; likes = refl; lists = refl };
  }

  pub read_many-IsCounted : IsCounted now ids s (read_many now ids s)
  unfolding read_many
  read_many-IsCounted = elim (List-cases missed) [
    | inl none_missed ↦
        subst (IsCounted now ids s) (sym (rw (read_many, none_missed) refl))
          (hit-IsCounted none_missed)
    | inr (id, rest, some_missed) ↦
        subst (IsCounted now ids s) (sym (rw (read_many, some_missed) refl)) rebuild-IsCounted
  ]
