-- ===== src/Base/Once.antt =====
-- A table that keeps the first of the rows with a key, whatever is written to it and however often.
use Prim.Native.Nat.{◌+◌, ◌≤◌, min}
use mathlib.Core.Path.{◌≡◌, ap}
use mathlib.Core.Logic.{inl, inr}
use mathlib.Core.Bool.{Bool, true}
use mathlib.Core.Option.{Option, none, some}
use mathlib.Core.Option
use mathlib.Core.List.{List, [], ◌∷◌, ◌++◌}
use native.Mathlib.Omega.{arith}
use estate_server.Base.Tests.{Bool-cases, Option-cases, is_some, if◌then◌else◌, ◌==◌, ==_iff, Key}
use estate_server.Base.Table.{find_first, find_first-append, count_where}
use estate_server.Base.Counts.{count_where-append, find_first-none-count, count-pos_of_find_first}

module _ {A : Type 0} (key : A → Key) where
  abbrev pub has_key : Key → A → Bool
  has_key k x = key x == k

  unfoldable pub keep_once : A → List A → List A
  keep_once x xs = if is_some (find_first (has_key (key x)) xs) then xs else xs ++ x ∷ []

  -- Of the rows `ys` that are written one after the other.
  unfoldable pub keep_all : List A → List A → List A
  unfolding keep_once
  keep_all [] xs = xs
  keep_all (y ∷ ys) xs = keep_all ys (keep_once y xs)

  same_key :
      (k : Key) (x : A) (xs : List A)
      → (key x == k) ≡ true
      → find_first (has_key (key x)) xs ≡ find_first (has_key k) xs
  same_key k x xs same = ap (λ i. find_first (has_key i) xs) ((==_iff (key x) k).0 same)

  find_first-keep_once :
      (k : Key) (x : A) (xs : List A)
      → find_first (has_key k) (keep_once x xs)
        ≡ Option.or_else (find_first (has_key k) xs) (find_first (has_key k) (x ∷ []))
  unfolding keep_once find_first Option.or_else
  find_first-keep_once k x xs = elim (Bool-cases (key x == k)) [
    | inl same ↦
        let found = same_key k x xs same in
        ground (arith, found, find_first-append (has_key k) xs (x ∷ []))
    | inr other ↦ ground (arith, find_first-append (has_key k) xs (x ∷ []))
  ]

  count_where-keep_once :
      (k : Key) (x : A) (xs : List A)
      → count_where (has_key k) xs ≤ 1
      → count_where (has_key k) (keep_once x xs)
        ≡ min 1 (count_where (has_key k) xs + count_where (has_key k) (x ∷ []))
  unfolding keep_once count_where
  count_where-keep_once k x xs h = elim (Bool-cases (key x == k)) [
    | inl same ↦
        let found = same_key k x xs same in
        elim (Option-cases (find_first (has_key k) xs)) [
          | inl e ↦ ground (
            arith,
            found,
            find_first-none-count (has_key k) xs e,
            count_where-append (has_key k) xs (x ∷ []),
          )
          | inr (y, e) ↦ ground (arith, found, count-pos_of_find_first (has_key k) xs e)
        ]
    | inr other ↦ ground (arith, count_where-append (has_key k) xs (x ∷ []))
  ]

  pub find_first-keep_all :
      (k : Key) (ys xs : List A)
      → find_first (has_key k) (keep_all ys xs)
        ≡ Option.or_else (find_first (has_key k) xs) (find_first (has_key k) ys)
  unfolding keep_all find_first Option.or_else
  find_first-keep_all k [] xs = ground arith
  find_first-keep_all k (y ∷ ys) xs =
      ground (arith, find_first-keep_all k ys (keep_once y xs), find_first-keep_once k y xs)

  pub count_where-keep_all :
      (k : Key) (ys xs : List A)
      → count_where (has_key k) xs ≤ 1
      → count_where (has_key k) (keep_all ys xs)
        ≡ min 1 (count_where (has_key k) xs + count_where (has_key k) ys)
  unfolding keep_all count_where
  count_where-keep_all k [] xs h = ground arith
  count_where-keep_all k (y ∷ ys) xs h =
      ground (arith, count_where-keep_all k ys (keep_once y xs), count_where-keep_once k y xs h)
