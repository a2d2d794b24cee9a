-- ===== src/Base/Sorting.antt =====
-- Sorting, newest first: `orderBy: { createdAt: 'desc' }` and JavaScript's `sort`, which is stable.
use Prim.Native.Nat.{ℕ, zero, suc, ◌+◌, ◌-◌}
use mathlib.Core.Logic.{inl, inr}
use mathlib.Core.List.{List, [], ◌∷◌}
use estate_server.Base.Tests.{Bool-cases, leb, if◌then◌else◌}
use estate_server.Base.Int.{ℤ, pos, negsuc}
use estate_server.Base.Lists.{All, All-take, length, take, drop}

module _ {ℓ} {A : Type ℓ} (key : A → ℕ) where
  unfoldable pub insert_newest : A → List A → List A
  insert_newest x [] = x ∷ []
  insert_newest x (y ∷ ys) =
      let rest = insert_newest x ys in if leb (key y) (key x) then x ∷ y ∷ ys else y ∷ rest

  unfoldable pub sort_newest : List A → List A
  unfolding insert_newest
  sort_newest [] = []
  sort_newest (x ∷ xs) = insert_newest x (sort_newest xs)

-- What all rows satisfy holds of the sorted rows, and of those that are taken.
module _ {ℓ κ} {A : Type ℓ} (P : A → Type κ) (key : A → ℕ) where
  All-insert_newest : (x : A) (xs : List A) → P x → All P xs → All P (insert_newest key x xs)
  unfolding insert_newest
  All-insert_newest x [] b h = (b, tt)
  All-insert_newest x (y ∷ ys) b (c, h) = elim (Bool-cases (leb (key y) (key x))) [
    | inl first ↦ rw (insert_newest, first) (b, (c, h))
    | inr later ↦ rw (insert_newest, later) (c, All-insert_newest x ys b h)
  ]

  pub All-sort_newest : (xs : List A) → All P xs → All P (sort_newest key xs)
  unfolding sort_newest
  All-sort_newest [] h = tt
  All-sort_newest (x ∷ xs) (b, h) =
      All-insert_newest x (sort_newest key xs) b (All-sort_newest xs h)

-- `take: limit` of Prisma; a negative number takes from the end.
abbrev pub take_rows : {A : Type 0} → ℤ → List A → List A
take_rows (pos n) rows = take n rows
take_rows (negsuc n) rows = drop (length rows - (n + 1)) rows

module _ {κ} {A : Type 0} (P : A → Type κ) where
  All-drop : (n : ℕ) (xs : List A) → All P xs → All P (drop n xs)
  All-drop zero xs h = h
  All-drop (suc n) [] h = tt
  All-drop (suc n) (x ∷ xs) (b, h) = All-drop n xs h

  pub All-take_rows : (limit : ℤ) (xs : List A) → All P xs → All P (take_rows limit xs)
  All-take_rows (pos n) xs h = All-take P n xs h
  All-take_rows (negsuc n) xs h = All-drop (length xs - (n + 1)) xs h
