-- ===== src/Base/Table.antt =====
-- A database table as the list of its rows, oldest first, and the queries that the repositories
-- put to it through Prisma, each with the laws that the components use.
use Prim.Native.Nat.{ℕ, ◌+◌}
use mathlib.Core.Path.{◌≡◌, refl, subst}
use mathlib.Core.Logic.{inl, inr}
use mathlib.Core.Bool.{Bool, true, false}
use mathlib.Core.Option.{Option, none, some}
use mathlib.Core.Option
use mathlib.Core.List.{List, [], ◌∷◌, ◌++◌}
use native.Mathlib.Omega.{arith}
use estate_server.Base.Tests.{is_some, if◌then◌else◌, Bool-cases}
use estate_server.Base.Lists.{All}

module _ {ℓ} {A : Type ℓ} where
  -- `findFirst`, `findUnique`
  unfoldable pub find_first : (A → Bool) → List A → Option A
  find_first p [] = none
  find_first p (x ∷ xs) = if p x then some x else find_first p xs

  -- `findMany`
  unfoldable pub find_many : (A → Bool) → List A → List A
  find_many p [] = []
  find_many p (x ∷ xs) = if p x then x ∷ find_many p xs else find_many p xs

  -- `count`
  unfoldable pub count_where : (A → Bool) → List A → ℕ
  count_where p [] = 0
  count_where p (x ∷ xs) = (if p x then 1 else 0) + count_where p xs

  -- `updateMany`: the rows afterwards; `count_where` gives its `count`.
  unfoldable pub update_many : (A → Bool) → (A → A) → List A → List A
  update_many p f [] = []
  update_many p f (x ∷ xs) = (if p x then f x else x) ∷ update_many p f xs

  -- `deleteMany`
  unfoldable pub delete_many : (A → Bool) → List A → List A
  delete_many p [] = []
  delete_many p (x ∷ xs) = if p x then delete_many p xs else x ∷ delete_many p xs

  -- A row after `update_many`.
  abbrev pub updated : (A → Bool) → (A → A) → A → A
  updated p f x = if p x then f x else x

module _ {ℓ} {A : Type ℓ} where
  pub find_first_sound :
      (p : A → Bool) (xs : List A) {a : A} → find_first p xs ≡ some a → p a ≡ true
  unfolding find_first
  find_first_sound p [] e = cc
  find_first_sound p (x ∷ xs) {a} e = ground (arith, find_first_sound p xs {a = a})

  pub find_first-All {κ} :
      (P : A → Type κ) (p : A → Bool) (xs : List A) {a : A}
      → All P xs
      → find_first p xs ≡ some a
      → P a
  unfolding find_first
  find_first-All P p [] h e = cc
  find_first-All P p (x ∷ xs) {a} (b, h) e = elim (Bool-cases (p x)) [
    | inl here ↦ let same : x ≡ a = ground arith in subst P same b
    | inr later ↦ find_first-All P p xs h (rw later at e)
  ]

  pub find_first-update_many :
      (q q' p : A → Bool) (f : A → A) (xs : List A)
      → ((x : A) → q (updated p f x) ≡ q' x)
      → find_first q (update_many p f xs) ≡ Option.map (updated p f) (find_first q' xs)
  unfolding find_first update_many
  find_first-update_many q q' p f [] h = refl
  find_first-update_many q q' p f (x ∷ xs) h =
      ground (arith, h x, find_first-update_many q q' p f xs h)

  pub All-update_many {κ μ} :
      (P : A → Type κ) (Q : A → Type μ) (p : A → Bool) (f : A → A) (xs : List A)
      → ((x : A) → P x → Q (updated p f x))
      → All P xs
      → All Q (update_many p f xs)
  unfolding update_many
  All-update_many P Q p f [] h a = tt
  All-update_many P Q p f (x ∷ xs) h (b, a) = (h x b, All-update_many P Q p f xs h a)

  pub find_first-append :
      (p : A → Bool) (xs ys : List A)
      → find_first p (xs ++ ys) ≡ Option.or_else (find_first p xs) (find_first p ys)
  unfolding find_first Option.or_else
  find_first-append p [] ys = refl
  find_first-append p (x ∷ xs) ys = ground (arith, find_first-append p xs ys)

  -- Every row that `find_many` returns matches, and satisfies what all rows do.
  pub find_many-All {κ} :
      (P : A → Type κ) (p : A → Bool) (xs : List A)
      → All P xs
      → All (λ x. P x × (p x ≡ true)) (find_many p xs)
  unfolding find_many
  find_many-All P p [] h = tt
  find_many-All P p (x ∷ xs) (b, h) = elim (Bool-cases (p x)) [
    | inl here ↦ rw here ((b, here), find_many-All P p xs h)
    | inr not_here ↦ rw not_here (find_many-All P p xs h)
  ]

  pub trivial-All : (xs : List A) → All (λ _. Unit {0}) xs
  trivial-All [] = tt
  trivial-All (x ∷ xs) = (tt, trivial-All xs)

  -- A row that matches is found, be it the one that another query returned or the newest.
  pub is_some-find_first :
      (p q : A → Bool) (xs : List A) {a : A}
      → find_first p xs ≡ some a
      → q a ≡ true
      → is_some (find_first q xs) ≡ true
  unfolding find_first
  is_some-find_first p q [] e h = cc
  is_some-find_first p q (x ∷ xs) {a} e h = elim (Bool-cases (p x)) [
    | inl here ↦ let same : x ≡ a = ground arith in let hit : q x ≡ true = rw same h in rw hit
    | inr later ↦ let rest = is_some-find_first p q xs (rw later at e) h in ground (arith, rest)
  ]

  pub is_some-find_first-append :
      (q : A → Bool) (xs : List A) (x : A)
      → q x ≡ true
      → is_some (find_first q (xs ++ x ∷ [])) ≡ true
  unfolding find_first
  is_some-find_first-append q [] x h = rw h
  is_some-find_first-append q (y ∷ xs) x h = ground (arith, is_some-find_first-append q xs x h)

  pub find_first-delete_many :
      (p q : A → Bool) (xs : List A)
      → ((x : A) → p x ≡ true → q x ≡ true)
      → find_first p (delete_many q xs) ≡ none
  unfolding find_first delete_many
  find_first-delete_many p q [] h = refl
  find_first-delete_many p q (x ∷ xs) h = ground (arith, h x, find_first-delete_many p q xs h)

  pub All-delete_many {κ} :
      (P : A → Type κ) (q : A → Bool) (xs : List A) → All P xs → All P (delete_many q xs)
  unfolding delete_many
  All-delete_many P q [] h = tt
  All-delete_many P q (x ∷ xs) (b, h) = elim (Bool-cases (q x)) [
    | inl hit ↦ rw hit (All-delete_many P q xs h)
    | inr miss ↦ rw miss (b, All-delete_many P q xs h)
  ]

  -- The rows that are left did not match.
  pub delete_many-All {κ} :
      (P : A → Type κ) (q : A → Bool) (xs : List A)
      → All P xs
      → All (λ x. P x × (q x ≡ false)) (delete_many q xs)
  unfolding delete_many
  delete_many-All P q [] h = tt
  delete_many-All P q (x ∷ xs) (b, h) = elim (Bool-cases (q x)) [
    | inl hit ↦ rw hit (delete_many-All P q xs h)
    | inr miss ↦ rw miss ((b, miss), delete_many-All P q xs h)
  ]

  -- A row that no test matched is appended, and deleted again by the test.
  pub delete_many-append :
      (p : A → Bool) (xs : List A) (x : A)
      → find_first p xs ≡ none
      → p x ≡ true
      → delete_many p (xs ++ x ∷ []) ≡ xs
  unfolding find_first delete_many
  delete_many-append p [] x e h = rw h refl
  delete_many-append p (y ∷ xs) x e h = ground (arith, delete_many-append p xs x)

  -- Rows that the update puts out of the test's reach.
  pub find_first-deleted :
      (q p : A → Bool) (f : A → A) (xs : List A)
      → ((x : A) → q (updated p f x) ≡ false)
      → find_first q (update_many p f xs) ≡ none
  unfolding find_first update_many
  find_first-deleted q p f [] h = refl
  find_first-deleted q p f (x ∷ xs) h = ground (arith, h x, find_first-deleted q p f xs h)

  pub is_some-find_first-before :
      (q : A → Bool) (xs ys : List A)
      → is_some (find_first q xs) ≡ true
      → is_some (find_first q (xs ++ ys)) ≡ true
  unfolding find_first
  is_some-find_first-before q [] ys h = cc
  is_some-find_first-before q (x ∷ xs) ys h = ground (arith, is_some-find_first-before q xs ys)

  pub find_first-weaker :
      (p q : A → Bool) (xs : List A)
      → ((x : A) → p x ≡ true → q x ≡ true)
      → find_first q xs ≡ none
      → find_first p xs ≡ none
  unfolding find_first
  find_first-weaker p q [] h e = refl
  find_first-weaker p q (x ∷ xs) h e = ground (arith, h x, find_first-weaker p q xs h)

  -- The newest row, where no older one matches.
  pub find_first-last :
      (q : A → Bool) (xs : List A) (x : A)
      → find_first q xs ≡ none
      → q x ≡ true
      → find_first q (xs ++ x ∷ []) ≡ some x
  unfolding find_first
  find_first-last q [] x e h = rw h refl
  find_first-last q (y ∷ xs) x e h = ground (arith, find_first-last q xs x)

-- What a query does not see of the changes to other rows.
module _ {ℓ} {A : Type ℓ} (q : A → Bool) where
  pub find_many-update_many_other :
      (p : A → Bool) (f : A → A) (xs : List A)
      → ((x : A) → q (f x) ≡ q x)
      → ((x : A) → p x ≡ true → q x ≡ false)
      → find_many q (update_many p f xs) ≡ find_many q xs
  unfolding find_many update_many
  find_many-update_many_other p f [] h k = refl
  find_many-update_many_other p f (x ∷ xs) h k =
      ground (arith, h x, k x, find_many-update_many_other p f xs h k)

  pub find_many-delete_many_other :
      (r : A → Bool) (xs : List A)
      → ((x : A) → r x ≡ true → q x ≡ false)
      → find_many q (delete_many r xs) ≡ find_many q xs
  unfolding find_many delete_many
  find_many-delete_many_other r [] h = refl
  find_many-delete_many_other r (x ∷ xs) h = ground (arith, h x, find_many-delete_many_other r xs h)

  pub find_many-append_other :
      (xs : List A) (x : A) → q x ≡ false → find_many q (xs ++ x ∷ []) ≡ find_many q xs
  unfolding find_many
  find_many-append_other [] x h = rw h refl
  find_many-append_other (y ∷ xs) x h = ground (arith, find_many-append_other xs x h)

-- Every row is found by a test that it meets itself.
module _ {ℓ} {A : Type ℓ} (q : A → A → Bool) where
  found_before :
      (y : A) (ys xs : List A)
      → All (λ x. is_some (find_first (q x) ys) ≡ true) xs
      → All (λ x. is_some (find_first (q x) (y ∷ ys)) ≡ true) xs
  unfolding find_first
  found_before y ys [] h = tt
  found_before y ys (x ∷ xs) (b, h) = (ground arith, found_before y ys xs h)

  pub All-find_first :
      (xs : List A) → ((x : A) → q x x ≡ true) → All (λ x. is_some (find_first (q x) xs) ≡ true) xs
  unfolding find_first
  All-find_first [] self = tt
  All-find_first (x ∷ xs) self = (rw (self x) refl, found_before x xs xs (All-find_first xs self))
