-- ===== src/Base/Counts.antt =====
-- How many rows of a table match, before and after the queries of `Table`.
use Prim.Native.Nat.{ℕ, zero, suc, ◌+◌, ◌≤◌}
use mathlib.Core.Path.{◌≡◌, refl}
use mathlib.Core.Logic.{inl, inr}
use mathlib.Core.Bool.{Bool, true, false, not, ◌&&◌}
use mathlib.Core.Option.{none, some}
use mathlib.Core.List.{List, [], ◌∷◌, ◌++◌}
use native.Mathlib.Omega.{arith}
use estate_server.Base.Tests.{Bool-cases, ◌==◌, ==_refl, ==_iff}
use estate_server.Base.Lists.{All, All-map, take}
use estate_server.Base.Table.{find_first, find_many, count_where, update_many, delete_many, updated}

module _ {ℓ} {A : Type ℓ} where
  pub count_where-append :
      (p : A → Bool) (xs ys : List A)
      → count_where p (xs ++ ys) ≡ count_where p xs + count_where p ys
  unfolding count_where
  count_where-append p [] ys = omega arith
  count_where-append p (x ∷ xs) ys = ground (arith, count_where-append p xs ys)

  -- The rows that match are the same, or fewer, if the test is the same, or stronger.
  pub count_where_mono :
      (p q : A → Bool) (xs : List A)
      → ((x : A) → p x ≡ true → q x ≡ true)
      → count_where p xs ≤ count_where q xs
  unfolding count_where
  count_where_mono p q [] h = omega arith
  count_where_mono p q (x ∷ xs) h = ground (arith, h x, count_where_mono p q xs h)

  pub count_where-update_many :
      (q q' p : A → Bool) (f : A → A) (xs : List A)
      → ((x : A) → q (updated p f x) ≡ q' x)
      → count_where q (update_many p f xs) ≡ count_where q' xs
  unfolding count_where update_many
  count_where-update_many q q' p f [] h = refl
  count_where-update_many q q' p f (x ∷ xs) h =
      ground (arith, h x, count_where-update_many q q' p f xs h)

  pub find_first-none-count :
      (p : A → Bool) (xs : List A) → find_first p xs ≡ none → count_where p xs ≡ 0
  unfolding find_first count_where
  find_first-none-count p [] e = refl
  find_first-none-count p (x ∷ xs) e = ground (arith, find_first-none-count p xs)

  pub count-pos_of_find_first :
      (p : A → Bool) (xs : List A) {a : A} → find_first p xs ≡ some a → 1 ≤ count_where p xs
  unfolding find_first count_where
  count-pos_of_find_first p [] e = cc
  count-pos_of_find_first p (x ∷ xs) {a} e = ground (arith, count-pos_of_find_first p xs {a = a})

  pub count_where-find_many :
      (p q : A → Bool) (xs : List A) → count_where p (find_many q xs) ≤ count_where p xs
  unfolding find_many count_where
  count_where-find_many p q [] = omega arith
  count_where-find_many p q (x ∷ xs) = ground (arith, count_where-find_many p q xs)

  pub count-pos_of_found :
      (p q : A → Bool) (xs : List A) {a : A}
      → find_first p xs ≡ some a
      → q a ≡ true
      → 1 ≤ count_where q xs
  unfolding find_first count_where
  count-pos_of_found p q [] e h = cc
  count-pos_of_found p q (x ∷ xs) {a} e h = elim (Bool-cases (p x)) [
    | inl here ↦
        let same : x ≡ a = ground arith in let hit : q x ≡ true = rw same h in ground (arith, hit)
    | inr later ↦ let more = count-pos_of_found p q xs (rw later at e) h in ground (arith, more)
  ]

  -- The rows that pass `q`, by whether they pass `p` too.
  pub count_where-split :
      (p q : A → Bool) (xs : List A)
      → count_where q xs ≡ count_where (λ x. q x && p x) xs + count_where (λ x. q x && not (p x)) xs
  unfolding count_where
  count_where-split p q [] = omega arith
  count_where-split p q (x ∷ xs) = ground (arith, count_where-split p q xs)

  pub count_where_mono_All {κ} :
      (P : A → Type κ) (p q : A → Bool) (xs : List A)
      → ((x : A) → P x → p x ≡ true → q x ≡ true)
      → All P xs
      → count_where p xs ≤ count_where q xs
  unfolding count_where
  count_where_mono_All P p q [] h a = omega arith
  count_where_mono_All P p q (x ∷ xs) h (b, a) =
      let here = h x b in let rest = count_where_mono_All P p q xs h a in ground (arith, here, rest)

  pub count-zero_of_All {κ} :
      (P : A → Type κ) (p : A → Bool) (xs : List A)
      → ((x : A) → P x → p x ≡ false)
      → All P xs
      → count_where p xs ≡ 0
  unfolding count_where
  count-zero_of_All P p [] h a = refl
  count-zero_of_All P p (x ∷ xs) h (b, a) =
      let here = h x b in let rest = count-zero_of_All P p xs h a in ground (arith, here, rest)

  pub count-zero-All :
      (p : A → Bool) (xs : List A) → count_where p xs ≡ 0 → All (λ x. p x ≡ false) xs
  unfolding count_where
  count-zero-All p [] h = tt
  count-zero-All p (x ∷ xs) h = (ground arith, count-zero-All p xs (ground arith))

  pub count_where-update_many_le :
      (q p : A → Bool) (f : A → A) (xs : List A)
      → ((x : A) → q (f x) ≡ true → q x ≡ true)
      → count_where q (update_many p f xs) ≤ count_where q xs
  unfolding count_where update_many
  count_where-update_many_le q p f [] h = omega arith
  count_where-update_many_le q p f (x ∷ xs) h =
      ground (arith, h x, count_where-update_many_le q p f xs h)

  pub unique_row :
      (key : A → ℕ) (p : A → Bool) (xs : List A) (a : A)
      → find_first p xs ≡ some a
      → count_where (λ x. key x == key a) xs ≤ 1
      → All (λ x. key x ≡ key a → x ≡ a) xs
  unfolding find_first count_where
  unique_row key p [] a e h = cc
  unique_row key p (x ∷ xs) a e h = elim (Bool-cases (p x)) [
    | inl here ↦
        let same : x ≡ a = ground arith in
        let hit : (key x == key a) ≡ true = rw same (==_refl (key a)) in
        let rest : count_where (λ y. key y == key a) xs ≡ 0 = ground arith in
        (
          λ k. same,
          All-map _ _ xs (λ y miss k. absurd (ground arith))
              (count-zero-All (λ y. key y == key a) xs rest),
        )
    | inr later ↦
        let found : find_first p xs ≡ some a = rw later at e in
        let more = count-pos_of_found p (λ y. key y == key a) xs found (==_refl (key a)) in
        (
          λ k.
              absurd
                (let hit : (key x == key a) ≡ true = (==_iff (key x) (key a)).1 k in ground arith),
          unique_row key p xs a found (ground arith),
        )
  ]

  -- The one row that meets a test is what a search by the test finds.
  pub find_first_unique :
      (p q : A → Bool) (xs : List A) {a : A}
      → find_first p xs ≡ some a
      → q a ≡ true
      → All (λ x. q x ≡ true → x ≡ a) xs
      → find_first q xs ≡ some a
  unfolding find_first
  find_first_unique p q [] e h k = cc
  find_first_unique p q (x ∷ xs) {a} e h (k, ks) = elim (Bool-cases (q x)) [
    | inl hit ↦ rw (hit, k hit) refl
    | inr miss ↦ elim (Bool-cases (p x)) [
      | inl here ↦
          let same : x ≡ a = ground arith in let clash : q x ≡ true = rw same h in ground arith
      | inr there ↦ let ih = find_first_unique p q xs (ground arith) h ks in rw miss ih
    ]
  ]

  pub count_where-take :
      (p : A → Bool) (n : ℕ) (xs : List A) → count_where p (take n xs) ≤ count_where p xs
  unfolding count_where
  count_where-take p zero xs = omega arith
  count_where-take p (suc n) [] = omega arith
  count_where-take p (suc n) (x ∷ xs) = ground (arith, count_where-take p n xs)

  -- Of the rows that pass `q`, those that pass the stronger `r` are deleted.
  pub count_where-delete_many :
      (q r : A → Bool) (xs : List A)
      → ((x : A) → r x ≡ true → q x ≡ true)
      → count_where q (delete_many r xs) + count_where r xs ≡ count_where q xs
  unfolding count_where delete_many
  count_where-delete_many q r [] h = refl
  count_where-delete_many q r (x ∷ xs) h = ground (arith, h x, count_where-delete_many q r xs h)

  pub count_where-delete_many_other :
      (q r : A → Bool) (xs : List A)
      → ((x : A) → r x ≡ true → q x ≡ false)
      → count_where q (delete_many r xs) ≡ count_where q xs
  unfolding count_where delete_many
  count_where-delete_many_other q r [] h = refl
  count_where-delete_many_other q r (x ∷ xs) h =
      ground (arith, h x, count_where-delete_many_other q r xs h)

  pub delete_many-none : (p : A → Bool) (xs : List A) → count_where p xs ≡ 0 → delete_many p xs ≡ xs
  unfolding count_where delete_many
  delete_many-none p [] e = refl
  delete_many-none p (x ∷ xs) e = ground (arith, delete_many-none p xs)

  pub update_many-none :
      (p : A → Bool) (f : A → A) (xs : List A) → count_where p xs ≡ 0 → update_many p f xs ≡ xs
  unfolding count_where update_many
  update_many-none p f [] e = refl
  update_many-none p f (x ∷ xs) e = ground (arith, update_many-none p f xs)

  -- An update after which no row matches its test any more.
  pub count_where-update_many_self :
      (p : A → Bool) (f : A → A) (xs : List A)
      → ((x : A) → p (f x) ≡ false)
      → count_where p (update_many p f xs) ≡ 0
  unfolding count_where update_many
  count_where-update_many_self p f [] h = refl
  count_where-update_many_self p f (x ∷ xs) h =
      ground (arith, h x, count_where-update_many_self p f xs h)
