-- ===== src/Base/Keys.antt =====
-- Lists of keys, and maps from keys as association lists whose first entry counts.
use mathlib.Core.Path.{◌≡◌, refl, ap}
use mathlib.Core.Logic.{inl, inr}
use mathlib.Core.Bool.{Bool, false, ◌&&◌, ◌||◌}
use mathlib.Core.Option.{Option, none, some}
use mathlib.Core.Option
use mathlib.Core.List.{List, [], ◌∷◌, ◌++◌}
use native.Mathlib.Omega.{arith}
use estate_server.Base.Tests.{Key, Bool-cases, if◌then◌else◌, ◌==◌, ==_iff}
use estate_server.Base.Table.{find_many}

unfoldable pub includes : Key → List Key → Bool
includes k [] = false
includes k (i ∷ is) = (i == k) || includes k is

pub includes-find_many :
    (k : Key) (q : Key → Bool) (is : List Key)
    → includes k (find_many q is) ≡ (includes k is && q k)
unfolding includes find_many
includes-find_many k q [] = refl
includes-find_many k q (i ∷ is) = elim (Bool-cases (i == k)) [
  | inl same ↦ let at = ap q ((==_iff i k).0 same) in ground (arith, at, includes-find_many k q is)
  | inr other ↦ ground (arith, includes-find_many k q is)
]

module _ {A : Type 0} where
  unfoldable pub lookup : Key → List (Key × A) → Option A
  lookup k [] = none
  lookup k ((i, a) ∷ m) = if i == k then some a else lookup k m

  -- `new Map(ids.map((id) => [id, f(id)]))`
  abbrev pub map_of : (Key → A) → List Key → List (Key × A)
  map_of f [] = []
  map_of f (i ∷ is) = (i, f i) ∷ map_of f is

  pub lookup-append :
      (k : Key) (m m' : List (Key × A))
      → lookup k (m ++ m') ≡ Option.or_else (lookup k m) (lookup k m')
  unfolding lookup Option.or_else
  lookup-append k [] m' = refl
  lookup-append k ((i, a) ∷ m) m' = ground (arith, lookup-append k m m')

  pub lookup-map_of :
      (k : Key) (f : Key → A) (is : List Key)
      → lookup k (map_of f is) ≡ (if includes k is then some (f k) else none)
  unfolding lookup includes
  lookup-map_of k f [] = refl
  lookup-map_of k f (i ∷ is) = elim (Bool-cases (i == k)) [
    | inl same ↦ let at = ap f ((==_iff i k).0 same) in ground (arith, at, lookup-map_of k f is)
    | inr other ↦ ground (arith, lookup-map_of k f is)
  ]

  -- The map of the keys that `f` has a value for.
  abbrev pub put : Key → Option A → List (Key × A) → List (Key × A)
  put k none m = m
  put k (some a) m = (k, a) ∷ m

  abbrev pub map_where : (Key → Option A) → List Key → List (Key × A)
  map_where f [] = []
  map_where f (i ∷ is) = put i (f i) (map_where f is)

  lookup-put :
      (k i : Key) (o : Option A) (m : List (Key × A))
      → lookup k (put i o m) ≡ (if i == k then Option.or_else o (lookup k m) else lookup k m)
  unfolding lookup Option.or_else
  lookup-put k i none m = ground arith
  lookup-put k i (some a) m = ground arith

  pub lookup-map_where :
      (k : Key) (f : Key → Option A) (is : List Key)
      → lookup k (map_where f is) ≡ (if includes k is then f k else none)
  unfolding lookup includes Option.or_else
  lookup-map_where k f [] = refl
  lookup-map_where k f (i ∷ is) = elim (Bool-cases (i == k)) [
    | inl same ↦
        let at = ap f ((==_iff i k).0 same) in
        ground (arith, at, lookup-put k i (f i) (map_where f is), lookup-map_where k f is)
    | inr other ↦ ground (arith, lookup-put k i (f i) (map_where f is), lookup-map_where k f is)
  ]
