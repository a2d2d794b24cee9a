-- ===== src/Errors/Scrub.antt =====
-- src/common/sentry/sentry-scrub.ts: the headers that no report carries.
use estate_server.Base.{
  All, Bool, Bool-cases, Key, List, Option, [], false, if◌then◌else◌, inl, inr, none, refl, some,
  ◌==◌, ◌||◌, ◌∷◌, ◌≡◌, ◌⊎◌,
}

-- A header of a request: its name and its value. `lower` is `toLowerCase`.
pub record Header : Type 0 where
  pub name : Key
  pub value : Key

-- SENSITIVE_HEADERS and the value that stands in for theirs, '***'.
abbrev pub authorization : Key
authorization = 1

abbrev pub cookie : Key
cookie = 2

abbrev pub stars : Key
stars = 3

module _ (lower : Key → Key) where
  abbrev pub is_sensitive : Header → Bool
  is_sensitive h = lower h.name == authorization || lower h.name == cookie

  -- `scrubEvent`, of the headers of the event; `none` where it has none.
  unfoldable pub scrub : List Header → List Header
  scrub [] = []
  scrub (h ∷ hs) = (if is_sensitive h then record h { value = stars } else h) ∷ scrub hs

  unfoldable pub scrub_event : Option (List Header) → Option (List Header)
  unfolding scrub
  scrub_event none = none
  scrub_event (some hs) = some (scrub hs)

  -- After the scrub every header is harmless by its name, or has lost its value.
  pub scrub-IsClean :
      (hs : List Header) → All (λ h. (is_sensitive h ≡ false) ⊎ (h.value ≡ stars)) (scrub hs)
  unfolding scrub
  scrub-IsClean [] = tt
  scrub-IsClean (h ∷ hs) = elim (Bool-cases (is_sensitive h)) [
    | inl hit ↦ rw hit (inr refl, scrub-IsClean hs)
    | inr miss ↦ rw miss (inl miss, scrub-IsClean hs)
  ]
