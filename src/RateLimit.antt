-- ===== src/RateLimit.antt =====
-- `InMemoryRateLimitStore` of src/middleware/inMemoryRateLimitStore.ts, a `Map` from keys to windows
-- as an association list. `Date.now()` is the argument `now`.
pub mod Window
pub mod Lockout
mod Examples
use scout_off_backend.Prelude.{
  ℕ, ◌+◌, String, Option, none, some, List, [], ◌∷◌, leb, str_eq, if◌then◌else◌,
}

pub record Entry : Type 0 where
  pub count : ℕ
  pub reset_at : ℕ

abbrev pub Hits : Type 0
Hits = List (String × Entry)

unfoldable pub get : String → Hits → Option Entry
get key [] = none
get key ((k, e) ∷ hits) = if str_eq k key then some e else get key hits

unfoldable pub set : String → Entry → Hits → Hits
set key e [] = (key, e) ∷ []
set key e ((k, old) ∷ hits) = if str_eq k key then (k, e) ∷ hits else (k, old) ∷ set key e hits

-- The entry that `increment` stores and returns.
unfoldable pub bump : ℕ → ℕ → Option Entry → Entry
bump now window_ms none = record { count = 1; reset_at = now + window_ms }
bump now window_ms (some e) =
    if leb e.reset_at now
    then record { count = 1; reset_at = now + window_ms }
    else record e { count = e.count + 1 }

unfoldable pub increment : ℕ → String → ℕ → Hits → Hits × Entry
unfolding bump
increment now key window_ms hits = let e = bump now window_ms (get key hits) in (set key e hits, e)
