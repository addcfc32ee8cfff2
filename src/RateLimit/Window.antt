-- ===== src/RateLimit/Window.antt =====
-- What the store counts: the hits of a key within its window.
use scout_off_backend.Prelude.{
  ℕ, eq_refl, ◌+◌, ◌≤◌, ◌<◌, ◌≡◌, refl, String, Option, none, some, List, [], ◌∷◌, length, str_eq,
  eq_iff, arith, if◌then◌else◌,
}
use scout_off_backend.RateLimit.{Entry, Hits, get, set, bump, increment}

pub get-set :
    (j k : String) (e : Entry) (hits : Hits)
    → get j (set k e hits) ≡ (if str_eq k j then some e else get j hits)
unfolding get set
get-set j k e [] = refl
get-set j k e ((i, old) ∷ hits) =
    ground (arith, eq_iff k j, eq_iff i k, eq_iff i j, get-set j k e hits)

-- One `increment` of a key returns the entry that the key then has, and leaves the others alone.
pub get-increment :
    (now window : ℕ) (j k : String) (hits : Hits)
    → get j (increment now k window hits).0
      ≡ (if str_eq k j then some (bump now window (get k hits)) else get j hits)
unfolding increment
get-increment now window j k hits = get-set j k (bump now window (get k hits)) hits

pub increment-entry :
    (now window : ℕ) (k : String) (hits : Hits)
    → (increment now k window hits).1 ≡ bump now window (get k hits)
unfolding increment
increment-entry now window k hits = refl

-- The entry of a key whose window is open gains a hit; one that is absent or over starts again.
pub get-increment_open :
    (now window : ℕ) (k : String) (hits : Hits) (e : Entry)
    → get k hits ≡ some e
    → now < e.reset_at
    → get k (increment now k window hits).0 ≡ some (record e { count = e.count + 1 })
unfolding bump
get-increment_open now window k hits e g h =
    ground (arith, get-increment now window k k hits, eq_refl k)

abbrev pub IsOver : ℕ → Option Entry → Type 0
IsOver now none = Unit {0}
IsOver now (some e) = e.reset_at ≤ now

pub get-increment_over :
    (now window : ℕ) (k : String) (hits : Hits)
    → IsOver now (get k hits)
    → get k (increment now k window hits).0 ≡ some (record { count = 1; reset_at = now + window })
unfolding bump
get-increment_over now window k hits h =
    ground (arith, get-increment now window k k hits, eq_refl k)

-- Hits of one key at these times.
unfoldable pub hit_all : List ℕ → String → ℕ → Hits → Hits
hit_all [] key window hits = hits
hit_all (now ∷ times) key window hits = hit_all times key window (increment now key window hits).0

abbrev pub AllBelow : ℕ → List ℕ → Type 0
AllBelow bound [] = Unit
AllBelow bound (t ∷ ts) = (t < bound) × AllBelow bound ts

hit_all-counts :
    (times : List ℕ) (key : String) (window : ℕ) (hits : Hits) (e : Entry)
    → get key hits ≡ some e
    → AllBelow e.reset_at times
    → get key (hit_all times key window hits)
      ≡ some (record { count = e.count + length times; reset_at = e.reset_at })
unfolding hit_all
hit_all-counts [] key window hits e g h = ground arith
hit_all-counts (now ∷ times) key window hits e g (h, hs) =
    let e' : Entry = record { count = e.count + 1; reset_at = e.reset_at } in
    let ih =
      hit_all-counts times key window (increment now key window hits).0 e'
        (get-increment_open now window key hits e g h) hs in
    ground (arith, ih)

-- If a key has no window or an expired one, then after a hit at `now` and any further hits before
-- `now` plus the window, its entry counts exactly these hits and ends at `now` plus the window.
pub hit_all-window :
    (now : ℕ) (times : List ℕ) (key : String) (window : ℕ) (hits : Hits)
    → IsOver now (get key hits)
    → AllBelow (now + window) times
    → get key (hit_all (now ∷ times) key window hits)
      ≡ some (record { count = length (now ∷ times); reset_at = now + window })
unfolding hit_all
hit_all-window now times key window hits h hs =
    let e : Entry = record { count = 1; reset_at = now + window } in
    let counted =
      hit_all-counts times key window (increment now key window hits).0 e
        (get-increment_over now window key hits h) hs in
    ground (arith, counted)
