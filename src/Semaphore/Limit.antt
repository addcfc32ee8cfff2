-- ===== src/Semaphore/Limit.antt =====
-- `withConcurrencyLimit`: every task acquires, in the order of the array, before any of them runs;
-- then the running tasks settle in an order that the environment chooses. `results[index] = …` is
-- the list of the assignments made; what a task settles with, fulfilled or rejected, is `task`.
use scout_off_backend.Prelude.{
  ℕ, ◌+◌, ◌<◌, ◌≡◌, ◌≢◌, refl, List, [], ◌∷◌, ◌++◌, Option, none, some, arith, ◌-ℤ◌, ◌==◌,
  if◌then◌else◌, pos_part, neg_part, length,
}
use scout_off_backend.Semaphore.{Semaphore, new_semaphore, acquire, release}

abbrev pub count : ℕ → List ℕ → ℕ
count j [] = 0
count j (i ∷ is) = (if i == j then 1 else 0) + count j is

-- Without the first `i`.
abbrev pub remove : ℕ → List ℕ → List ℕ
remove i [] = []
remove i (j ∷ js) = if j == i then js else j ∷ remove i js

abbrev pub indices : {R : Type 0} → List (ℕ × R) → List ℕ
indices [] = []
indices ((i, r) ∷ rs) = i ∷ indices rs

pub record Batch (R : Type 0) : Type 0 where
  pub sem : Semaphore
  pub active : List ℕ
  pub results : List (ℕ × R)

abbrev resume : Option ℕ → List ℕ → List ℕ
resume none active = active
resume (some next) active = next ∷ active

module _ {R : Type 0} where
  abbrev pub fresh : ℕ → Batch R
  fresh max_concurrent = record { sem = new_semaphore max_concurrent; active = []; results = [] }

  unfoldable pub launch : ℕ → Batch R → Batch R
  unfolding acquire
  launch index b =
      let (sem, granted) = acquire index b.sem in
      record b { sem = sem; active = (if granted then index ∷ b.active else b.active) }

  unfoldable pub launch_all : List ℕ → Batch R → Batch R
  unfolding launch
  launch_all [] b = b
  launch_all (index ∷ rest) b = launch_all rest (launch index b)

  -- Task `index` settles: its result is stored, its permit is released, and a waiter resumes.
  unfoldable pub settle : (ℕ → R) → ℕ → Batch R → Batch R
  unfolding release
  settle task index b =
      let (sem, woken) = release b.sem in
      record b {
        sem = sem;
        active = resume woken (remove index b.active);
        results = (index, task index) ∷ b.results;
      }

module _ {R : Type 0} (task : ℕ → R) where
  pub data Runs (b : Batch R) : Batch R → Type 0 where
    here : Runs b b
    next :
        {c : Batch R} (index : ℕ)
        → Runs b c
        → 0 < count index c.active
        → Runs b (settle task index c)

  -- Each task settled, running or queued once; nobody queues while nobody runs.
  pub record IsFair (tasks : List ℕ) (b : Batch R) : Type 0 where
    pub once :
        (j : ℕ)
        → count j (indices b.results) + count j b.active + count j b.sem.wait_queue ≡ count j tasks
    pub busy : b.sem.wait_queue ≢ [] → 0 < length b.active

count-append :
    (j i : ℕ) (is : List ℕ) → count j (is ++ i ∷ []) ≡ count j is + (if i == j then 1 else 0)
count-append j i [] = omega arith
count-append j i (k ∷ is) = omega (arith, count-append j i is)

count-remove :
    (j i : ℕ) (is : List ℕ)
    → 0 < count i is
    → count j (remove i is) + (if i == j then 1 else 0) ≡ count j is
count-remove j i [] h = absurd (omega arith)
count-remove j i (k ∷ is) h = ground (arith, count-remove j i is)

length_pos : (j : ℕ) (is : List ℕ) → 0 < count j is → 0 < length is
length_pos j [] h = absurd (omega arith)
length_pos j (i ∷ is) h = omega arith

module _ {R : Type 0} where
  record IsLaunching (max : ℕ) (tasks rest : List ℕ) (b : Batch R) : Type 0 where
    unsettled : b.results ≡ []
    held : pos_part b.sem.permits + length b.active ≡ max
    free : neg_part b.sem.permits ≡ 0
    placed : (j : ℕ) → count j b.active + count j b.sem.wait_queue + count j rest ≡ count j tasks
    full : b.sem.wait_queue ≢ [] → 0 < length b.active

  fresh-IsLaunching : (max : ℕ) (tasks : List ℕ) → IsLaunching max tasks tasks (fresh max)
  fresh-IsLaunching max tasks = record {
    unsettled = refl;
    held = omega arith;
    free = refl;
    placed = λ j. omega arith;
    full = λ q. absurd (q refl);
  }

  launch-placed :
      (j i : ℕ) (b : Batch R)
      → count j (launch i b).active + count j (launch i b).sem.wait_queue
        ≡ (if i == j then 1 else 0) + count j b.active + count j b.sem.wait_queue
  unfolding launch
  launch-placed j i b = ground (arith, count-append j i b.sem.wait_queue)

  launch-IsLaunching :
      {max : ℕ} {tasks rest : List ℕ} (i : ℕ) (b : Batch R)
      → 0 < max
      → IsLaunching max tasks (i ∷ rest) b
      → IsLaunching max tasks rest (launch i b)
  unfolding launch ◌-ℤ◌
  launch-IsLaunching {max} {tasks} {rest} i b m h = record {
    unsettled = ground arith;
    held = ground arith;
    free = ground arith;
    placed = λ j. omega (arith, launch-placed j i b, h.placed j);
    full = ground arith;
  }

  launch_all-IsLaunching :
      {max : ℕ} {tasks : List ℕ} (rest : List ℕ) (b : Batch R)
      → 0 < max
      → IsLaunching max tasks rest b
      → IsLaunching max tasks [] (launch_all rest b)
  unfolding launch_all
  launch_all-IsLaunching [] b m h = h
  launch_all-IsLaunching (i ∷ rest) b m h =
      launch_all-IsLaunching rest (launch i b) m (launch-IsLaunching i b m h)

module _ {R : Type 0} (task : ℕ → R) where
  settle-IsFair :
      {tasks : List ℕ} (i : ℕ) (b : Batch R)
      → 0 < count i b.active
      → IsFair task tasks b
      → IsFair task tasks (settle task i b)
  unfolding settle
  settle-IsFair {tasks} i b a h = record {
    once = λ j. ground (arith, count-remove j i b.active, h.once j);
    busy = ground (arith, length_pos i b.active);
  }

  Runs-IsFair :
      {tasks : List ℕ} {b c : Batch R} → Runs task b c → IsFair task tasks b → IsFair task tasks c
  Runs-IsFair here h = h
  Runs-IsFair (next i r a) h = settle-IsFair i _ a (Runs-IsFair r h)

  launched-IsFair :
      (max : ℕ) (tasks : List ℕ) → 0 < max → IsFair task tasks (launch_all tasks (fresh max))
  launched-IsFair max tasks m =
      let h : IsLaunching max tasks [] (launch_all {R = R} tasks (fresh max)) =
        launch_all-IsLaunching tasks (fresh max) m (fresh-IsLaunching max tasks) in
      record { once = λ j. rw h.unsettled (omega (arith, h.placed j)); busy = h.full }

  -- With a positive limit, when the tasks that got a permit settle one by one in any order and none
  -- is running any more, every task has settled exactly as often as it was listed and nobody waits.
  pub Runs-settles_all :
      (max : ℕ) (tasks : List ℕ) {b : Batch R}
      → 0 < max
      → Runs task (launch_all tasks (fresh max)) b
      → b.active ≡ []
      → (j : ℕ) → (count j (indices b.results) ≡ count j tasks) × (b.sem.wait_queue ≡ [])
  Runs-settles_all max tasks {b} m r e j =
      let h = Runs-IsFair r (launched-IsFair max tasks m) in ground (arith, h.once j, h.busy)
