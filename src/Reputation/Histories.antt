-- ===== src/Reputation/Histories.antt =====
-- Scores and pins in every history of a store.
use scout_off_backend.Prelude.{
  ℕ, ◌+◌, ◌-◌, ◌*◌, ◌/◌, ◌≡◌, ◌≤◌, ◌<◌, refl, sym, ap, ◌∙◌, String, Bool, true, false, not, ◌&&◌,
  eq_iff, Option, none, some, List, [], ◌∷◌, str_eq, arith, Bool-cases, inl, inr,
}
use native.Mathlib.Nat.{div-lt_iff_lt-mul, mul-le-mul_left, add-mul, mul_left_comm}
use scout_off_backend.Reputation.{
  IpReputation, Store, or_new, get_score, with_points, add_points, decay, decayed, apply_decay,
  ticked, tick, set_ip_score, score_of,
}

pub data Op : Type 0 where
  points : ℕ → String → ℕ → Op
  decay_by : String → ℕ → Op
  timer : ℕ → Op
  score : ℕ → String → ℕ → Bool → Op

with_points-bounded :
    (now n : ℕ) (o : Option IpReputation)
    → score_of o ≤ 100
    → (with_points now n (or_new now o)).score ≤ 100
with_points-bounded now n none h = omega arith
with_points-bounded now n (some rep) h = ground (arith, h)

-- The statement sets the score of the address.
abbrev pub sets : String → Op → Bool
sets k (points now ip n) = false
sets k (decay_by ip ms) = false
sets k (timer now) = false
sets k (score now ip n pinned) = str_eq k ip

unfoldable pub never_sets : String → List Op → Bool
never_sets k [] = true
never_sets k (op ∷ ops) = not (sets k op) && never_sets k ops

-- Math.round of at most the score.
decay-le :
    (one : ℕ) (power : ℕ → ℕ) (n ms : ℕ) → 0 < one → power ms ≤ one → decay one power n ms ≤ n
unfolding decay
decay-le one power n ms some_units falls =
    let less : n * power ms ≤ n * one = mul-le-mul_left n falls in
    let below : 2 * (n * power ms) + one < (n + 1) * (2 * one) =
      omega (arith, less, add-mul n 1 (2 * one), mul_left_comm n 2 one, some_units) in
    let quotient : (2 * (n * power ms) + one) / (2 * one) < n + 1 =
      (div-lt_iff_lt-mul {k = 2 * one} {x = 2 * (n * power ms) + one} {y = n + 1}
          (omega (arith, some_units))).1
        below in
    omega (arith, quotient)

module _ (one : ℕ) (power : ℕ → ℕ) where
  unfoldable pub run : Op → Store → Store
  unfolding add_points apply_decay set_ip_score
  run (points now ip n) s = add_points now ip n s
  run (decay_by ip ms) s = apply_decay one power ip ms s
  run (timer now) s = tick one power now s
  run (score now ip n pinned) s = set_ip_score now ip n pinned s

  unfoldable pub run_all : List Op → Store → Store
  unfolding run
  run_all [] s = s
  run_all (op ∷ ops) s = run_all ops (run op s)

  module _ (some_units : 0 < one) (falls : (ms : ℕ) → power ms ≤ one) where
    decayed-bounded :
        (ms : ℕ) (o : Option IpReputation)
        → score_of o ≤ 100
        → score_of (decayed one power ms o) ≤ 100
    decayed-bounded ms none h = h
    decayed-bounded ms (some rep) h =
        ground (arith, h, decay-le one power rep.score ms some_units (falls ms))

    ticked-bounded :
        (now : ℕ) (o : Option IpReputation)
        → score_of o ≤ 100
        → score_of (ticked one power now o) ≤ 100
    ticked-bounded now none h = h
    ticked-bounded now (some rep) h = ground (
      arith,
      h,
      decay-le one power rep.score (now - rep.last_seen) some_units (falls (now - rep.last_seen)),
    )

    run-bounded :
        (op : Op) (s : Store)
        → ((ip : String) → get_score ip s ≤ 100)
        → (ip : String) → get_score ip (run op s) ≤ 100
    unfolding run add_points apply_decay set_ip_score
    run-bounded (points now ip n) s h k = elim (Bool-cases (str_eq k ip)) [
      | inl here ↦ rw here (with_points-bounded now n (s ip) (h ip))
      | inr other ↦ rw other (h k)
    ]
    run-bounded (decay_by ip ms) s h k = elim (Bool-cases (str_eq k ip)) [
      | inl here ↦ rw here (decayed-bounded ms (s ip) (h ip))
      | inr other ↦ rw other (h k)
    ]
    run-bounded (timer now) s h k = ticked-bounded now (s k) (h k)
    run-bounded (score now ip n pinned) s h k = elim (Bool-cases (str_eq k ip)) [
      | inl here ↦ rw here (omega arith)
      | inr other ↦ rw other (h k)
    ]

    -- If the powers of the decay are at most 1, then in every history of a store whose scores are at
    -- most 100 the scores are at most 100.
    pub histories-bounded :
        (ops : List Op) (s : Store)
        → ((ip : String) → get_score ip s ≤ 100)
        → (ip : String) → get_score ip (run_all ops s) ≤ 100
    unfolding run_all
    histories-bounded [] s h ip = h ip
    histories-bounded (op ∷ ops) s h ip = histories-bounded ops (run op s) (run-bounded op s h) ip

  run-pinned :
      (op : Op) (s : Store) (k : String) (rep : IpReputation)
      → s k ≡ some rep
      → rep.pinned ≡ true
      → sets k op ≡ false
      → run op s k ≡ some rep
  unfolding run add_points apply_decay set_ip_score
  run-pinned (points now ip n) s k rep known pin free = elim (Bool-cases (str_eq k ip)) [
    | inl here ↦
        let at : s ip ≡ some rep = ap s (sym ((eq_iff k ip).0 here)) ∙ known in
        rw (here, at) (rw pin refl)
    | inr other ↦ rw other known
  ]
  run-pinned (decay_by ip ms) s k rep known pin free = elim (Bool-cases (str_eq k ip)) [
    | inl here ↦
        let at : s ip ≡ some rep = ap s (sym ((eq_iff k ip).0 here)) ∙ known in
        rw (here, at) (rw pin refl)
    | inr other ↦ rw other known
  ]
  run-pinned (timer now) s k rep known pin free = rw known (rw pin refl)
  run-pinned (score now ip n pinned) s k rep known pin free = rw free known

  -- The entry of an address that is pinned stays as it is in every history in which its score is not
  -- set.
  pub histories-pinned :
      (ops : List Op) (s : Store) (ip : String) (rep : IpReputation)
      → s ip ≡ some rep
      → rep.pinned ≡ true
      → never_sets ip ops ≡ true
      → run_all ops s ip ≡ some rep
  unfolding run_all never_sets
  histories-pinned [] s ip rep known pin free = known
  histories-pinned (op ∷ ops) s ip rep known pin free =
      let here : sets ip op ≡ false = ground (arith, free) in
      let there : never_sets ip ops ≡ true = ground (arith, free) in
      histories-pinned ops (run op s) ip rep (run-pinned op s ip rep known pin here) pin there
