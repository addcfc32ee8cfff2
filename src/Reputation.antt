-- ===== src/Reputation.antt =====
-- The reputation of IP addresses: src/services/ipReputation.ts. The store is a function from
-- addresses, each entry apart from the others. `power ms` is `Math.pow(1 - DECAY_RATE, ms / HOUR_MS)`
-- and `one` the number 1, both in units of the least positive double. The product with a score is
-- exact here.
pub mod Histories
mod Examples
use scout_off_backend.Prelude.{
  ℕ, ◌+◌, ◌-◌, ◌*◌, ◌/◌, min, String, Bool, false, Option, none, some, ◌==◌, leb, str_eq,
  if◌then◌else◌,
}

abbrev pub hour_ms : ℕ
hour_ms = 3600000

pub record IpReputation : Type 0 where
  pub score : ℕ
  pub last_seen : ℕ
  pub pinned_at : Option ℕ
  pub pinned : Bool

abbrev pub Store : Type 0
Store = String → Option IpReputation

pub data ReputationTier : Type 0 where
  normal degraded restricted blocked : ReputationTier

abbrev pub put : String → Option IpReputation → Store → Store
put ip rep s k = if str_eq k ip then rep else s k

abbrev pub or_new : ℕ → Option IpReputation → IpReputation
or_new now none = record { score = 0; last_seen = now; pinned_at = none; pinned = false }
or_new now (some rep) = rep

-- `getOrCreate`
abbrev pub get_or_create : ℕ → String → Store → IpReputation
get_or_create now ip s = or_new now (s ip)

abbrev pub score_of : Option IpReputation → ℕ
score_of none = 0
score_of (some rep) = rep.score

abbrev pub get_score : String → Store → ℕ
get_score ip s = score_of (s ip)

abbrev pub get_tier : ℕ → ReputationTier
get_tier score =
    if leb 90 score
    then blocked
    else if leb 75 score
    then restricted
    else if leb 50 score
    then degraded
    else normal

abbrev pub with_points : ℕ → ℕ → IpReputation → IpReputation
with_points now points rep =
    if rep.pinned then rep else record rep { score = min 100 (rep.score + points); last_seen = now }

unfoldable pub add_points : ℕ → String → ℕ → Store → Store
add_points now ip points s = put ip (some (with_points now points (get_or_create now ip s))) s

abbrev pub unless_zero : IpReputation → Option IpReputation
unless_zero rep = if rep.score == 0 then none else some rep

-- `Math.max(0, Math.round(rep.score * decayFactor))`: the floor of the product and one half.
unfoldable pub decay : ℕ → (ℕ → ℕ) → ℕ → ℕ → ℕ
decay one power score ms = (2 * (score * power ms) + one) / (2 * one)

abbrev pub decayed : ℕ → (ℕ → ℕ) → ℕ → Option IpReputation → Option IpReputation
decayed one power ms none = none
decayed one power ms (some rep) =
    if rep.pinned
    then some rep
    else unless_zero (record rep { score = decay one power rep.score ms })

unfoldable pub apply_decay : ℕ → (ℕ → ℕ) → String → ℕ → Store → Store
apply_decay one power ip ms s = put ip (decayed one power ms (s ip)) s

-- What a run of the timer makes of an entry.
abbrev pub ticked : ℕ → (ℕ → ℕ) → ℕ → Option IpReputation → Option IpReputation
ticked one power now none = none
ticked one power now (some rep) =
    if rep.pinned
    then some rep
    else if leb hour_ms (now - rep.last_seen)
    then decayed one power (now - rep.last_seen) (some rep)
    else some rep

-- The callback of `startDecayTimer`
abbrev pub tick : ℕ → (ℕ → ℕ) → ℕ → Store → Store
tick one power now s ip = ticked one power now (s ip)

unfoldable pub set_ip_score : ℕ → String → ℕ → Bool → Store → Store
set_ip_score now ip score pinned s =
    put ip
      (some (record (get_or_create now ip s) {
        score = min 100 score;
        pinned = pinned;
        pinned_at = some now;
        last_seen = now;
      }))
      s
