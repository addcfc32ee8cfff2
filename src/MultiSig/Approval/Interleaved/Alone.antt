-- ===== src/MultiSig/Approval/Interleaved/Alone.antt =====
-- An approval that no other call interrupts.
use scout_off_backend.Prelude.{ℕ, zero, suc, ◌≡◌, refl, String, List}
use scout_off_backend.MultiSig.Table.{Db}
use scout_off_backend.MultiSig.Execution.{Services, Effect}
use scout_off_backend.MultiSig.Approval.{Outcome, Run, Clock}
use scout_off_backend.MultiSig.Approval.Interleaved.{Phase, ended, advance}

abbrev pub as_ended : Run → Db × Phase
as_ended r = (r.db, ended r.effects r.outcome)

module _ (sv : Services) (admins : List String) (clock : Clock) (id signer : String) where
  unfoldable pub alone : ℕ → Phase → Db → Db × Phase
  unfolding advance
  alone zero p db = (db, p)
  alone (suc n) p db = let step = advance sv admins clock id signer p db in alone n step.1 step.0

  alone-ended :
      (n : ℕ) (effects : List Effect) (outcome : Outcome) (db : Db)
      → alone n (ended effects outcome) db ≡ (db, ended effects outcome)
  unfolding alone advance
  alone-ended zero effects outcome db = refl
  alone-ended (suc n) effects outcome db = alone-ended n effects outcome db
