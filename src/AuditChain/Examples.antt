-- ===== src/AuditChain/Examples.antt =====
-- Tests of the two verifiers, and their theorems at a log of two rows.
use scout_off_backend.Prelude.{◌≡◌, ◌↔◌, refl, String, Bool, true, Option, some, [], ◌∷◌, arith}
use scout_off_backend.AuditChain.{
  Content, AuditLogRow, AuditCheckpoint, verify_audit_chain, verify_audit_chain_full,
}
use scout_off_backend.AuditChain.Linked.{Continues, IsLinked, insert_all, insert_all-IsLinked}
use scout_off_backend.AuditChain.Legacy.{IsIntact, verify_audit_chain-valid_iff}
use scout_off_backend.AuditChain.Agreement.{Agrees, verify_audit_chain_full-Agrees}

-- A digest that keeps its argument, and a text that is the action alone.
abbrev keep : String → String
keep s = s

abbrev text : Content → String
text c = c.action

abbrev viewed : Content
viewed = record {
  action = "view";
  admin_wallet = "G1";
  query_params = "";
  created_at = "t";
  event_source = "db";
}

-- The first row that "view" gives after the hash "a".
abbrev first : AuditLogRow
first = record { id = 1; content = viewed; prev_hash = some "a"; hash = "viewa" }

-- A checkpoint before the first row, whose archive is there.
abbrev from_a : Option (Option AuditCheckpoint)
from_a = some (some (record { last_id = 0; last_hash = "a" }))

abbrev kept : AuditCheckpoint → Bool
kept c = true

-- A row whose hash was replaced.
abbrev forged : AuditLogRow
forged = record { id = 2; content = viewed; prev_hash = some "viewa"; hash = "evil" }

first-Continues : Continues keep text "a" first
first-Continues = record { prev_fits = refl; hash_fits = refl }

forged-not : ¬ Continues keep text "viewa" forged
forged-not c = cc c.hash_fits

insert_all-IsLinked_example :
    IsLinked keep text "a" (insert_all keep text (some "a") ((1, viewed) ∷ (2, viewed) ∷ []) [])
insert_all-IsLinked_example =
    insert_all-IsLinked keep text (some "a") ((1, viewed) ∷ (2, viewed) ∷ []) [] tt

verify_audit_chain-valid_iff_example :
    ((verify_audit_chain keep text kept from_a (first ∷ [])).valid ≡ true)
    ↔ IsIntact keep text kept from_a (first ∷ [])
verify_audit_chain-valid_iff_example =
    verify_audit_chain-valid_iff keep text kept from_a (first ∷ [])

verify_audit_chain_full-Agrees_example :
    Agrees
      (verify_audit_chain_full keep text (λ k. 0) 1 kept from_a (first ∷ forged ∷ []))
      (verify_audit_chain keep text kept from_a (first ∷ forged ∷ []))
verify_audit_chain_full-Agrees_example =
    verify_audit_chain_full-Agrees keep text (λ k. 0) 1 kept from_a (first ∷ forged ∷ [])
      (λ i. omega arith)
