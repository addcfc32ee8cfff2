-- ===== src/MultiSig.antt =====
-- Multi-signature admin actions: the tables of src/db/repositories/adminActions.ts in `Table`, the
-- privileged operations of src/services/adminMultiSig.ts in `Execution`, and proposing and
-- approving an action in `Approval`.
pub mod Table
pub mod Execution
pub mod Approval
