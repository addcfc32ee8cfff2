-- ===== src/AuditChain/Legacy.antt =====
-- `verifyAuditChain` against the chain that it checks.
use scout_off_backend.Prelude.{
  ℕ, ◌<◌, ◌≡◌, ◌↔◌, refl, sym, ◌∙◌, String, Bool, true, false, Bool-cases, inl, inr, Option, none,
  some, List, [], ◌∷◌, ◌++◌, length, eq_iff, arith,
}
use scout_off_backend.AuditChain.{
  Content, AuditLogRow, AuditCheckpoint, genesis_hash, overlaps, audit_snapshot, verify_snapshot,
  last_hash, prev_is, compute_chain_hash, verify_from, verify_audit_chain,
}
use scout_off_backend.AuditChain.Linked.{Continues, IsLinked}

prev_is_iff : (o : Option String) (h : String) → (prev_is o h ≡ true) ↔ (o ≡ some h)
prev_is_iff none h = ground arith
prev_is_iff (some p) h = ground (arith, eq_iff p h)

abbrev pub AreAfter : ℕ → List AuditLogRow → Type 0
AreAfter id [] = Unit
AreAfter id (r ∷ rows) = (id < r.id) × AreAfter id rows

overlaps_iff : (id : ℕ) (rows : List AuditLogRow) → (overlaps id rows ≡ false) ↔ AreAfter id rows
unfolding overlaps
overlaps_iff id [] = ((λ h. tt), λ h. refl)
overlaps_iff id (r ∷ rows) =
    let (to, from) = overlaps_iff id rows in
    ((λ h. (ground (arith, h), to (ground (arith, h)))), λ h. ground (arith, h.0, from h.1))

module _ (digest : String → String) (stringify : Content → String) where
  verify_from-valid_iff :
      (total : ℕ) (prev : String) (rows : List AuditLogRow)
      → ((verify_from digest stringify total prev rows).valid ≡ true)
        ↔ IsLinked digest stringify prev rows
  unfolding verify_from
  verify_from-valid_iff total prev [] = ground arith
  verify_from-valid_iff total prev (r ∷ rows) = ground (
    arith,
    prev_is_iff r.prev_hash prev,
    eq_iff r.hash (compute_chain_hash digest stringify r.content prev),
    verify_from-valid_iff total r.hash rows,
  )

  -- The log is an intact chain: from the genesis hash if there is no checkpoint, and else from the
  -- hash of a checkpoint that was read, whose archive is accepted and whose rows are gone.
  abbrev pub IsIntact :
      (AuditCheckpoint → Bool) → Option (Option AuditCheckpoint) → List AuditLogRow → Type 0
  IsIntact archive none rows = ⊥
  IsIntact archive (some none) rows = IsLinked digest stringify genesis_hash rows
  IsIntact archive (some (some c)) rows =
      (archive c ≡ true) × AreAfter c.last_id rows × IsLinked digest stringify c.last_hash rows

  -- `verifyAuditChain` reports a valid log exactly if reading the newest checkpoint does not throw
  -- and the log is an intact chain: from the genesis hash if there is no checkpoint, and else from
  -- the checkpoint's hash, with its archive accepted and every row's id above its last one.
  pub verify_audit_chain-valid_iff :
      (archive : AuditCheckpoint → Bool) (latest : Option (Option AuditCheckpoint))
      (rows : List AuditLogRow)
      → ((verify_audit_chain digest stringify archive latest rows).valid ≡ true)
        ↔ IsIntact archive latest rows
  unfolding verify_audit_chain audit_snapshot verify_snapshot
  verify_audit_chain-valid_iff archive none rows = ((λ h. cc h), λ h. absurd h)
  verify_audit_chain-valid_iff archive (some none) rows =
      verify_from-valid_iff (length rows) genesis_hash rows
  verify_audit_chain-valid_iff archive (some (some c)) rows =
      let whole = verify_from-valid_iff (length rows) c.last_hash rows in
      elim (Bool-cases (archive c)) [
        | inr bad ↦ rw bad ((λ h. cc h), λ h. cc h.0)
        | inl good ↦ elim (Bool-cases (overlaps c.last_id rows)) [
          | inl old ↦
              rw (good, old) ((λ h. cc h), λ h. cc (sym old ∙ (overlaps_iff c.last_id rows).1 h.1))
          | inr new ↦
              rw (good, new)
                ((λ h. (refl, (overlaps_iff c.last_id rows).0 new, whole.0 h)), λ h. whole.1 h.2)
        ]
      ]

  verify_from-broken :
      (total : ℕ) (prev : String) (intact : List AuditLogRow) (r : AuditLogRow)
      (rest : List AuditLogRow)
      → IsLinked digest stringify prev intact
      → ¬ Continues digest stringify (last_hash prev intact) r
      → (verify_from digest stringify total prev (intact ++ r ∷ rest)).broken_at_id ≡ some r.id
  unfolding verify_from last_hash
  verify_from-broken total prev [] r rest h bad = ground (
    arith,
    prev_is_iff r.prev_hash prev,
    eq_iff r.hash (compute_chain_hash digest stringify r.content prev),
    λ (p : r.prev_hash ≡ some prev)
          (q : r.hash ≡ compute_chain_hash digest stringify r.content prev).
        bad (record { prev_fits = p; hash_fits = q }),
  )
  verify_from-broken total prev (q ∷ intact) r rest (c, h) bad = ground (
    arith,
    c.prev_fits,
    c.hash_fits,
    prev_is_iff q.prev_hash prev,
    eq_iff q.hash (compute_chain_hash digest stringify q.content prev),
    verify_from-broken total q.hash intact r rest h bad,
  )

  -- If an intact chain is followed by a row that does not continue it, then that row is the one
  -- that is reported, whatever comes after it.
  verify_snapshot-broken :
      (initial : String) (intact : List AuditLogRow) (r : AuditLogRow) (rest : List AuditLogRow)
      → IsLinked digest stringify initial intact
      → ¬ Continues digest stringify (last_hash initial intact) r
      → (verify_snapshot digest stringify (some initial) (intact ++ r ∷ rest)).broken_at_id
        ≡ some r.id
  unfolding verify_snapshot
  verify_snapshot-broken initial intact r rest h bad =
      verify_from-broken (length (intact ++ r ∷ rest)) initial intact r rest h bad
