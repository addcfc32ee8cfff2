-- ===== src/AuditChain/Linked.antt =====
-- What an intact chain is, and that insertions keep it intact.
use scout_off_backend.Prelude.{ℕ, ◌≡◌, refl, String, Option, some, List, [], ◌∷◌, ◌++◌}
use scout_off_backend.AuditChain.{
  Content, AuditLogRow, initial_hash, last_hash, compute_chain_hash, insert_audit_log,
}

last_hash-append :
    (prev : String) (rows : List AuditLogRow) (r : AuditLogRow)
    → last_hash prev (rows ++ r ∷ []) ≡ r.hash
unfolding last_hash
last_hash-append prev [] r = refl
last_hash-append prev (q ∷ rows) r = last_hash-append q.hash rows r

module _ (digest : String → String) (stringify : Content → String) where
  -- The row continues a chain that ends with this hash.
  pub record Continues (prev : String) (r : AuditLogRow) : Type 0 where
    pub prev_fits : r.prev_hash ≡ some prev
    pub hash_fits : r.hash ≡ compute_chain_hash digest stringify r.content prev

  abbrev pub IsLinked : String → List AuditLogRow → Type 0
  IsLinked prev [] = Unit
  IsLinked prev (r ∷ rows) = Continues prev r × IsLinked r.hash rows

  pub IsLinked-append :
      (prev : String) (rows : List AuditLogRow) (r : AuditLogRow)
      → IsLinked prev rows
      → Continues (last_hash prev rows) r
      → IsLinked prev (rows ++ r ∷ [])
  unfolding last_hash
  IsLinked-append prev [] r h c = (c, tt)
  IsLinked-append prev (q ∷ rows) r (k, h) c = (k, IsLinked-append q.hash rows r h c)

  -- Inserts, each with its id and content.
  unfoldable pub insert_all :
      Option String → List (ℕ × Content) → List AuditLogRow → List AuditLogRow
  insert_all checkpoint [] rows = rows
  insert_all checkpoint ((id, content) ∷ more) rows =
      insert_all checkpoint more (insert_audit_log digest stringify checkpoint id content rows)

  insert_audit_log-IsLinked :
      (checkpoint : Option String) (id : ℕ) (content : Content) (rows : List AuditLogRow)
      → IsLinked (initial_hash checkpoint) rows
      → IsLinked
          (initial_hash checkpoint)
          (insert_audit_log digest stringify checkpoint id content rows)
  unfolding insert_audit_log
  insert_audit_log-IsLinked checkpoint id content rows h =
      IsLinked-append (initial_hash checkpoint) rows _ h
        (record { prev_fits = refl; hash_fits = refl })

  -- A log that is an intact chain, such as the empty one, stays so under any number of inserts.
  pub insert_all-IsLinked :
      (checkpoint : Option String) (inserts : List (ℕ × Content)) (rows : List AuditLogRow)
      → IsLinked (initial_hash checkpoint) rows
      → IsLinked (initial_hash checkpoint) (insert_all checkpoint inserts rows)
  unfolding insert_all
  insert_all-IsLinked checkpoint [] rows h = h
  insert_all-IsLinked checkpoint ((id, content) ∷ more) rows h =
      insert_all-IsLinked checkpoint more _ (insert_audit_log-IsLinked checkpoint id content rows h)
