-- ===== src/MultiSig/Approval/Counting.antt =====
-- `collected_signatures` counts distinct signers, in every history.
use scout_off_backend.Prelude.{
  ℕ, ◌≡◌, refl, ◌∙◌, String, false, ◌&&◌, Option, none, some, List, [], ◌∷◌, ◌++◌, Option-cases,
  inl, inr, str_eq, eq_iff, arith,
}
use scout_off_backend.MultiSig.Table.{
  PendingAdminActionRow, Signature, Db, get_by_id, update, with_signature, with_status, expire,
  expire_stale, expire_all, increment_signatures, insert_signature, has_signature, Status,
}
use scout_off_backend.MultiSig.Table.Rows.{
  KeepsId, get-update, get-expire_all, count_signatures, count_signatures-append,
}

-- No two signatures of one action by one signer.
abbrev pub Distinct : List Signature → Type 0
Distinct [] = Unit
Distinct (s ∷ signatures) =
    (has_signature s.action_id s.signer signatures ≡ false) × Distinct signatures

has_signature-append :
    (id signer : String) (signatures : List Signature) (s : Signature)
    → has_signature id signer signatures ≡ false
    → (str_eq s.action_id id && str_eq s.signer signer) ≡ false
    → has_signature id signer (signatures ++ s ∷ []) ≡ false
unfolding has_signature
has_signature-append id signer [] s h k = ground arith
has_signature-append id signer (t ∷ signatures) s h k =
    ground (arith, has_signature-append id signer signatures s)

Distinct-append :
    (signatures : List Signature) (s : Signature)
    → Distinct signatures
    → has_signature s.action_id s.signer signatures ≡ false
    → Distinct (signatures ++ s ∷ [])
unfolding has_signature
Distinct-append [] s d h = ground arith
Distinct-append (t ∷ signatures) s (d, ds) h = ground (
  arith,
  has_signature-append t.action_id t.signer signatures s d,
  Distinct-append signatures s ds,
  eq_iff s.action_id t.action_id,
  eq_iff t.action_id s.action_id,
  eq_iff s.signer t.signer,
  eq_iff t.signer s.signer,
)

-- The collected count of a row, and 0 where there is none.
abbrev pub collected_of : Option PendingAdminActionRow → ℕ
collected_of none = 0
collected_of (some a) = a.collected_signatures

pub record IsCounted (db : Db) : Type 0 where
  pub counted :
      (id : String) → collected_of (get_by_id id db.actions) ≡ count_signatures id db.signatures
  pub distinct : Distinct db.signatures

-- Updates that leave the counts alone.
collected-update :
    (k : String) (f : PendingAdminActionRow → PendingAdminActionRow)
    → KeepsId f
    → ((a : PendingAdminActionRow) → (f a).collected_signatures ≡ a.collected_signatures)
    → (rows : List PendingAdminActionRow) (j : String)
    → collected_of (get_by_id j (update k f rows)) ≡ collected_of (get_by_id j rows)
collected-update k f keeps same rows j = elim (Option-cases (get_by_id j rows)) [
  | inl gone ↦ ground (arith, get-update j k f keeps rows)
  | inr (a, found) ↦ ground (arith, get-update j k f keeps rows, same a)
]

pub collected-expire_all :
    (now : ℕ) (rows : List PendingAdminActionRow) (j : String)
    → collected_of (get_by_id j (expire_all now rows)) ≡ collected_of (get_by_id j rows)
unfolding expire
collected-expire_all now rows j = ground (arith, get-expire_all j now rows)

pub expire_stale-IsCounted : (now : ℕ) (db : Db) → IsCounted db → IsCounted (expire_stale now db)
expire_stale-IsCounted now db h = record {
  counted = λ id. collected-expire_all now db.actions id ∙ h.counted id;
  distinct = h.distinct;
}

pub has_signature-none :
    (id signer : String) (signatures : List Signature)
    → count_signatures id signatures ≡ 0
    → has_signature id signer signatures ≡ false
unfolding has_signature count_signatures
has_signature-none id signer [] h = refl
has_signature-none id signer (s ∷ signatures) h =
    ground (arith, has_signature-none id signer signatures)

-- A new signature of an existing action, and its count.
pub signed-IsCounted :
    (s : Signature) (b : PendingAdminActionRow) (db : Db)
    → IsCounted db
    → get_by_id s.action_id db.actions ≡ some b
    → has_signature s.action_id s.signer db.signatures ≡ false
    → IsCounted (increment_signatures s.action_id (insert_signature s db).0)
unfolding insert_signature
signed-IsCounted s b db h found new = rw new (record {
  counted = λ j. ground (
    arith,
    h.counted j,
    get-update j s.action_id with_signature (λ c. refl) db.actions,
    count_signatures-append j db.signatures s,
    eq_iff s.action_id j,
  );
  distinct = Distinct-append db.signatures s h.distinct new;
})

pub update_status-IsCounted :
    (id : String) (status : Status) (db : Db)
    → IsCounted db
    → IsCounted (record db { actions = update id (with_status status) db.actions })
update_status-IsCounted id status db h = record {
  counted = λ j.
      collected-update id (with_status status) (λ b. refl) (λ b. refl) db.actions j ∙ h.counted j;
  distinct = h.distinct;
}
