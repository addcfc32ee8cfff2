-- ===== src/MultiSig/Table/Rows.antt =====
-- What the statements do to the row of one id.
use scout_off_backend.Prelude.{
  ℕ, ◌+◌, ◌≡◌, refl, String, Option, none, some, List, [], ◌∷◌, ◌++◌, str_eq, eq_iff, if◌then◌else◌,
  arith,
}
use scout_off_backend.MultiSig.Table.{
  PendingAdminActionRow, Signature, Db, get_by_id, update, expire, expire_all, insert_signature,
}

abbrev pub apply :
    (PendingAdminActionRow → PendingAdminActionRow)
    → Option PendingAdminActionRow
    → Option PendingAdminActionRow
apply f none = none
apply f (some a) = some (f a)

-- Updates keep the ids of the rows.
abbrev pub KeepsId : (PendingAdminActionRow → PendingAdminActionRow) → Type 0
KeepsId f = (a : PendingAdminActionRow) → (f a).id ≡ a.id

pub get-update :
    (j k : String) (f : PendingAdminActionRow → PendingAdminActionRow)
    → KeepsId f
    → (rows : List PendingAdminActionRow)
    → get_by_id j (update k f rows)
      ≡ (if str_eq k j then apply f (get_by_id j rows) else get_by_id j rows)
unfolding get_by_id update
get-update j k f keeps [] = ground arith
get-update j k f keeps (a ∷ rows) = ground (
  arith,
  eq_iff a.id k,
  eq_iff a.id j,
  eq_iff k j,
  eq_iff (f a).id j,
  keeps a,
  get-update j k f keeps rows,
)

pub get-expire_all :
    (j : String) (now : ℕ) (rows : List PendingAdminActionRow)
    → get_by_id j (expire_all now rows) ≡ apply (expire now) (get_by_id j rows)
unfolding get_by_id expire_all
get-expire_all j now [] = refl
get-expire_all j now (a ∷ rows) = ground (arith, get-expire_all j now rows)

pub get-append :
    (j : String) (rows : List PendingAdminActionRow) (a : PendingAdminActionRow)
    → get_by_id j rows ≡ none
    → get_by_id j (rows ++ a ∷ []) ≡ (if str_eq a.id j then some a else none)
unfolding get_by_id
get-append j [] a h = refl
get-append j (b ∷ rows) a h = ground (arith, get-append j rows a)

pub get-append_old :
    (j : String) (rows : List PendingAdminActionRow) (a b : PendingAdminActionRow)
    → get_by_id j rows ≡ some b
    → get_by_id j (rows ++ a ∷ []) ≡ some b
unfolding get_by_id
get-append_old j [] a b h = cc
get-append_old j (c ∷ rows) a b h = ground (arith, get-append_old j rows a b)

-- The number of signatures of an action.
unfoldable pub count_signatures : String → List Signature → ℕ
count_signatures id [] = 0
count_signatures id (s ∷ signatures) =
    (if str_eq s.action_id id then 1 else 0) + count_signatures id signatures

pub count_signatures-append :
    (id : String) (signatures : List Signature) (s : Signature)
    → count_signatures id (signatures ++ s ∷ [])
      ≡ count_signatures id signatures + (if str_eq s.action_id id then 1 else 0)
unfolding count_signatures
count_signatures-append id [] s = ground arith
count_signatures-append id (t ∷ signatures) s =
    ground (arith, count_signatures-append id signatures s)

pub actions-insert_signature :
    (s : Signature) (db : Db) → (insert_signature s db).0.actions ≡ db.actions
unfolding insert_signature
actions-insert_signature s db = ground arith
