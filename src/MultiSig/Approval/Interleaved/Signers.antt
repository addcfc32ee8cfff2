-- ===== src/MultiSig/Approval/Interleaved/Signers.antt =====
-- Which calls of interleaved approvals make contract calls.
use scout_off_backend.Prelude.{
  ℕ, ◌≡◌, ◌⊎◌, refl, sym, ap, ◌∙◌, String, Bool, true, false, Option, List, [], ◌∷◌, ◌++◌, ◌==◌,
  ltb, if◌then◌else◌, Bool-cases, inl, inr, ==_iff, ◌≢◌, eq_refl, arith, none, some,
}
use scout_off_backend.MultiSig.Table.{
  Status, pending, executed, expired, other, PendingAdminActionRow, Signature, Db, has_signature,
  insert_signature, get_by_id,
}
use scout_off_backend.MultiSig.Execution.{Services}
use scout_off_backend.MultiSig.Approval.{Clock, includes}
use scout_off_backend.MultiSig.Approval.Interleaved.{
  Phase, arrived, swept, late, asking, signing, signed, counted, reached, marked, settling, ended,
  advance, look, read,
}

-- The call has inserted its signature and not ended without a contract call.
abbrev pub is_in : Phase → Bool
is_in arrived = false
is_in swept = false
is_in late = false
is_in (asking a) = false
is_in (signing a) = false
is_in (signed a) = true
is_in (counted a) = true
is_in (reached a n) = true
is_in (marked a n) = true
is_in (settling a n effects r) = true
is_in (ended [] outcome) = false
is_in (ended (e ∷ effects) outcome) = true

-- The call has made a contract call.
abbrev pub has_run : Phase → Bool
has_run (settling a n (e ∷ effects) r) = true
has_run (ended (e ∷ effects) outcome) = true
has_run _ = false

has_run-is_in : (p : Phase) → has_run p ≡ true → is_in p ≡ true
has_run-is_in arrived h = cc h
has_run-is_in swept h = cc h
has_run-is_in late h = cc h
has_run-is_in (asking a) h = cc h
has_run-is_in (signing a) h = cc h
has_run-is_in (signed a) h = refl
has_run-is_in (counted a) h = refl
has_run-is_in (reached a n) h = refl
has_run-is_in (marked a n) h = refl
has_run-is_in (settling a n effects r) h = refl
has_run-is_in (ended [] outcome) h = cc h
has_run-is_in (ended (e ∷ effects) outcome) h = refl

-- The arguments of one call.
pub record Call : Type 0 where
  pub sv : Services
  pub admins : List String
  pub clock : Clock
  pub id : String
  pub signer : String

pub record World : Type 0 where
  pub db : Db
  pub phase : ℕ → Phase

-- Call k runs to its next await.
abbrev moved : (ℕ → Call) → ℕ → World → Db × Phase
moved calls k w = let c = calls k in advance c.sv c.admins c.clock c.id c.signer (w.phase k) w.db

unfoldable pub step : (ℕ → Call) → ℕ → World → World
unfolding advance
step calls k w = record {
  db = (moved calls k w).0;
  phase = λ j. if j == k then (moved calls k w).1 else w.phase j;
}

-- The calls go on in the order of the list.
unfoldable pub interleave : (ℕ → Call) → List ℕ → World → World
unfolding step
interleave calls [] w = w
interleave calls (k ∷ ks) w = interleave calls ks (step calls k w)

has_signature-old :
    (i t : String) (signatures : List Signature) (s : Signature)
    → has_signature i t signatures ≡ true
    → has_signature i t (signatures ++ s ∷ []) ≡ true
unfolding has_signature
has_signature-old i t [] s h = cc h
has_signature-old i t (r ∷ signatures) s h = ground (arith, h, has_signature-old i t signatures s)

has_signature-new :
    (signatures : List Signature) (s : Signature)
    → has_signature s.action_id s.signer (signatures ++ s ∷ []) ≡ true
unfolding has_signature
has_signature-new [] s = rw (eq_refl s.action_id, eq_refl s.signer) refl
has_signature-new (r ∷ signatures) s = ground (arith, has_signature-new signatures s)

insert_signature-keeps :
    (i t : String) (s : Signature) (db : Db)
    → has_signature i t db.signatures ≡ true
    → has_signature i t (insert_signature s db).0.signatures ≡ true
unfolding insert_signature
insert_signature-keeps i t s db h =
    elim (Bool-cases (has_signature s.action_id s.signer db.signatures)) [
      | inl old ↦ rw old h
      | inr new ↦ rw new (has_signature-old i t db.signatures s h)
    ]

module _ (sv : Services) (admins : List String) (clock : Clock) (id signer : String) where
  abbrev after : Phase → Db → Db × Phase
  after p db = advance sv admins clock id signer p db

  advance-keeps :
      (p : Phase) (db : Db) (i t : String)
      → has_signature i t db.signatures ≡ true
      → has_signature i t (after p db).0.signatures ≡ true
  unfolding advance
  advance-keeps arrived db i t h = h
  advance-keeps swept db i t h = h
  advance-keeps late db i t h = h
  advance-keeps (asking a) db i t h = h
  advance-keeps (signing a) db i t h =
      insert_signature-keeps i t
        (record { action_id = id; signer = signer; signed_at = clock.signed_at }) db h
  advance-keeps (signed a) db i t h = h
  advance-keeps (counted a) db i t h = h
  advance-keeps (reached a n) db i t h = h
  advance-keeps (marked a n) db i t h = h
  advance-keeps (settling a n effects r) db i t h = elim (Bool-cases r.success) [
    | inl done ↦ rw done h
    | inr bad ↦ rw bad h
  ]
  advance-keeps (ended effects outcome) db i t h = h

  -- A call that is in after its move was in before, or its signature is new.
  abbrev Enters : Phase → Db → Type 0
  Enters p db =
      (is_in p ≡ true)
      ⊎ ((has_signature id signer db.signatures ≡ false)
          × (has_signature id signer (after p db).0.signatures ≡ true))

  look-out :
      (status : Status) (a : PendingAdminActionRow)
      → is_in (look sv admins clock id signer status a) ≡ false
  look-out expired a = refl
  look-out executed a = refl
  look-out (other s) a = refl
  look-out pending a = elim (Bool-cases (ltb a.expires_at clock.checked_at)) [
    | inl over ↦ rw over refl
    | inr live ↦ elim (Bool-cases (includes signer admins)) [
      | inl admin ↦ rw (live, admin) refl
      | inr foreign ↦ rw (live, foreign) refl
    ]
  ]

  read-out : (o : Option PendingAdminActionRow) → is_in (read sv admins clock id signer o) ≡ false
  read-out none = refl
  read-out (some a) = look-out a.status a

  asking-out :
      (a : PendingAdminActionRow) (db : Db)
      → is_in (after (asking a) db).1 ≡ true
      → Enters (asking a) db
  unfolding advance
  asking-out a db = elim (Bool-cases (has_signature id signer db.signatures)) [
    | inl old ↦ rw old (λ h. cc h)
    | inr new ↦ rw new (λ h. cc h)
  ]

  signing-Enters :
      (a : PendingAdminActionRow) (db : Db)
      → is_in (after (signing a) db).1 ≡ true
      → Enters (signing a) db
  unfolding advance insert_signature
  signing-Enters a db =
      let s : Signature = record { action_id = id; signer = signer; signed_at = clock.signed_at } in
      elim (Bool-cases (has_signature id signer db.signatures)) [
        | inl old ↦ rw old (λ h. cc h)
        | inr new ↦ rw new (λ h. inr (refl, has_signature-new db.signatures s))
      ]

  advance-Enters : (p : Phase) (db : Db) → is_in (after p db).1 ≡ true → Enters p db
  unfolding advance insert_signature
  advance-Enters arrived db h = cc h
  advance-Enters swept db h = cc (sym (read-out (get_by_id id db.actions)) ∙ h)
  advance-Enters late db h = cc h
  advance-Enters (asking a) db h = asking-out a db h
  advance-Enters (signing a) db h = signing-Enters a db h
  advance-Enters (signed a) db h = inl refl
  advance-Enters (counted a) db h = inl refl
  advance-Enters (reached a n) db h = inl refl
  advance-Enters (marked a n) db h = inl refl
  advance-Enters (settling a n effects r) db h = inl refl
  advance-Enters (ended [] outcome) db h = cc h
  advance-Enters (ended (e ∷ effects) outcome) db h = inl refl

module _ (calls : ℕ → Call) where
  abbrev signed_in : ℕ → Db → Bool
  signed_in k db = has_signature (calls k).id (calls k).signer db.signatures

  -- The signature of each call that is in stands in the table, and no two calls of one signer are in
  -- for one action.
  abbrev pub IsApart : World → Type 0
  IsApart w =
      ((k : ℕ) → is_in (w.phase k) ≡ true → signed_in k w.db ≡ true)
      × ((k l : ℕ)
          → is_in (w.phase k) ≡ true
          → is_in (w.phase l) ≡ true
          → (calls k).id ≡ (calls l).id
          → (calls k).signer ≡ (calls l).signer
          → k ≡ l)

  -- The moved call and another one that is in.
  moved-apart :
      (k l : ℕ) (w : World)
      → IsApart w
      → is_in (moved calls k w).1 ≡ true
      → is_in (w.phase l) ≡ true
      → (calls k).id ≡ (calls l).id
      → (calls k).signer ≡ (calls l).signer
      → k ≡ l
  moved-apart k l w (known, apart) h g same_id same_signer =
      let c = calls k in
      elim (advance-Enters c.sv c.admins c.clock c.id c.signer (w.phase k) w.db h) [
        | inl before ↦ apart k l before g same_id same_signer
        | inr (new, there) ↦ cc (
            sym new
            ∙ ap (λ i. has_signature i (calls k).signer w.db.signatures) same_id
            ∙ ap (λ s. has_signature (calls l).id s w.db.signatures) same_signer
            ∙ known l g)
      ]

  step-IsApart : (k : ℕ) (w : World) → IsApart w → IsApart (step calls k w)
  unfolding step
  step-IsApart k w (known, apart) =
      let c = calls k in
      (
        (λ j. elim (Bool-cases (j == k)) [
          | inl here ↦
              let e = (==_iff j k).0 here in
              rw here (λ h.
                ap (λ i. signed_in i (moved calls k w).0) e
                ∙ elim (advance-Enters c.sv c.admins c.clock c.id c.signer (w.phase k) w.db h) [
                  | inl before ↦
                      advance-keeps c.sv c.admins c.clock c.id c.signer (w.phase k) w.db c.id
                        c.signer (known k before)
                  | inr (new, there) ↦ there
                ])
          | inr elsewhere ↦ rw elsewhere (λ h.
              advance-keeps c.sv c.admins c.clock c.id c.signer (w.phase k) w.db (calls j).id
                (calls j).signer (known j h))
        ]),
        (λ j l. elim (Bool-cases (j == k)) [
          | inl jk ↦ elim (Bool-cases (l == k)) [
            | inl lk ↦ rw (jk, lk) (λ h g i s. (==_iff j k).0 jk ∙ sym ((==_iff l k).0 lk))
            | inr lo ↦
                let e = (==_iff j k).0 jk in
                rw (jk, lo)
                  (λ h g i s.
                    e
                    ∙ moved-apart k l w (known, apart) h g (ap (λ m. (calls m).id) (sym e) ∙ i)
                        (ap (λ m. (calls m).signer) (sym e) ∙ s))
          ]
          | inr jo ↦ elim (Bool-cases (l == k)) [
            | inl lk ↦
                let e = (==_iff l k).0 lk in
                rw (jo, lk)
                  (λ h g i s. sym (
                    e
                    ∙ moved-apart k j w (known, apart) g h (ap (λ m. (calls m).id) (sym e) ∙ sym i)
                        (ap (λ m. (calls m).signer) (sym e) ∙ sym s)))
            | inr lo ↦ rw (jo, lo) (λ h g i s. apart j l h g i s)
          ]
        ]),
      )

  interleave-IsApart : (ks : List ℕ) (w : World) → IsApart w → IsApart (interleave calls ks w)
  unfolding interleave
  interleave-IsApart [] w h = h
  interleave-IsApart (k ∷ ks) w h = interleave-IsApart ks (step calls k w) (step-IsApart k w h)

  -- However approvals that have just arrived interleave: two of them that have each made a contract
  -- call for the same action are of different signers, and both signatures stand in the table.
  pub interleave-runs :
      (ks : List ℕ) (db : Db) (k l : ℕ)
      → k ≢ l
      → has_run ((interleave calls ks (record { db = db; phase = λ j. arrived })).phase k) ≡ true
      → has_run ((interleave calls ks (record { db = db; phase = λ j. arrived })).phase l) ≡ true
      → (calls k).id ≡ (calls l).id
      → ((calls k).signer ≢ (calls l).signer)
        × (signed_in k (interleave calls ks (record { db = db; phase = λ j. arrived })).db ≡ true)
        × (signed_in l (interleave calls ks (record { db = db; phase = λ j. arrived })).db ≡ true)
  interleave-runs ks db k l differ h g same_id =
      let start : World = record { db = db; phase = λ j. arrived } in
      let w = interleave calls ks start in
      let (known, apart) = interleave-IsApart ks start ((λ j b. cc b), (λ i j b d e f. cc b)) in
      let in_k = has_run-is_in (w.phase k) h in
      let in_l = has_run-is_in (w.phase l) g in
      ((λ same. differ (apart k l in_k in_l same_id same)), known k in_k, known l in_l)
