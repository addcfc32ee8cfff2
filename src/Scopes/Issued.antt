-- ===== src/Scopes/Issued.antt =====
-- What a key that was issued with scopes permits.
use scout_off_backend.Prelude.{
  ◌≡◌, ◌≤◌, refl, sym, ap, ◌∙◌, String, Bool, true, false, not, ◌&&◌, ◌||◌, Option, none, some,
  List, [], ◌∷◌, ◌++◌, map, inl, inr, length, str_eq, if◌then◌else◌, arith, eq_iff, Bool-cases,
}
use scout_off_backend.Scopes.{
  Column, list_of, includes, texts, is_legacy_default, parse_api_key_scopes, has_api_key_scope,
  items_of, add_scopes, normalize_requested_scopes, api_key_scope_vocabulary,
}

-- The column of a key with these scopes.
abbrev pub stored : List String → Column
stored scopes = list_of (map some scopes)

-- The trimmed texts of a request.
abbrev pub trimmed : (String → String) → List (Option String) → List String
trimmed trim [] = []
trimmed trim (none ∷ items) = trimmed trim items
trimmed trim (some item ∷ items) = trim item ∷ trimmed trim items

unfoldable no_blank : List String → Bool
no_blank [] = true
no_blank (s ∷ scopes) = not (str_eq s "") && no_blank scopes

no_blank_nil : no_blank [] ≡ true
unfolding no_blank
no_blank_nil = refl

texts-map : (scopes : List String) → no_blank scopes ≡ true → texts (map some scopes) ≡ scopes
unfolding texts no_blank
texts-map [] h = refl
texts-map (s ∷ scopes) h = elim (Bool-cases (str_eq s "")) [
  | inl blank ↦ ground (arith, h, blank)
  | inr full ↦
      let rest : no_blank scopes ≡ true = ground (arith, h) in
      rw full (ap (λ l. s ∷ l) (texts-map scopes rest))
]

no_blank-append :
    (scopes : List String) (s : String)
    → no_blank scopes ≡ true
    → str_eq s "" ≡ false
    → no_blank (scopes ++ s ∷ []) ≡ true
unfolding no_blank
no_blank-append [] s h n = rw n refl
no_blank-append (t ∷ scopes) s h n = ground (arith, h, no_blank-append scopes s, n)

includes-append :
    (scopes : List String) (s r : String)
    → includes (scopes ++ s ∷ []) r ≡ (includes scopes r || str_eq s r)
unfolding includes
includes-append [] s r = ground arith
includes-append (t ∷ scopes) s r = ground (arith, includes-append scopes s r)

or_false : (b : Bool) → b || false ≡ b
or_false true = refl
or_false false = refl

or_assoc : (a b c : Bool) → (a || b) || c ≡ a || (b || c)
or_assoc true b c = refl
or_assoc false b c = refl

-- Adding a scope that is there adds nothing.
includes-add :
    (scopes : List String) (s r : String)
    → includes (if includes scopes s then scopes else scopes ++ s ∷ []) r
      ≡ (includes scopes r || str_eq s r)
includes-add scopes s r = elim (Bool-cases (includes scopes s)) [
  | inl there ↦ rw there (elim (Bool-cases (str_eq s r)) [
    | inl same ↦
        let e = (eq_iff s r).0 same in
        let here : includes scopes r ≡ true = ap (λ x. includes scopes x) (sym e) ∙ there in
        rw here refl
    | inr other ↦ rw other (sym (or_false (includes scopes r)))
  ])
  | inr new ↦ rw new (includes-append scopes s r)
]

no_blank-add :
    (scopes : List String) (s : String)
    → no_blank scopes ≡ true
    → str_eq s "" ≡ false
    → no_blank (if includes scopes s then scopes else scopes ++ s ∷ []) ≡ true
no_blank-add scopes s h n = elim (Bool-cases (includes scopes s)) [
  | inl there ↦ rw there h
  | inr new ↦ rw new (no_blank-append scopes s h n)
]

-- What a request adds to the scopes before it.
abbrev Adds : List String → List String → List String → Type 0
Adds acc asked out =
    (no_blank out ≡ true) × ((r : String) → includes out r ≡ (includes acc r || includes asked r))

add_scopes-Adds :
    (trim : String → String) (items : List (Option String)) (acc out : List String)
    → no_blank acc ≡ true
    → add_scopes trim items acc ≡ inl out
    → Adds acc (trimmed trim items) out
unfolding add_scopes includes
add_scopes-Adds trim [] acc out full =
    λ h. let e : acc ≡ out = cc h in rw (sym e) (full, (λ r. sym (or_false (includes acc r))))
add_scopes-Adds trim (none ∷ items) acc out full = λ h. cc h
add_scopes-Adds trim (some item ∷ items) acc out full = elim (Bool-cases (str_eq (trim item) "")) [
  | inl blank ↦ rw blank (λ h. cc h)
  | inr named ↦ rw named (elim (Bool-cases (includes api_key_scope_vocabulary (trim item))) [
    | inr unknown ↦ rw unknown (λ h. cc h)
    | inl known ↦ rw known (λ h.
        let next = if includes acc (trim item) then acc else acc ++ trim item ∷ [] in
        let full' = no_blank-add acc (trim item) full named in
        let (whole, adds) = add_scopes-Adds trim items next out full' h in
        let asked = trimmed trim items in
        (
          whole,
          (λ r.
              adds r
              ∙ ap (λ b. b || includes asked r) (includes-add acc (trim item) r)
              ∙ or_assoc (includes acc r) (str_eq (trim item) r) (includes asked r)),
        ))
  ])
]

-- A key that was issued with the scopes of an accepted request permits a scope exactly if the
-- request named it, provided that there are any and that they are not those of the legacy default.
pub normalize_requested_scopes-grants :
    (trim : String → String) (items : List (Option String)) (scopes : List String)
    (required : String)
    → normalize_requested_scopes trim (items_of items) ≡ inl scopes
    → 1 ≤ length scopes
    → is_legacy_default scopes ≡ false
    → has_api_key_scope (parse_api_key_scopes (stored scopes)) required
      ≡ includes (trimmed trim items) required
unfolding normalize_requested_scopes parse_api_key_scopes has_api_key_scope includes
normalize_requested_scopes-grants trim items [] required h some_there restricted =
    absurd (omega (arith, some_there))
normalize_requested_scopes-grants trim items (s ∷ scopes) required h some_there restricted =
    let (whole, adds) = add_scopes-Adds trim items [] (s ∷ scopes) no_blank_nil h in
    rw (texts-map (s ∷ scopes) whole) (rw restricted (adds required))

-- A key that was issued with the scopes of an accepted request that are those of the legacy default,
-- in any order, permits every scope.
normalize_requested_scopes-legacy :
    (trim : String → String) (items : List (Option String)) (scopes : List String)
    (required : String)
    → normalize_requested_scopes trim (items_of items) ≡ inl scopes
    → is_legacy_default scopes ≡ true
    → has_api_key_scope (parse_api_key_scopes (stored scopes)) required ≡ true
unfolding normalize_requested_scopes parse_api_key_scopes has_api_key_scope
normalize_requested_scopes-legacy trim items scopes required h legacy =
    let (whole, adds) = add_scopes-Adds trim items [] scopes no_blank_nil h in
    rw (texts-map scopes whole) (rw legacy refl)
