-- ===== src/Scopes/Examples.antt =====
-- A request of one scope, and one of the scopes of the legacy default.
use scout_off_backend.Prelude.{
  ◌≡◌, refl, String, true, false, Option, none, some, List, [], ◌∷◌, inl, arith,
}
use scout_off_backend.Scopes.{
  texts, includes, is_legacy_default, all_in, parse_api_key_scopes, has_api_key_scope, items_of,
  add_scopes, normalize_requested_scopes, legacy_default_api_key_scopes,
}
use scout_off_backend.Scopes.Issued.{stored, trimmed, normalize_requested_scopes-grants}

abbrev as_is : String → String
as_is t = t

abbrev notes : List (Option String)
notes = some "read:notes" ∷ some "read:notes" ∷ []

notes_accepted : normalize_requested_scopes as_is (items_of notes) ≡ inl ("read:notes" ∷ [])
unfolding normalize_requested_scopes add_scopes includes
notes_accepted = refl

notes_restricted : is_legacy_default ("read:notes" ∷ []) ≡ false
unfolding is_legacy_default all_in includes
notes_restricted = refl

normalize_requested_scopes-grants_example :
    has_api_key_scope (parse_api_key_scopes (stored ("read:notes" ∷ []))) "write:notes"
    ≡ includes (trimmed as_is notes) "write:notes"
normalize_requested_scopes-grants_example =
    normalize_requested_scopes-grants as_is notes ("read:notes" ∷ []) "write:notes" notes_accepted
      (omega arith) notes_restricted

abbrev four : List (Option String)
four =
    some "read:players"
    ∷ some "read:milestones"
    ∷ some "write:contacts"
    ∷ some "read:subscription"
    ∷ []

four_accepted : normalize_requested_scopes as_is (items_of four) ≡ inl legacy_default_api_key_scopes
unfolding normalize_requested_scopes add_scopes includes
four_accepted = refl

four_legacy : is_legacy_default legacy_default_api_key_scopes ≡ true
unfolding is_legacy_default all_in includes
four_legacy = refl

-- Asking for the four scopes of the legacy default gives a key without restriction.
four_unrestricted : parse_api_key_scopes (stored legacy_default_api_key_scopes) ≡ none
unfolding parse_api_key_scopes is_legacy_default all_in includes texts
four_unrestricted = refl
