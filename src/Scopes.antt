-- ===== src/Scopes.antt =====
-- The scopes of API keys: src/utils/apiKeyScopes.ts. A stored value is what `JSON.parse` makes of the
-- column, and an element of a list is nothing where it is no text. `trim` is JavaScript's.
pub mod Issued
mod Examples
use scout_off_backend.Prelude.{
  String, Bool, true, false, not, ◌&&◌, ◌||◌, Option, none, some, List, [], ◌∷◌, ◌++◌, ◌==◌, length,
  str_eq, if◌then◌else◌, ◌⊎◌, inl, inr,
}

abbrev pub api_key_scope_vocabulary : List String
api_key_scope_vocabulary =
    "read:players" ∷ "read:milestones" ∷ "read:subscription" ∷ "read:contacts" ∷ "read:payments"
    ∷ "read:notes" ∷ "read:bookmarks" ∷ "read:api_keys" ∷ "read:webhooks" ∷ "read:saved_searches"
    ∷ "read:recommendations" ∷ "read:dashboard" ∷ "read:trial_offers" ∷ "write:contacts"
    ∷ "write:subscriptions" ∷ "write:trial_offers" ∷ "write:webhooks" ∷ "write:api_keys"
    ∷ "write:bookmarks" ∷ "write:notes" ∷ "write:saved_searches" ∷ "write:player_tokens" ∷ []

abbrev pub legacy_default_api_key_scopes : List String
legacy_default_api_key_scopes =
    "read:players" ∷ "read:milestones" ∷ "write:contacts" ∷ "read:subscription" ∷ []

-- The column: null or a blank or null text; a text that is no JSON; JSON that is no list; a list.
pub data Column : Type 0 where
  null unparseable not_a_list : Column
  list_of : List (Option String) → Column

unfoldable pub includes : List String → String → Bool
includes [] s = false
includes (t ∷ scopes) s = str_eq t s || includes scopes s

-- The two filters: the texts, and of them those that are not empty.
unfoldable pub texts : List (Option String) → List String
texts [] = []
texts (none ∷ items) = texts items
texts (some t ∷ items) = let rest = texts items in if str_eq t "" then rest else t ∷ rest

unfoldable pub all_in : List String → List String → Bool
all_in [] scopes = true
all_in (s ∷ rest) scopes = includes scopes s && all_in rest scopes

unfoldable pub is_legacy_default : List String → Bool
unfolding all_in
is_legacy_default scopes =
    length scopes == length legacy_default_api_key_scopes
    && (all_in legacy_default_api_key_scopes scopes && all_in scopes legacy_default_api_key_scopes)

abbrev pub non_empty : List String → Option (List String)
non_empty [] = none
non_empty (s ∷ scopes) = some (s ∷ scopes)

-- None is a key without restriction.
unfoldable pub parse_api_key_scopes : Column → Option (List String)
unfolding is_legacy_default texts
parse_api_key_scopes null = none
parse_api_key_scopes unparseable = none
parse_api_key_scopes not_a_list = none
parse_api_key_scopes (list_of items) =
    let scopes = texts items in if is_legacy_default scopes then none else non_empty scopes

unfoldable pub has_api_key_scope : Option (List String) → String → Bool
unfolding includes
has_api_key_scope none required = true
has_api_key_scope (some scopes) required = includes scopes required

-- What a caller asks for: nothing, a value that is no list, or a list.
pub data Requested : Type 0 where
  absent no_list : Requested
  items_of : List (Option String) → Requested

pub data ScopeError : Type 0 where
  not_texts : ScopeError
  unknown_scope : String → ScopeError

-- The loop; the members of `seen` are those of `scopes`.
unfoldable pub add_scopes :
    (String → String) → List (Option String) → List String → List String ⊎ ScopeError
add_scopes trim [] scopes = inl scopes
add_scopes trim (none ∷ items) scopes = inr not_texts
add_scopes trim (some item ∷ items) scopes =
    let scope = trim item in
    let rest = add_scopes trim items in
    if str_eq scope ""
    then inr not_texts
    else if not (includes api_key_scope_vocabulary scope)
    then inr (unknown_scope scope)
    else rest (if includes scopes scope then scopes else scopes ++ scope ∷ [])

unfoldable pub normalize_requested_scopes : (String → String) → Requested → List String ⊎ ScopeError
unfolding add_scopes
normalize_requested_scopes trim absent = inl []
normalize_requested_scopes trim no_list = inr not_texts
normalize_requested_scopes trim (items_of items) = add_scopes trim items []
