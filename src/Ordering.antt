-- ===== src/Ordering.antt =====
-- The order of indexed events: src/services/eventOrdering.ts, the grouping of sorted events by
-- transaction, and in `Sorting` their comparison and sort.
pub mod Groups
pub mod Sorting
pub mod Normalize
mod Examples
use scout_off_backend.Prelude.{
  ℕ, String, Bool, false, ◌&&◌, Option, List, [], ◌∷◌, ◌++◌, ◌==◌, str_eq, if◌then◌else◌,
}

-- An event of the RPC; topics, value and close time as the texts that carry them.
pub record RawIndexerEvent : Type 0 where
  pub ledger : ℕ
  pub tx_hash : String
  pub id : Option String
  pub contract_id : Option String
  pub topic : List String
  pub value : Option String
  pub ledger_closed_at : Option String
  pub ledger_hash : Option String
  pub paging_token : Option String
  pub tx_index : Option ℕ
  pub event_index : Option ℕ

-- `OrderedEventFields` with the raw event, the one instance that the code sorts and groups.
pub record NormalizedIndexerEvent : Type 0 where
  pub ledger : ℕ
  pub tx_application_order : ℕ
  pub event_index : ℕ
  pub contract_id : String
  pub tx_hash : String
  pub raw : RawIndexerEvent

abbrev pub same_transaction : NormalizedIndexerEvent → NormalizedIndexerEvent → Bool
same_transaction a b =
    (a.ledger == b.ledger)
    && ((a.tx_application_order == b.tx_application_order) && str_eq a.tx_hash b.tx_hash)

-- The test on `last[0]`.
abbrev pub joins : List NormalizedIndexerEvent → NormalizedIndexerEvent → Bool
joins [] event = false
joins (first ∷ rest) event = same_transaction first event

-- One round of the loop; the last group is at the end.
unfoldable pub add_event :
    List (List NormalizedIndexerEvent) → NormalizedIndexerEvent → List (List NormalizedIndexerEvent)
add_event [] event = (event ∷ []) ∷ []
add_event (last ∷ []) event =
    if joins last event then (last ++ event ∷ []) ∷ [] else last ∷ (event ∷ []) ∷ []
add_event (group ∷ next ∷ groups) event = group ∷ add_event (next ∷ groups) event

unfoldable pub add_events :
    List (List NormalizedIndexerEvent)
    → List NormalizedIndexerEvent
    → List (List NormalizedIndexerEvent)
add_events groups [] = groups
add_events groups (event ∷ events) = add_events (add_event groups event) events

unfoldable pub group_co_transaction_events :
    List NormalizedIndexerEvent → List (List NormalizedIndexerEvent)
unfolding add_events
group_co_transaction_events events = add_events [] events
