-- ===== src/Ordering/Examples.antt =====
-- Tests of the ordinals, the grouping and the sort, and their theorems at three events.
use scout_off_backend.Prelude.{
  refl, if◌then◌else◌, ◌≤◌, ℕ, some, Option, List, String, Bool, true, false, ◌&&◌, str_eq, eq_iff,
  arith, inl, inr, Bool-cases, ◌≡◌, none, [], ◌∷◌,
}
use scout_off_backend.Ordering.{
  RawIndexerEvent, NormalizedIndexerEvent, group_co_transaction_events,
}
use scout_off_backend.Ordering.Sorting.{compare_event_ordinals}
use scout_off_backend.Ordering.Normalize.{normalize_and_sort_events, parse_event_id_ordinals}
use scout_off_backend.Ordering.Normalize.Distinct.{count_key, normalize_and_sort_events-distinct}
use scout_off_backend.Ordering.Groups.{flatten, AreGroups, group_co_transaction_events-splits}

abbrev raw_event : RawIndexerEvent
raw_event = record {
  ledger = 7;
  tx_hash = "t";
  id = none;
  contract_id = none;
  topic = [];
  value = none;
  ledger_closed_at = none;
  ledger_hash = none;
  paging_token = none;
  tx_index = none;
  event_index = none;
}

abbrev paid : NormalizedIndexerEvent
paid = record {
  ledger = 7;
  tx_application_order = 0;
  event_index = 0;
  contract_id = "C";
  tx_hash = "t";
  raw = raw_event;
}

abbrev noted : NormalizedIndexerEvent
noted = record paid { event_index = 1 }

abbrev later : NormalizedIndexerEvent
later = record paid { tx_application_order = 1; tx_hash = "u" }

group_co_transaction_events-splits_example :
    (flatten (group_co_transaction_events (paid ∷ noted ∷ later ∷ [])) ≡ paid ∷ noted ∷ later ∷ [])
    × AreGroups (group_co_transaction_events (paid ∷ noted ∷ later ∷ []))
group_co_transaction_events-splits_example =
    group_co_transaction_events-splits (paid ∷ noted ∷ later ∷ [])

-- The order of texts that puts "C" before "D" and no other.
abbrev c_first : String → String → Bool
c_first a b = str_eq a "C" && str_eq b "D"

c_first-asym : (a b : String) → c_first a b ≡ true → c_first b a ≡ false
c_first-asym a b h = elim (Bool-cases (str_eq a "D")) [
  | inl d ↦
      let second : str_eq b "D" ≡ true = ground (arith, h) in rw ((eq_iff b "D").0 second) refl
  | inr n ↦ rw n (ground arith)
]

-- An id is its own only part, and no part is a number.
abbrev whole : String → List String
whole id = id ∷ []

abbrev no_number : String → Option ℕ
no_number text = none

abbrev opaque_event : RawIndexerEvent
opaque_event = record raw_event { id = some "opaque" }

normalize_and_sort_events-distinct_example :
    count_key "t" 0 (
      normalize_and_sort_events whole no_number "C" c_first
        (raw_event ∷ opaque_event ∷ raw_event ∷ []))
    ≤ 1
unfolding parse_event_id_ordinals
normalize_and_sort_events-distinct_example =
    normalize_and_sort_events-distinct whole no_number "C" c_first
      (raw_event ∷ opaque_event ∷ raw_event ∷ []) "t" 0 (refl, refl, (refl, refl, (refl, refl, tt)))

-- The second event of a transaction gets the index 1, the third 2.
counts_up :
    count_key "t" 2 (
      normalize_and_sort_events whole no_number "C" c_first
        (raw_event ∷ opaque_event ∷ raw_event ∷ []))
    ≡ 1
unfolding normalize_and_sort_events count_key parse_event_id_ordinals compare_event_ordinals
counts_up = refl

-- With an id of three numbers the index is the third.
reads_the_id :
    count_key "t" 5 (
      normalize_and_sort_events
        (λ id. "7" ∷ "1" ∷ "5" ∷ [])
        (λ t. some (if str_eq t "5" then 5 else 1))
        "C"
        c_first
        (opaque_event ∷ raw_event ∷ []))
    ≡ 1
unfolding normalize_and_sort_events count_key parse_event_id_ordinals compare_event_ordinals
reads_the_id = refl
