-- ===== src/Indexer/Promotion.antt =====
-- The tier that an approved milestone gives its player.
use scout_off_backend.Prelude.{
  ℕ, ◌+◌, ◌≡◌, refl, ap, ◌∙◌, String, true, false, Option, none, some, List, [], ◌∷◌, ◌++◌, str_eq,
  if◌then◌else◌, arith, eq_refl, Bool-cases, inl, inr,
}
use scout_off_backend.Tiers.{tier_for_approved_milestones}
use scout_off_backend.Ordering.{NormalizedIndexerEvent}
use scout_off_backend.Indexer.{
  Payload, EventRow, PlayerRow, Store, insert_event, get_events_count, update_player_progress,
}
use scout_off_backend.Indexer.Effects.{
  Context, is_known_event_type, resolve_player, side_effects, or_empty, text,
}
use scout_off_backend.Indexer.Apply.{closed_at, apply_one, after_insert, apply_decoded, event_row}
use scout_off_backend.Indexer.Accounts.{stored}
use scout_off_backend.Indexer.Rows.{apply_one_decoded, after_insert_accepted}

-- The level of the first player with the id.
unfoldable pub level_of : String → List PlayerRow → Option ℕ
level_of id [] = none
level_of id (r ∷ rows) = if str_eq r.player_id id then some r.progress_level else level_of id rows

level_of-update :
    (id : String) (level old : ℕ) (rows : List PlayerRow)
    → level_of id rows ≡ some old
    → level_of id (update_player_progress id level rows) ≡ some level
unfolding level_of update_player_progress
level_of-update id level old [] h = cc h
level_of-update id level old (r ∷ rows) h = elim (Bool-cases (str_eq r.player_id id)) [
  | inl here ↦ rw (here, here) refl
  | inr there ↦ rw (there, there) (level_of-update id level old rows (ground (arith, h, there)))
]

get_events_count-append :
    (id : String) (rows : List EventRow) (r : EventRow)
    → r.event_type ≡ "milestone_approved"
    → r.payload "player_id" ≡ some id
    → get_events_count "milestone_approved" id (rows ++ r ∷ [])
      ≡ get_events_count "milestone_approved" id rows + 1
unfolding get_events_count
get_events_count-append id [] r type player = rw (type, player, eq_refl id) refl
get_events_count-append id (q ∷ rows) r type player =
    ground (arith, get_events_count-append id rows r type player)

approved_known : is_known_event_type "milestone_approved" ≡ true
unfolding is_known_event_type
approved_known = refl

side_effects-approved :
    (p : Payload) (at ledger : ℕ) (s : Store) (id : String)
    → p "player_id" ≡ some id
    → str_eq id "" ≡ false
    → (side_effects "milestone_approved" p at ledger s).players
      ≡ update_player_progress id
          (tier_for_approved_milestones (get_events_count "milestone_approved" id s.events))
          s.players
unfolding side_effects
side_effects-approved p at ledger s id player named =
    let t : text p "player_id" ≡ id = ap or_empty player in rw t (rw named refl)

after_insert-approved :
    (c : Context) (p : Payload) (e : NormalizedIndexerEvent) (s : Store) (id : String)
    → c.refuses e.tx_hash e.event_index ≡ false
    → p "player_id" ≡ some id
    → str_eq id "" ≡ false
    → (after_insert c "milestone_approved" p e (s, true)).store.players
      ≡ update_player_progress id
          (tier_for_approved_milestones (get_events_count "milestone_approved" id s.events))
          s.players
after_insert-approved c p e s id accepted player named =
    ap (λ t. t.players) (after_insert_accepted c "milestone_approved" p e s approved_known accepted)
    ∙ side_effects-approved p (closed_at c e.raw.ledger_closed_at) e.raw.ledger s id player named

-- A new milestone_approved event of a player, not refused by the database, gives the player the
-- tier of the number of approved milestones that were recorded for the player before it and one.
pub apply_one-promotes :
    (c : Context) (e : NormalizedIndexerEvent) (s : Store) (p : Payload) (id : String) (old : ℕ)
    → c.normalize_soroban_event e.raw.topic e.raw.value ≡ some ("milestone_approved", p)
    → stored e s ≡ false
    → c.refuses e.tx_hash e.event_index ≡ false
    → resolve_player c e.tx_hash e.event_index "milestone_approved" p s "player_id" ≡ some id
    → str_eq id "" ≡ false
    → level_of id s.players ≡ some old
    → level_of id (apply_one c e s).store.players
      ≡ some (tier_for_approved_milestones (get_events_count "milestone_approved" id s.events + 1))
unfolding apply_decoded insert_event
apply_one-promotes c e s p id old found new accepted player named there =
    let p' = resolve_player c e.tx_hash e.event_index "milestone_approved" p s in
    let r = event_row c "milestone_approved" p' e in
    let s' : Store = record s { events = s.events ++ r ∷ [] } in
    let count = get_events_count-append id s.events r refl player in
    let level = tier_for_approved_milestones (get_events_count "milestone_approved" id s'.events) in
    rw (apply_one_decoded c e s "milestone_approved" p found) (
      rw (approved_known, new)
        (rw (after_insert-approved c p' e s' id accepted player named) (
          level_of-update id level old s.players there
          ∙ ap (λ n. some (tier_for_approved_milestones n)) count)))
