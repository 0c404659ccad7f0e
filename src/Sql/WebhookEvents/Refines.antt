-- ===== src/Sql/WebhookEvents/Refines.antt =====
-- The table of webhook deliveries and the map of the in-memory repository that it stands for.
use gateway_orchestrator.Prelude.{
  ◌≡◌, ◌≢◌, refl, ◌∙◌, ap, String, Bool, true, false, Option, none, some, List, ◌==◌, arith, Map,
  if◌then◌else◌,
}
use mathlib.Core.Option.{map}
use gateway_orchestrator.Domain.Records.{WebhookEvent, WebhookEventRecord}
use gateway_orchestrator.Repositories.WebhookEvents as Memory
use gateway_orchestrator.Sql.{Json, select_first, insert_row}
use gateway_orchestrator.Sql.Tables
use gateway_orchestrator.Sql.Tables.{Each, Distinct}
use gateway_orchestrator.Sql.WebhookEvents.{
  WebhookEventRow, map_webhook_event_row, webhook_event_row, set_webhook_event, has_dedupe_key,
  clashes, create, find_by_dedupe_key, update,
}

-- The JSON column returns the event that it was given, and nothing where there was none.
pub data Delivers {C : Type 0} (json : Json C WebhookEvent) : Option WebhookEvent → Type 0 where
  no_event : json.is_set (json.to_json none) ≡ false → Delivers json none
  event :
      {e : WebhookEvent}
      → json.is_set (json.to_json (some e)) ≡ true
      → json.from_json (json.to_json (some e)) ≡ e
      → Delivers json (some e)

module _ {C : Type 0} (json : Json C WebhookEvent) where
  event_round_trip :
      (e : Option WebhookEvent)
      → Delivers json e
      → (if json.is_set (json.to_json e) then some (json.from_json (json.to_json e)) else none) ≡ e
  event_round_trip none (no_event f) = rw f refl
  event_round_trip (some e) (event t d) = rw t (ap some d)

  -- A delivery comes back as it was stored, if the JSON column returns its event.
  pub webhook_event_round_trip :
      (r : WebhookEventRecord)
      → Delivers json r.event
      → map_webhook_event_row json (webhook_event_row json r) ≡ r
  unfolding map_webhook_event_row webhook_event_row
  webhook_event_round_trip r d = rw (event_round_trip r.event d) refl

  -- The in-memory store that a table stands for.
  abbrev pub view : List (WebhookEventRow C) → Map WebhookEventRecord
  view rows = Tables.view (λ row. row.dedupe_key) (map_webhook_event_row json) rows

  -- The update of a row with the record's identifier, key and time of creation.
  set-row :
      (r : WebhookEventRecord) (row : WebhookEventRow C)
      → row.id ≡ r.id
      → row.dedupe_key ≡ r.dedupe_key
      → row.created_at ≡ r.created_at
      → set_webhook_event json r row ≡ webhook_event_row json r
  unfolding set_webhook_event webhook_event_row
  set-row r row i d c = rw (i, d, c) refl

  module _ (same : String → String → Bool) where
    -- The query by dedupe key returns what the in-memory repository has under it, where the column compares
    -- the stored keys with that one exactly.
    pub find_by_dedupe_key_refines :
        (dedupe_key : String) (rows : List (WebhookEventRow C))
        → Each (λ row. same row.dedupe_key dedupe_key ≡ (row.dedupe_key == dedupe_key)) rows
        → find_by_dedupe_key json same dedupe_key rows
          ≡ Memory.find_by_dedupe_key (view rows) dedupe_key
    unfolding find_by_dedupe_key Memory.find_by_dedupe_key
    find_by_dedupe_key_refines dedupe_key rows h =
        Tables.select_first-view (λ row. row.dedupe_key) (map_webhook_event_row json)
          (has_dedupe_key json same dedupe_key) dedupe_key rows h

    -- Where the JSON column returns the record's event, the dedupe keys are distinct and compare
    -- exactly, and the record is stored with the identifier and the time of creation that it has,
    -- the table stands after `update` for the map that the in-memory repository has.
    pub update_event_refines :
        (r old : WebhookEventRecord) (rows : List (WebhookEventRow C))
        → Delivers json r.event
        → Distinct (λ row. row.dedupe_key) (map_webhook_event_row json) rows
        → Each (λ row. same row.dedupe_key r.dedupe_key ≡ (row.dedupe_key == r.dedupe_key)) rows
        → Memory.find_by_dedupe_key (view rows) r.dedupe_key ≡ some old
        → old.id ≡ r.id
        → old.created_at ≡ r.created_at
        → view (update json same r rows) ≡ Memory.update (view rows) r
    unfolding update Memory.update Memory.find_by_dedupe_key set_webhook_event map_webhook_event_row
    update_event_refines r old rows j d e f i t =
        Tables.view-update (λ row. row.dedupe_key) (map_webhook_event_row json)
          (has_dedupe_key json same r.dedupe_key) (set_webhook_event json r) r.dedupe_key r rows e
          (Tables.Each-map
            (λ row k at_key. (
              at_key,
              ap (map_webhook_event_row json) (
                    set-row r row (ap (λ x. x.id) (k at_key) ∙ i) at_key
                      (ap (λ x. x.created_at) (k at_key) ∙ t))
                  ∙ webhook_event_round_trip r j,
            ))
            rows
            (Tables.Each-of_get (λ row. row.dedupe_key) (map_webhook_event_row json) r.dedupe_key
              old rows d f))
          d (Tables.found f)

    some_first :
        (dedupe_key : String) (rows : List (WebhookEventRow C))
        → find_by_dedupe_key json same dedupe_key rows ≢ none
        → select_first (has_dedupe_key json same dedupe_key) rows ≢ none
    unfolding find_by_dedupe_key
    some_first dedupe_key rows found none_first =
        found (ap (map (map_webhook_event_row json)) none_first)

    -- The database refuses a second record with a dedupe key that the query finds, whatever the two are otherwise.
    pub second_event_refused :
        (r : WebhookEventRecord) (rows : List (WebhookEventRow C))
        → find_by_dedupe_key json same r.dedupe_key rows ≢ none
        → create json same r rows ≡ none
    unfolding create insert_row clashes webhook_event_row
    second_event_refused r rows found =
        rw
          (Tables.has_row-of_first (has_dedupe_key json same r.dedupe_key)
            (clashes json same (webhook_event_row json r)) rows (λ row h. ground arith)
            (some_first r.dedupe_key rows found))
          refl
