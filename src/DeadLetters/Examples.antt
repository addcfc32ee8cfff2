-- ===== src/DeadLetters/Examples.antt =====
-- Tests of a sweep, and its theorems at a queue of two rows.
use scout_off_backend.Prelude.{◌≡◌, refl, String, Bool, true, Option, none, some, List, [], ◌∷◌}
use scout_off_backend.DeadLetters.Table.{
  WebhookDeadLetter, pending, in_progress, get_webhook_dead_letter_by_id,
}
use scout_off_backend.DeadLetters.Job.{
  Times, process_row, run_dead_letter_retry_job, find_by_id, find_by_url,
}
use scout_off_backend.DeadLetters.Job.Round.{process_row-settles}
use scout_off_backend.DeadLetters.Job.Sweep.{run_dead_letter_retry_job-keeps}

-- A row that waits.
abbrev waiting : WebhookDeadLetter
waiting = record {
  id = 2;
  subscription_id = some 9;
  url = "u";
  event_type = "e";
  payload = "{}";
  delivery_id = "d";
  failure_reason = "500";
  attempts = 3;
  status = pending;
  locked_by = none;
  locked_at = none;
  created_at = "a";
  replayed_at = none;
}

-- A row whose worker crashed.
abbrev crashed : WebhookDeadLetter
crashed = record waiting {
  id = 1;
  status = in_progress;
  locked_by = some "w0";
  locked_at = some "a";
}

abbrev queue : List WebhookDeadLetter
queue = waiting ∷ crashed ∷ []

abbrev always : String → String → Bool
always a b = true

abbrev times : Times
times = record { now = "z"; cutoff = "y"; stale = "x" }

abbrev refused : WebhookDeadLetter → Option String
refused r = some "timeout"

abbrev accepted : WebhookDeadLetter → Option String
accepted r = none

process_row-settles_example :
    ((process_row [] "w1" "z" refused waiting queue).0 ≡ 0)
    × (get_webhook_dead_letter_by_id 2 (process_row [] "w1" "z" refused waiting queue).1
        ≡ some (record waiting { attempts = 4; failure_reason = "timeout" }))
unfolding get_webhook_dead_letter_by_id find_by_id find_by_url
process_row-settles_example =
    process_row-settles [] "w1" "z" refused waiting waiting queue refl refl refl

run_dead_letter_retry_job-keeps_example :
    get_webhook_dead_letter_by_id 1
      (run_dead_letter_retry_job always always times [] "w1" accepted queue).1
    ≡ some crashed
unfolding get_webhook_dead_letter_by_id
run_dead_letter_retry_job-keeps_example =
    run_dead_letter_retry_job-keeps always always times [] "w1" accepted queue 1 crashed refl refl
