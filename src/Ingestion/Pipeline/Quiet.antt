-- ===== src/Ingestion/Pipeline/Quiet.antt =====
-- The pipeline leaves the commit to its caller.
use growth_track.Session.{Env}
use growth_track.SessionLaws.{IsQuiet}
use growth_track.Effects.{Relation, Allows}
use growth_track.Effects.Import.{run_pipeline-Obeys}
use growth_track.Ingestion.Source.{Source}
use growth_track.Ingestion.Pipeline.{run_pipeline}
use growth_track.Prelude.{ℕ, ◌≡◌, refl, ◌∙◌}

abbrev Quiet : Relation
Quiet w v = (v.committed ≡ w.committed) × (v.outbox ≡ w.outbox)

Allows-Quiet : Allows Quiet
Allows-Quiet = record {
  stays = λ w. (refl, refl);
  follows = λ u v w h q. (q.0 ∙ h.0, q.1 ∙ h.1);
  calls = λ n w. (refl, refl);
  users = λ xs w. (refl, refl);
  teams = λ xs w. (refl, refl);
  recipient_lists = λ xs w. (refl, refl);
  recipient_list_members = λ xs w. (refl, refl);
  opt_in_consents = λ xs w. (refl, refl);
  message_templates = λ xs w. (refl, refl);
  notifications = λ xs ys w. (refl, refl);
  report_schedules = λ xs w. (refl, refl);
  doctors = λ xs w. (refl, refl);
  brand_performance = λ xs w. (refl, refl);
  sales_data = λ xs w. (refl, refl);
  import_runs = λ xs w. (refl, refl);
  staging_sales_data = λ xs w. (refl, refl);
  staging_brand_performance = λ xs w. (refl, refl);
  staging_doctors = λ xs w. (refl, refl);
  audit = λ entry w. (refl, refl);
  revoke = λ jti at w. (refl, refl);
  add_token = λ token w. (refl, refl);
  mark_used = λ id at w. (refl, refl);
  insert = λ rows table w h. (refl, refl);
  touch = λ p f k w. (refl, refl);
}

pub run_pipeline-IsQuiet :
    (env : Env) (source : Source) (run_id : ℕ) → IsQuiet (run_pipeline env source run_id)
run_pipeline-IsQuiet env source run_id =
    let h = run_pipeline-Obeys Quiet Allows-Quiet env source run_id in
    record { keeps_committed = λ w. (h.obeys w).0; keeps_outbox = λ w. (h.obeys w).1 }
