-- ===== src/Tests/Program.antt =====
-- The theorems on sequences of requests and jobs, on the sample.
use growth_track.Models.{AuditLogEntry, NotificationType}
use growth_track.Session.{Database, Exc, World, raised, ok}
use growth_track.Api.Auth as Auth
use growth_track.Auth.Tokens.{TokenContext}
use growth_track.Auth.Sessions.{granted, get_current_session}
use growth_track.Auth.PasswordReset.{complete_reset}
use growth_track.Scheduler.{run_daily_report_job}
use growth_track.System.{Setup, Action, Request, signed_in, handle, serve_all}
use growth_track.System.AuditLog.{serve_all-appends}
use growth_track.System.DailyReport.{run_daily_report_job-once}
use growth_track.System.SignOut.{logout-lasts}
use growth_track.System.ResetTokens.{complete_reset-once_ever}
use growth_track.Tests.Jobs.{context, waiting}
use growth_track.Tests.SignIn.{policy, claims, session}
use growth_track.Tests.Samples.{sample_env, sample_db, sample_world, queued_row}
use growth_track.Prelude.{◌≡◌, ◌≢◌, refl, true, false, none, some, List, [], ◌∷◌, ◌++◌}

abbrev tokens : TokenContext
tokens = record {
  encode = λ payload key. "jwt";
  decode = λ now token key. none;
  str = λ id. "1";
  uuid = λ text. some 1;
  jwt_signing_key = "key";
  jwt_expiry_minutes = 480;
}

abbrev setup : Setup
setup = record {
  env = sample_env;
  context = context;
  policy = policy;
  password_reset_token_ttl = 3600000000;
  offset = 360;
  dhaka_day = λ now. 5;
  backoff = waiting;
  races = λ k. false;
  tokens = tokens;
  verified = λ params signature. true;
}

abbrev requests : List Request
requests =
    signed_in (some claims) (Action.create_team "Sylhet")
    ∷ Request.daily_report
    ∷ Request.retry_failed_deliveries
    ∷ []

-- One delivery, of the report of day 5.
abbrev reported_db : Database
reported_db = record sample_db {
  notification_deliveries =
      record queued_row { notification_type = NotificationType.scheduled; operational_day = some 5 }
      ∷ [];
}

abbrev reported : World
reported = record sample_world { db = reported_db; committed = reported_db }

serve_all-appends_example :
    (added : List AuditLogEntry) × ((serve_all setup requests
        sample_world).committed.audit_log_entries
      ≡ added ++ sample_world.committed.audit_log_entries)
serve_all-appends_example = serve_all-appends setup requests sample_world refl

run_daily_report_job-once_example :
    ((run_daily_report_job context sample_env
        (λ now. 5)
        (serve_all setup requests reported)).1.committed
      ≡ (serve_all setup requests reported).committed)
    × ((run_daily_report_job context sample_env
          (λ now. 5)
          (serve_all setup requests reported)).1.outbox
        ≡ (serve_all setup requests reported).outbox)
run_daily_report_job-once_example =
    run_daily_report_job-once setup requests reported 5 refl refl refl

logout-lasts_example :
    (get_current_session
      (some claims)
      (serve_all setup (signed_in (some claims) Action.logout ∷ requests) sample_world)).0
    ≢ ok (granted session)
unfolding get_current_session
logout-lasts_example = logout-lasts setup requests sample_world claims session session refl

complete_reset-once_ever_example :
    ((e : Exc) × ((complete_reset sample_env "token" "other"
          (serve_all setup (Request.reset_password "token" "fresh" ∷ requests) sample_world)).0
        ≡ raised e))
    × ((complete_reset sample_env "token" "other"
          (serve_all setup (Request.reset_password "token" "fresh" ∷ requests) sample_world)).1.db
        ≡ (serve_all setup (Request.reset_password "token" "fresh" ∷ requests) sample_world).db)
unfolding handle complete_reset Auth.reset_password
complete_reset-once_ever_example =
    complete_reset-once_ever setup requests sample_world "token" "fresh" "other" refl
