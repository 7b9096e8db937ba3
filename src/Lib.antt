-- ===== src/Lib.antt =====
-- GrowthTrack: WhatsApp messages to sales teams, with the nightly import, the daily report, the
-- directory, the sign-in and the HTTP routes around them.
--
-- How the parts interact. A service of domain/ reads and writes tables through the repositories of
-- adapters/persistence/, inside one transaction, and writes an audit entry beside each change. The
-- messaging service resolves a selection to users, creates delivery rows and hands the messages to
-- Twilio; callbacks of Twilio and the retry job move the rows on. The import fills the tables of sales,
-- brands and doctors, from which the daily report takes its figures. A route, or a job of the
-- scheduler, opens a session, calls one service, and commits or rolls back.
--
-- Which file models which part:
--   Models       domain/models.py
--   Session      the transaction: the tables, the committed tables, the messages handed over, and
--                the number of calls to the outside so far; a session is a function from a world to
--                an outcome and a world, and an exception keeps the world it was raised in
--   Persistence  adapters/persistence/, a child for each repository; Upsert is what the repositories
--                of the imported tables share
--   Notifications  domain/notifications.py: Resolution (RecipientResolutionService), Dispatch
--                (dispatch_deliveries), TemplateDirectory, Compose (ManualNotificationService),
--                Webhook (DeliveryStatusWebhookService); Delivery and Retry on the budget of a row,
--                and Lifecycle, an abstract machine of the life of a row
--   Directory    domain/recipients.py and domain/administrators.py
--   Auth         domain/auth.py, password_reset.py, bootstrap.py, sessions.py, preferences.py,
--                get_current_session of api/auth/dependencies.py and, in Tokens, api/auth/tokens.py
--   Schedule     domain/report_schedule.py, the conversions of api/settings/routes.py and
--                _should_run_daily_report of scheduler/main.py
--   Metrics      the classification of brands and the visit list of domain/metrics.py
--   Ingestion    domain/ingestion.py and adapters/source_system/csv_importer.py: CsvImporter, Validation,
--                Transform, Pipeline (_run_pipeline) and Run (SourceSystemImportService.run)
--   Reports      Dashboard (the summary of domain/metrics.py), Formatting
--                (domain/report_formatting.py), Content (domain/daily_report.py) and Scheduled
--                (domain/scheduled_notifications.py)
--   Config       config.py, and the jobs that the scheduler registers with it
--   Twilio       adapters/whatsapp_twilio/: what is sent, and the check of a callback's signature
--   Scheduler    the three jobs of scheduler/main.py
--   Api          api/: a child for each group of routes, and Replies for what they share
--   System       the requests that api/main.py routes and the jobs of scheduler/main.py, each in a
--                session of its own, and what holds after any sequence of them
--   Effects      which statements each service, route and job executes: a relation between the worlds
--                before and after that every such statement keeps is kept by all of them
--   Prelude, RowLaws, SortLaws, TextLaws, SessionLaws  names and laws that all parts share
--   Tests        runs on a sample directory
-- Functions keep the names of the code. A long method is cut at its guards into helpers that stand
-- before it.
--
-- How the code is rendered. A UUID is a natural number, an instant and a time span a number of
-- microseconds. A table is a list of rows, the newest first; a WHERE clause is a filter, and an
-- UPDATE a map over the rows that it matches. A SELECT by primary key finds the first row with the
-- key; where a theorem needs keys to be different, it says so. scalar_one_or_none raises on two
-- rows, as in SQLAlchemy. Loops over lists are structural recursion, so that no fuel is needed.
-- uuid4, the clock, Twilio, password hashing, secrets, SHA-256, str.lower and the text of a KeyError
-- are the record Env, a parameter: each answer may depend on the number of calls made before. The
-- offset of Asia/Dhaka is a parameter too.
--
-- Parsers of dates, Decimals and integers, the csv library, the JWT library and the calendar are
-- parameters as well. A Decimal is a whole number of a unit that all of them have in common, and a
-- quotient of two is a fraction, where Python rounds to 28 digits. Within one transaction no other
-- changes the tables; that a concurrent request has taken a unique key is an answer at the commit.
--
-- Not modelled: foreign keys; waiting for a lock, which only orders transactions; logging; FastAPI's
-- checks of requests, cookies and the texts of messages; reading the environment; the web client,
-- migrations, the script that seeds demonstration data, and deployment. They are input and output,
-- code of libraries that the repository only calls, or not part of the running program.
pub mod Prelude
pub mod RowLaws
pub mod SortLaws
pub mod TextLaws
pub mod Models
pub mod Session
pub mod SessionLaws
pub mod Effects
pub mod Persistence
pub mod Notifications
pub mod Directory
pub mod Auth
pub mod Schedule
pub mod Config
pub mod Reports
pub mod Scheduler
pub mod Api
pub mod Twilio
pub mod Metrics
pub mod Ingestion
pub mod System
pub mod Tests
