-- ===== src/Api/Replies.antt =====
-- Replies, and what the `except` branches of the routes share.
use growth_track.Session.{
  Exc, Session, return, external, ◌>>=◌, ◌>>◌, commit, rollback, World, Outcome, ok, raised,
}
use growth_track.Prelude.{ℕ, String, Bool, true, false, Option, none, some}

-- A body; an HTTPException with its status and code; a version conflict with the current body; or
-- the answer to an exception that no branch names. A route without such branches passes an exception
-- on as it is.
pub data Reply (A : Type 0) : Type 0 where
  done : A → Reply A
  refused : ℕ → String → Reply A
  conflict : A → Reply A
  server_error : Reply A

-- A status and a code.
abbrev pub HttpError : Type 0
HttpError = ℕ × String

module _ {A : Type 0} where
  -- `await session.commit(); raise ...`
  abbrev pub commit_and_refuse : HttpError → Session (Reply A)
  commit_and_refuse (status, code) = commit >> return (refused status code)

  abbrev pub rollback_and_refuse : HttpError → Session (Reply A)
  rollback_and_refuse (status, code) = rollback >> return (refused status code)

  -- The branch of an exception, if there is one. Otherwise the session is closed, which discards
  -- what was not committed.
  abbrev pub refuse_listed : Option HttpError → Session (Reply A)
  refuse_listed (some error) = commit_and_refuse error
  refuse_listed none = rollback >> return server_error

  abbrev pub after_commit : HttpError → Session (Reply A) → Bool → Session (Reply A)
  after_commit error m true = rollback_and_refuse error
  after_commit error m false = commit >> m

  -- `try: commit except IntegrityError: rollback; raise`. Whether a concurrent request has taken the
  -- unique key in the meantime, the database tells.
  abbrev pub commit_or : (ℕ → Bool) → HttpError → Session (Reply A) → Session (Reply A)
  commit_or races error m = do raced ← external races; after_commit error m raced

module _ {A B : Type 0} where
  abbrev pub settle_call :
      (Exc → Session (Reply B))
      → (A → Session (Reply B))
      → Outcome A × World
      → Outcome (Reply B) × World
  settle_call failed succeeded (ok a, w) = succeeded a w
  settle_call failed succeeded (raised e, w) = failed e w

  -- `try: a = await service... except ...`, and what follows.
  abbrev pub answering :
      (Exc → Session (Reply B)) → (A → Session (Reply B)) → Session A → Session (Reply B)
  answering failed succeeded m w = settle_call failed succeeded (m w)

abbrev pub not_found : HttpError
not_found = (404, "not_found")
