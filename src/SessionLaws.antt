-- ===== src/SessionLaws.antt =====
-- Sessions that neither commit nor roll back and hand over no message, and sessions that only read.
use growth_track.Session.{
  Exc, Session, return, raise, query, external, write, resume, ◌>>=◌, ◌>>◌, raise_if, Database,
  World, Outcome, ok, raised,
}
use growth_track.Prelude.{ℕ, subst, ◌≡◌, refl, sym, ◌∙◌, Bool, true, false}

pub record IsQuiet {A : Type 0} (m : Session A) : Type 0 where
  pub keeps_committed : (w : World) → (m w).1.committed ≡ w.committed
  pub keeps_outbox : (w : World) → (m w).1.outbox ≡ w.outbox

module _ {A : Type 0} where
  pub return-IsQuiet : (a : A) → IsQuiet (return a)
  return-IsQuiet a = record { keeps_committed = λ w. refl; keeps_outbox = λ w. refl }

  pub raise-IsQuiet : (e : Exc) → IsQuiet (raise {A = A} e)
  raise-IsQuiet e = record { keeps_committed = λ w. refl; keeps_outbox = λ w. refl }

  pub query-IsQuiet : (f : Database → A) → IsQuiet (query f)
  query-IsQuiet f = record { keeps_committed = λ w. refl; keeps_outbox = λ w. refl }

  pub external-IsQuiet : (f : ℕ → A) → IsQuiet (external f)
  external-IsQuiet f = record { keeps_committed = λ w. refl; keeps_outbox = λ w. refl }

pub write-IsQuiet : (f : Database → Database) → IsQuiet (write f)
write-IsQuiet f = record { keeps_committed = λ w. refl; keeps_outbox = λ w. refl }

pub raise_if-IsQuiet : (b : Bool) (e : Exc) → IsQuiet (raise_if b e)
raise_if-IsQuiet true e = raise-IsQuiet e
raise_if-IsQuiet false e = return-IsQuiet tt

module _ {A B : Type 0} where
  resume-quiet :
      (x : Outcome A × World) (k : A → Session B)
      → ((a : A) → IsQuiet (k a))
      → ((resume x k).1.committed ≡ x.1.committed) × ((resume x k).1.outbox ≡ x.1.outbox)
  resume-quiet (ok a, w) k h = ((h a).keeps_committed w, (h a).keeps_outbox w)
  resume-quiet (raised e, w) k h = (refl, refl)

  pub bind-IsQuiet :
      (m : Session A) (k : A → Session B)
      → IsQuiet m
      → ((a : A) → IsQuiet (k a))
      → IsQuiet (m >>= k)
  bind-IsQuiet m k h q = record {
    keeps_committed = λ w. (resume-quiet (m w) k q).0 ∙ h.keeps_committed w;
    keeps_outbox = λ w. (resume-quiet (m w) k q).1 ∙ h.keeps_outbox w;
  }

pub then-IsQuiet :
    {A B : Type 0} (m : Session A) (n : Session B) → IsQuiet m → IsQuiet n → IsQuiet (m >> n)
then-IsQuiet m n h q = bind-IsQuiet m (λ a. n) h (λ a. q)

-- The rules that follow the structure of a do block.
pub ruleset quiet = (
  bind-IsQuiet, then-IsQuiet, return-IsQuiet, raise-IsQuiet, query-IsQuiet, external-IsQuiet,
  write-IsQuiet, raise_if-IsQuiet,
)

-- Sessions that leave the world as it was, up to the number of calls.
pub record IsReading {A : Type 0} (m : Session A) : Type 0 where
  pub only_calls : (w : World) → (m w).1 ≡ record w { calls = (m w).1.calls }

module _ {A : Type 0} where
  pub return-IsReading : (a : A) → IsReading (return a)
  return-IsReading a = record { only_calls = λ w. refl }

  pub raise-IsReading : (e : Exc) → IsReading (raise {A = A} e)
  raise-IsReading e = record { only_calls = λ w. refl }

  pub query-IsReading : (f : Database → A) → IsReading (query f)
  query-IsReading f = record { only_calls = λ w. refl }

  pub external-IsReading : (f : ℕ → A) → IsReading (external f)
  external-IsReading f = record { only_calls = λ w. refl }

module _ {A B : Type 0} (k : A → Session B) where
  resume-calls :
      (x : Outcome A × World) (w : World)
      → ((a : A) → IsReading (k a))
      → x.1 ≡ record w { calls = x.1.calls }
      → (resume x k).1 ≡ record w { calls = (resume x k).1.calls }
  resume-calls (raised e, v) w h q = q
  resume-calls (ok a, v) w h q =
      subst (λ u. (k a u).1 ≡ record w { calls = (k a u).1.calls }) (sym q)
        ((h a).only_calls (record w { calls = v.calls }))

  pub bind-IsReading :
      (m : Session A) → IsReading m → ((a : A) → IsReading (k a)) → IsReading (m >>= k)
  bind-IsReading m h q = record { only_calls = λ w. resume-calls (m w) w q (h.only_calls w) }

  -- What follows a session that only reads starts in the same world, up to the number of calls.
  resume-after :
      (P : Outcome B × World → Type 0) (x : Outcome A × World) (w : World)
      → x.1 ≡ record w { calls = x.1.calls }
      → ((e : Exc) (n : ℕ) → P (raised e, record w { calls = n }))
      → ((a : A) (n : ℕ) → P (k a (record w { calls = n })))
      → P (resume x k)
  resume-after P (raised e, v) w q h g = subst (λ u. P (raised e, u)) (sym q) (h e v.calls)
  resume-after P (ok a, v) w q h g = subst (λ u. P (k a u)) (sym q) (g a v.calls)

  pub after_reading :
      (P : Outcome B × World → Type 0) (m : Session A)
      → IsReading m
      → (w : World) → ((e : Exc) (n : ℕ) → P (raised e, record w { calls = n }))
      → ((a : A) (n : ℕ) → P (k a (record w { calls = n })))
      → P ((m >>= k) w)
  after_reading P m q w h g = resume-after P (m w) w (q.only_calls w) h g

pub ruleset reading =
    (bind-IsReading, return-IsReading, raise-IsReading, query-IsReading, external-IsReading)
