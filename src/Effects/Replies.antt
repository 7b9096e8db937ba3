-- ===== src/Effects/Replies.antt =====
-- What the shared parts of a route write (api/).
use growth_track.Effects.{
  Relation, Allows, AllowsEnds, Obeys, return-Obeys, raise-Obeys, bind-Obeys, then-Obeys,
  rollback-Obeys, commit-Obeys, external-Obeys, effects, ending,
}
use growth_track.Session.{Exc, Session, World, Outcome, ok, raised, ◌>>◌, commit}
use growth_track.Api.Replies.{
  Reply, HttpError, commit_and_refuse, rollback_and_refuse, refuse_listed, after_commit, commit_or,
  settle_call, answering,
}
use growth_track.Prelude.{ℕ, Bool, true, false, Option, none, some}

module _ (R : Relation) (allowed : Allows R) (ends : AllowsEnds R) where
  module _ {A : Type 0} where
    pub commit_and_refuse-Obeys : (error : HttpError) → Obeys R (commit_and_refuse {A = A} error)
    commit_and_refuse-Obeys (status, code) =
        then-Obeys R allowed _ _ (commit-Obeys R ends) (return-Obeys R allowed _)

    pub rollback_and_refuse-Obeys :
        (error : HttpError) → Obeys R (rollback_and_refuse {A = A} error)
    rollback_and_refuse-Obeys (status, code) =
        then-Obeys R allowed _ _ (rollback-Obeys R ends) (return-Obeys R allowed _)

    pub refuse_listed-Obeys : (o : Option HttpError) → Obeys R (refuse_listed {A = A} o)
    refuse_listed-Obeys (some error) = commit_and_refuse-Obeys error
    refuse_listed-Obeys none =
        then-Obeys R allowed _ _ (rollback-Obeys R ends) (return-Obeys R allowed _)

    pub after_commit-Obeys :
        (error : HttpError) (m : Session (Reply A)) (raced : Bool)
        → Obeys R m
        → Obeys R (after_commit error m raced)
    after_commit-Obeys error m true h = rollback_and_refuse-Obeys error
    after_commit-Obeys error m false h = then-Obeys R allowed _ _ (commit-Obeys R ends) h

    pub commit_or-Obeys :
        (races : ℕ → Bool) (error : HttpError) (m : Session (Reply A))
        → Obeys R m
        → Obeys R (commit_or races error m)
    commit_or-Obeys races error m h =
        bind-Obeys R allowed _ _ (external-Obeys R allowed races)
          (λ raced. after_commit-Obeys error m raced h)

    settled-Obeys : (m : Session A) → Obeys R m → Obeys R (commit >> m)
    settled-Obeys m h = then-Obeys R allowed _ _ (commit-Obeys R ends) h

  module _ {A B : Type 0} where
    settle_call-obeys :
        (w : World) (failed : Exc → Session (Reply B)) (succeeded : A → Session (Reply B))
        (x : Outcome A × World)
        → R w x.1
        → ((e : Exc) → Obeys R (failed e))
        → ((a : A) → Obeys R (succeeded a))
        → R w (settle_call failed succeeded x).1
    settle_call-obeys w failed succeeded (ok a, v) h f s = allowed.follows w v _ h ((s a).obeys v)
    settle_call-obeys w failed succeeded (raised e, v) h f s =
        allowed.follows w v _ h ((f e).obeys v)

    pub answering-Obeys :
        (failed : Exc → Session (Reply B)) (succeeded : A → Session (Reply B)) (m : Session A)
        → ((e : Exc) → Obeys R (failed e))
        → ((a : A) → Obeys R (succeeded a))
        → Obeys R m
        → Obeys R (answering failed succeeded m)
    answering-Obeys failed succeeded m f s h = record {
      obeys = λ w. settle_call-obeys w failed succeeded (m w) (h.obeys w) f s;
    }

  pub ruleset routes =
      (ending, refuse_listed-Obeys, rollback_and_refuse-Obeys, commit_or-Obeys, answering-Obeys)
