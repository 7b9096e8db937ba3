-- ===== src/Persistence/Doctors.antt =====
-- SqlAlchemyDoctorRepository (adapters/persistence/doctors.py).
use growth_track.Models.{Doctor}
use growth_track.Session.{Session, return, query, ◌>>=◌, Database, Env}
use growth_track.Persistence.Upsert.{by_key, upsert, with_new_ids}
use growth_track.Prelude.{
  Ordering, Bool, List, [], ◌∷◌, str_eq, leb, sorted, compare_ℤ, compare_text, and_then, ℤ, pos,
  negsuc,
}

-- The range of a PostgreSQL `Integer`.
abbrev pub is_integer : ℤ → Bool
is_integer (pos n) = leb n 2147483647
is_integer (negsuc n) = leb n 2147483647

abbrev pub same_doctor : Doctor → Doctor → Bool
same_doctor r s = str_eq r.external_doctor_id s.external_doctor_id

abbrev pub with_doctors : List Doctor → Database → Database
with_doctors rows d = record d { doctors = rows }

-- `set_=`.
abbrev pub refresh_doctor : Doctor → Doctor → Doctor
refresh_doctor r old = record old { name = r.name; territory = r.territory; priority = r.priority }

unfoldable pub upsert_many : Env → List Doctor → Session (Unit {0})
upsert_many env [] = return tt
upsert_many env (row ∷ rows) = do
  values ← with_new_ids env (λ k r. record r { id = k }) (by_key same_doctor (row ∷ rows))
  upsert same_doctor (λ r. is_integer r.priority) refresh_doctor (λ d. d.doctors) with_doctors
      values

abbrev pub by_territory : Doctor → Doctor → Ordering
by_territory r s = and_then (compare_text r.territory s.territory) (compare_ℤ r.priority s.priority)

unfoldable pub list_all : Session (List Doctor)
list_all = query (λ d. sorted by_territory d.doctors)
