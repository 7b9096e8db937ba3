-- ===== src/Persistence/Templates.antt =====
-- SqlAlchemyMessageTemplateRepository (adapters/persistence/notifications.py).
use growth_track.Prelude.{
  ℕ, String, Bool, Option, List, ◌∷◌, str_eq, ◌==◌, rows_where, set_where, find?, any, sorted,
  compare_text,
}
use growth_track.Models.{MessageTemplate}
use growth_track.Session.{Session, return, query, scalar_one_or_none, write, ◌>>=◌, ◌>>◌}

unfoldable pub get_by_id : ℕ → Session (Option MessageTemplate)
get_by_id template_id = query (λ d. find? (λ t. t.id == template_id) d.message_templates)

unfoldable pub get_by_name : String → Session (Option MessageTemplate)
get_by_name name = do
  rows ← query (λ d. rows_where (λ t. str_eq t.name name) d.message_templates)
  scalar_one_or_none rows

unfoldable pub add : MessageTemplate → Session (Unit {0})
add template = write (λ d. record d { message_templates = template ∷ d.message_templates })

unfoldable pub update : ℕ → String → String → List String → String → Session Bool
update template_id name twilio_content_sid variable_slots body_preview_template = do
  matched ← query (λ d. any (λ t. t.id == template_id) d.message_templates)
  write (λ d. record d {
    message_templates =
        set_where (λ t. t.id == template_id)
          (λ t. record t {
            name = name;
            twilio_content_sid = twilio_content_sid;
            variable_slots = variable_slots;
            body_preview_template = body_preview_template;
          })
          d.message_templates;
  })
  return matched

unfoldable pub list_active : Session (List MessageTemplate)
list_active = query (λ d. sorted (λ t u. compare_text t.name u.name) d.message_templates)
