-- ===== src/Notifications/TemplateDirectory.antt =====
-- MessageTemplateDirectoryService (domain/notifications.py).
use growth_track.Prelude.{
  ℕ, String, Bool, true, false, ◌&&◌, not, Option, none, some, List, [], ◌∷◌, str_eq, ◌==◌, is_none,
  is_some, any, is_empty, strip,
}
use growth_track.Models.{MessageTemplate, Detail}
use growth_track.Session.{Exc, Session, return, raise, external, ◌>>=◌, ◌>>◌, raise_if, Env}
use growth_track.Persistence.Templates
use growth_track.Persistence.AuditLog

-- `len(set(xs)) == len(xs)`.
abbrev pub has_text : String → List String → Bool
has_text s = any (λ t. str_eq t s)

abbrev pub no_repeats : List String → Bool
no_repeats [] = true
no_repeats (s ∷ rest) = not (has_text s rest) && no_repeats rest

-- Whether the stripped fields and the slots may be stored.
unfoldable pub valid_fields : String → String → List String → String → Bool
unfolding strip
valid_fields name twilio_content_sid variable_slots body_preview_template =
    not (is_empty name)
    && not (is_empty twilio_content_sid)
    && not (is_empty body_preview_template)
    && not (any (λ slot. is_empty (strip slot)) variable_slots)
    && no_repeats variable_slots

-- `existing is not None and existing.id != template_id`.
abbrev pub is_other : Option MessageTemplate → ℕ → Bool
is_other none template_id = false
is_other (some t) template_id = not (t.id == template_id)

abbrev pub found : Option MessageTemplate → Session MessageTemplate
found none = raise Exc.template_not_found
found (some t) = return t

module _ (env : Env) where
  unfoldable pub create_template :
      String → String → List String → String → ℕ → Session MessageTemplate
  unfolding valid_fields Templates.get_by_name Templates.add AuditLog.add
  create_template name twilio_content_sid variable_slots body_preview_template actor_user_id = do
    let name' = strip name
    let sid' = strip twilio_content_sid
    let body' = strip body_preview_template
    raise_if (not (valid_fields name' sid' variable_slots body')) Exc.invalid_template_fields
    existing ← Templates.get_by_name name'
    raise_if (is_some existing) Exc.template_name_taken
    id ← external env.uuid4
    created_at ← external env.now
    let template : MessageTemplate = record {
      id = id;
      name = name';
      twilio_content_sid = sid';
      variable_slots = variable_slots;
      body_preview_template = body';
      created_at = created_at;
    }
    Templates.add template
    entry_id ← external env.uuid4
    AuditLog.add (record {
      id = entry_id;
      actor_user_id = some actor_user_id;
      action = "message_template.created";
      entity_type = some "MessageTemplate";
      entity_id = some id;
      details = some (("name", Detail.text name') ∷ ("twilio_content_sid", Detail.text sid') ∷ []);
      created_at = created_at;
    })
    return template

  unfoldable pub update_template :
      ℕ → String → String → List String → String → ℕ → Session MessageTemplate
  unfolding valid_fields Templates.get_by_id Templates.get_by_name Templates.update AuditLog.add
  update_template template_id name twilio_content_sid variable_slots body_preview_template
        actor_user_id =
      do
        target ← Templates.get_by_id template_id
        raise_if (is_none target) Exc.template_not_found
        let name' = strip name
        let sid' = strip twilio_content_sid
        let body' = strip body_preview_template
        raise_if (not (valid_fields name' sid' variable_slots body')) Exc.invalid_template_fields
        existing ← Templates.get_by_name name'
        raise_if (is_other existing template_id) Exc.template_name_taken
        updated ← Templates.update template_id name' sid' variable_slots body'
        raise_if (not updated) Exc.template_not_found
        entry_id ← external env.uuid4
        created_at ← external env.now
        AuditLog.add (record {
          id = entry_id;
          actor_user_id = some actor_user_id;
          action = "message_template.updated";
          entity_type = some "MessageTemplate";
          entity_id = some template_id;
          details = some (
              ("name", Detail.text name')
              ∷ ("twilio_content_sid", Detail.text sid')
              ∷ ("variable_slots", Detail.texts variable_slots)
              ∷ ("body_preview_template", Detail.text body')
              ∷ []);
          created_at = created_at;
        })
        refreshed ← Templates.get_by_id template_id
        found refreshed
