-- ===== src/Notifications/Compose/Laws.antt =====
-- The guards of a manual notification (compose_and_send in domain/notifications.py).
use growth_track.Prelude.{
  ℕ, ◌+◌, ◌≤◌, String, ◌≡◌, refl, ◌⊎◌, inl, inr, true, false, Option, none, some, List, [], ◌∷◌,
  map, arith, str_eq, ◌==◌, ==_iff, Bool-cases, Option-cases, length, find?, all,
}
use growth_track.Models.{ContentVariables, MessageTemplate}
use growth_track.Session.{Exc, World, Env, Outcome, ok, raised}
use growth_track.Notifications.Resolution.{ResolvedRecipients, resolve}
use growth_track.Notifications.Resolution.Laws.{resolve_accounts}
use growth_track.Notifications.TemplateDirectory.{has_text}
use growth_track.Notifications.Compose.{
  ComposeResult, VariableValues, value_of, name_of, valid_values, positional, compose_and_send,
}

value_of-named :
    (slot : String) (values : VariableValues)
    → has_text slot (map name_of values) ≡ true
    → (value : String) × (value_of slot values ≡ some value)
value_of-named slot [] h = cc
value_of-named slot ((name, value) ∷ values) h = elim (Bool-cases (str_eq name slot)) [
  | inl e ↦ (value, rw e)
  | inr e ↦ let (v, found) = value_of-named slot values (rw e at h) in (v, rw e found)
]

positional-named :
    (index : ℕ) (slots : List String) (values : VariableValues)
    → all (λ slot. has_text slot (map name_of values)) slots ≡ true
    → (variables : ContentVariables) × (positional index slots values ≡ some variables)
      × (length variables ≡ length slots)
unfolding positional
positional-named index [] values h = ([], refl, refl)
positional-named index (slot ∷ slots) values h =
    let named : has_text slot (map name_of values) ≡ true = ground (arith, h) in
    let others : all (λ s. has_text s (map name_of values)) slots ≡ true = ground (arith, h) in
    let (value, found) = value_of-named slot values named in
    let (variables, e, l) = positional-named (index + 1) slots values others in
    ((index, value) ∷ variables, rw (found, e), rw l)

-- Values that pass the guard have a value for each slot: the numbering of the slots raises no
-- KeyError and numbers each slot once.
valid_values-positional :
    (values : VariableValues) (slots : List String)
    → valid_values values slots ≡ true
    → (variables : ContentVariables) × (positional 1 slots values ≡ some variables)
      × (length variables ≡ length slots)
unfolding valid_values
valid_values-positional values slots h = positional-named 1 slots values (ground (arith, h))

module _ (env : Env) (budget template_id : ℕ) (values : VariableValues)
    (user_ids team_ids recipient_list_ids : List ℕ) (actor : ℕ) (w : World) where
  abbrev pub composed : Outcome ComposeResult × World
  composed =
      compose_and_send env budget template_id values user_ids team_ids recipient_list_ids actor w

  abbrev pub template : Option MessageTemplate
  template = find? (λ t. t.id == template_id) w.db.message_templates

  -- A manual notification is refused, with no table changed and no message sent, if the template
  -- does not exist, if the values do not fit its slots, or if the selection resolves to nobody; the
  -- error names the first of these that holds. Otherwise every guard passes: the template exists,
  -- the values fit and the selection resolves to somebody.
  pub compose_and_send_guards :
      ((template ≡ none) × (composed ≡ (raised Exc.template_not_found, w)))
      ⊎ ((t : MessageTemplate) × (template ≡ some t)
          × (((valid_values values t.variable_slots ≡ false)
                × (composed ≡ (raised Exc.invalid_variable_values, w)))
              ⊎ ((valid_values values t.variable_slots ≡ true)
                  × (r : ResolvedRecipients) × (resolve user_ids team_ids recipient_list_ids w
                      ≡ (ok r, w))
                  × (((r.unique_count ≡ 0) × (composed ≡ (raised Exc.no_recipients_selected, w)))
                      ⊎ (1 ≤ r.unique_count)))))
  unfolding compose_and_send
  compose_and_send_guards = elim (Option-cases template) [
    | inl h ↦ inl (h, rw h)
    | inr (t, h) ↦ elim (Bool-cases (valid_values values t.variable_slots)) [
      | inr v ↦ inr (t, h, inl (v, rw (h, v)))
      | inl v ↦
          let (r, e, counts, unique, distinct) =
            resolve_accounts user_ids team_ids recipient_list_ids w in
          inr (
            t,
            h,
            inr (
              v,
              r,
              e,
              elim (Bool-cases (r.unique_count == 0)) [
                | inl z ↦ inl ((==_iff r.unique_count 0).0 z, rw (h, v, e, z))
                | inr z ↦ inr (ground arith)
              ],
            ),
          )
    ]
  ]
