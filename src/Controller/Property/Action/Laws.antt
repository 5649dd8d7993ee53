-- ===== src/Controller/Property/Action/Laws.antt =====
-- What the handlers of actions of properties answer.
use clyman.Prelude.{String, ℤ, int_eq, refl}
use clyman.Outcome.Io.{try_catch, Returns, bind-Returns}
use clyman.Floats.{Floats}
use clyman.Constants.{translation_error}
use clyman.Json.{Parsed, parse_error, document}
use clyman.Db.Interface.{PropertyManager}
use clyman.Controller.Caught.{note_failure}
use clyman.Controller.Handler.{
  init_response, set_error_code, set_error_message, failed, find_downstream, on_list_caught,
}
use clyman.Controller.Status.{Matches}
use clyman.Controller.Property.Status.{finish-Matches, refused-Matches}
use clyman.Controller.Property.Action.{
  property_action_request, property_action_delete_request, respond, build, process,
  process_delete_message, announce,
}

module _ (fl : Floats) {W : Type 0} (manager : PropertyManager fl.Float fl.Double W) where
  open fl use {Float, Double}
  open manager use {get_property}

  respond-Matches :
      (t : ℤ) (id name : String) (body : Parsed Double)
      → Returns Matches (respond fl manager t id name body)
  unfolding respond set_error_code set_error_message
  respond-Matches t id name (parse_error e) = λ s r s' h.
      refused-Matches fl "application/json"
        (record s { body = record s.body { err_code = translation_error; err_msg = e } }) refl r s'
        h
  respond-Matches t id name (document doc) =
      bind-Returns Matches (build fl manager doc) _ (λ inp_doc.
        bind-Returns Matches (process fl manager t id name inp_doc) _ (λ _. finish-Matches fl))

  pub property_action_request-Matches :
      (t : ℤ) (id name : String) (body : Parsed Double)
      → Returns Matches (property_action_request fl manager t id name body)
  unfolding property_action_request
  property_action_request-Matches t id name body =
      bind-Returns Matches (init_response t) _ (λ _. respond-Matches t id name body)

  pub property_action_delete_request-Matches :
      (t : ℤ) (id name : String)
      → Returns Matches (property_action_delete_request fl manager t id name)
  unfolding property_action_delete_request
  property_action_delete_request-Matches t id name = bind-Returns Matches (init_response t) _ (λ _.
      bind-Returns Matches (try_catch (process_delete_message fl manager id name) failed) _ (λ _.
        bind-Returns Matches (on_list_caught (get_property id)) _ (λ found.
          bind-Returns Matches (note_failure found.0) _ (λ _.
            bind-Returns Matches find_downstream _ (λ d.
              bind-Returns Matches (announce fl manager t id name found.1 d) _
                (λ _. finish-Matches fl))))))
