-- ===== src/Controller/Property/Base/Laws.antt =====
-- What the handler of properties answers.
use clyman.Prelude.{String, ℤ, int_eq, refl}
use clyman.Outcome.Io.{Returns, bind-Returns}
use clyman.Floats.{Floats}
use clyman.Constants.{translation_error}
use clyman.Json.{Parsed, parse_error, document}
use clyman.Db.Interface.{PropertyManager}
use clyman.Controller.Handler.{init_response, set_error_code, set_error_message}
use clyman.Controller.Status.{Matches}
use clyman.Controller.Property.Status.{finish-Matches, refused-Matches}
use clyman.Controller.Property.Base.{property_base_request, respond, build, process_list}

module _ (fl : Floats) {W : Type 0} (manager : PropertyManager fl.Float fl.Double W) where
  open fl use {Float, Double}

  respond-Matches :
      (t : ℤ) (id : String) (body : Parsed Double) → Returns Matches (respond fl manager t id body)
  unfolding respond set_error_code set_error_message
  respond-Matches t id (parse_error e) = λ s r s' h.
      refused-Matches fl "application/json"
        (record s { body = record s.body { err_code = translation_error; err_msg = e } }) refl r s'
        h
  respond-Matches t id (document doc) = bind-Returns Matches (build fl manager doc) _ (λ inp_doc.
      bind-Returns Matches (process_list fl manager t id inp_doc) _ (λ _. finish-Matches fl))

  pub property_base_request-Matches :
      (t : ℤ) (id : String) (body : Parsed Double)
      → Returns Matches (property_base_request fl manager t id body)
  unfolding property_base_request
  property_base_request-Matches t id body =
      bind-Returns Matches (init_response t) _ (λ _. respond-Matches t id body)
