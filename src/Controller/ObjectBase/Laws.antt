-- ===== src/Controller/ObjectBase/Laws.antt =====
-- What the handler of objects answers.
use clyman.Prelude.{String, ℤ, refl}
use clyman.Outcome.Io.{◌>>◌, Returns, bind-Returns}
use clyman.Floats.{Floats}
use clyman.Json.{Parsed, parse_error, document}
use clyman.Constants.{translation_error}
use clyman.Db.Interface.{DatabaseManager}
use clyman.Controller.Handler.{init_response, finish, set_error_code, set_error_message, status_of}
use clyman.Controller.Status.{Matches, finish-Matches, send-Matches}
use clyman.Controller.ObjectBase.{object_base_request, respond, build, process_list}

module _ (fl : Floats) {W : Type 0} (manager : DatabaseManager fl.Float W) where
  open fl use {Float, Double}

  respond-Matches :
      (t : ℤ) (id : String) (body : Parsed Double) → Returns Matches (respond fl manager t id body)
  unfolding respond set_error_code set_error_message status_of
  respond-Matches t id (parse_error e) = λ s r s' h.
      send-Matches fl "application/json"
        (record s { body = record s.body { err_code = translation_error; err_msg = e } }) refl r s'
        h
  respond-Matches t id (document doc) =
      bind-Returns Matches (build fl manager doc)
        (λ inp_doc. process_list fl manager t id inp_doc >> finish fl)
        (λ inp_doc.
          bind-Returns Matches (process_list fl manager t id inp_doc) (λ _. finish fl)
            (λ _. finish-Matches fl))

  pub object_base_request-Matches :
      (t : ℤ) (id : String) (body : Parsed Double)
      → Returns Matches (object_base_request fl manager t id body)
  unfolding object_base_request
  object_base_request-Matches t id body =
      bind-Returns Matches (init_response t) (λ _. respond fl manager t id body)
        (λ _. respond-Matches t id body)
