-- ===== src/Controller/Property/Frame/Laws.antt =====
-- What the handlers of keyframes of properties answer.
use clyman.Prelude.{String, ℤ, pos, ◌==◌, int_eq, refl, Option, none, some, if◌then◌else◌}
use clyman.Outcome.Io.{pure, when, Returns, bind-Returns}
use clyman.Floats.{Floats}
use clyman.Constants.{translation_error, no_error, prop_frame_upd}
use clyman.Json.{Parsed, parse_error, document}
use clyman.Db.Interface.{PropertyManager}
use clyman.Controller.Caught.{parse_index, index_or_zero}
use clyman.Controller.Handler.{init_response, set_error_code, set_error_message, find_downstream}
use clyman.Controller.Status.{Matches}
use clyman.Controller.Property.Status.{finish-Matches, refused-Matches}
use clyman.Controller.Property.Frame.{
  property_frame_request, property_frame_delete_request, respond, build, process, refuse,
  delete_step, find_step, announce,
}

module _ (fl : Floats) {W : Type 0} (manager : PropertyManager fl.Float fl.Double W) where
  open fl use {Float, Double}

  refuse-Matches : Returns Matches (refuse fl manager)
  unfolding refuse set_error_code
  refuse-Matches s =
      refused-Matches fl "text/plain"
        (record s { body = record s.body { err_code = translation_error } }) refl

  respond-Matches :
      (t : ℤ) (id name : String) (index : Option ℤ) (body : Parsed Double)
      → Returns Matches (respond fl manager t id name index body)
  unfolding respond
  respond-Matches t id name index (parse_error e) =
      bind-Returns Matches (set_error_message e) _ (λ _. refuse-Matches)
  respond-Matches t id name none (document doc) = refuse-Matches
  respond-Matches t id name (some index) (document doc) =
      bind-Returns Matches (build fl manager doc) _ (λ inp_doc.
        bind-Returns Matches (process fl manager t id name index inp_doc) _
          (λ _. finish-Matches fl))

  pub property_frame_request-Matches :
      (t : ℤ) (id name index : String) (body : Parsed Double)
      → Returns Matches (property_frame_request fl manager t id name index body)
  unfolding property_frame_request
  property_frame_request-Matches t id name index body =
      bind-Returns Matches (init_response t) _ (λ _.
        bind-Returns Matches
          (if t == prop_frame_upd then parse_index index else pure (some (pos 0))) _
          (λ i.
            bind-Returns Matches (set_error_code no_error) _
              (λ _. respond-Matches t id name i body)))

  pub property_frame_delete_request-Matches :
      (t : ℤ) (id name index : String)
      → Returns Matches (property_frame_delete_request fl manager t id name index)
  unfolding property_frame_delete_request
  property_frame_delete_request-Matches t id name index =
      bind-Returns Matches (init_response t) _ (λ _.
        bind-Returns Matches (parse_index index) _ (λ i.
          bind-Returns Matches (delete_step fl manager id name i) _ (λ deleted.
            bind-Returns Matches (find_step fl manager id deleted) _ (λ found.
              bind-Returns Matches find_downstream _ (λ d.
                bind-Returns Matches
                  (when found.0 (announce fl manager t id name (index_or_zero i) found.1 d)) _
                  (λ _. finish-Matches fl))))))
