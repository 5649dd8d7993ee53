-- ===== src/Controller/Property/Base.antt =====
-- src/controller/include/property_base_handler.h: create, update and query
pub mod Laws
use clyman.Prelude.{
  String, ℤ, ◌==◌, int_eq, Bool, true, false, ◌||◌, List, [], ◌∷◌, Option, none, some, is_empty,
  if◌then◌else◌,
}
use clyman.Outcome.{Outcome}
use clyman.Outcome.Io.{pure, lift, ◌>>=◌, ◌>>◌, try_catch, when}
use clyman.Floats.{Floats}
use clyman.Constants.{prop_crt, prop_upd, prop_query, translation_error, processing_error}
use clyman.Json.{Json, Parsed, parse_error, document}
use clyman.Factory.Property.{build_property_list}
use clyman.Model.Property.{Property, new_property, set_prop_key}
use clyman.Model.DataList.{DataList, add_object}
use clyman.Db.Interface.{PropertyManager}
use clyman.Controller.Handler.{
  Response, set_error_code, set_error_message, init_response, on_db, on_body, report, failed,
}
use clyman.Controller.Property.{
  PropertyHandler, send_property_update, send_properties, finish_properties,
}

module _ (fl : Floats) {W : Type 0} (manager : PropertyManager fl.Float fl.Double W) where
  open fl use {Float, Double}
  open manager use {create_property, update_property, property_query}

  -- `response_body->add_prop`
  add_output : Property Float Double → PropertyHandler fl W (Unit {0})
  unfolding add_object
  add_output p s = (Outcome.ok tt, record s { body = add_object s.body p })

  process_create_message :
      Property Float Double → Property Float Double → PropertyHandler fl W (Property Float Double)
  unfolding set_error_code set_error_message
  process_create_message in_doc out_doc = do
    created ← on_db (create_property in_doc)
    if created.0.success then pure (set_prop_key out_doc created.1) else (do
      set_error_code processing_error
      set_error_message created.0.error_message
      pure out_doc)

  process_update_message : Property Float Double → PropertyHandler fl W (Unit {0})
  unfolding report
  process_update_message in_doc = do
    response ← on_db (update_property in_doc in_doc.related.key)
    report response

  process_query_message : Property Float Double → ℤ → PropertyHandler fl W (Unit {0})
  process_query_message in_doc max_results = on_body (property_query in_doc max_results)

  -- The body of the `try` block. Only a creation adds to the response.
  execute : ℤ → Property Float Double → ℤ → PropertyHandler fl W (Unit {0})
  unfolding add_output process_create_message process_update_message process_query_message
  execute msg_type in_doc max_results =
      if msg_type == prop_crt
      then (process_create_message in_doc new_property >>= add_output)
      else if msg_type == prop_upd
      then process_update_message in_doc
      else if msg_type == prop_query
      then process_query_message in_doc max_results
      else pure tt

  -- Whether the `break` of the `catch` block was reached.
  attempt : ℤ → Property Float Double → ℤ → PropertyHandler fl W Bool
  unfolding execute failed
  attempt msg_type in_doc max_results =
      try_catch (execute msg_type in_doc max_results >> pure false) (λ e. failed e >> pure true)

  notify : ℤ → Property Float Double → PropertyHandler fl W (Unit {0})
  unfolding send_property_update
  notify msg_type in_doc =
      when (msg_type == prop_crt || msg_type == prop_upd)
        (send_property_update fl in_doc.related.scene_id in_doc msg_type)

  addressed : String → Property Float Double → Property Float Double
  addressed object_id p = if is_empty object_id then p else set_prop_key p object_id

  unfoldable pub process_properties :
      ℤ → String → ℤ → List (Property Float Double) → PropertyHandler fl W (Unit {0})
  unfolding attempt notify addressed
  process_properties msg_type object_id max_results [] = pure tt
  process_properties msg_type object_id max_results (p ∷ ps) = do
    broken ← attempt msg_type (addressed object_id p) max_results
    if broken
        then pure tt
        else (notify msg_type (addressed object_id p)
            >> process_properties msg_type object_id max_results ps)

  build : Json Double → PropertyHandler fl W (Option (DataList (Property Float Double)))
  unfolding build_property_list set_error_code set_error_message
  build doc =
      try_catch (do l ← lift (build_property_list fl doc); pure (some l))
        (λ e. do set_error_code translation_error; set_error_message e; pure none)

  process_list :
      ℤ → String → Option (DataList (Property Float Double)) → PropertyHandler fl W (Unit {0})
  unfolding process_properties
  process_list msg_type object_id none = pure tt
  process_list msg_type object_id (some l) =
      process_properties msg_type object_id l.num_records l.objects

  respond : ℤ → String → Parsed Double → PropertyHandler fl W (Response Double)
  unfolding build process_list send_properties finish_properties set_error_code set_error_message
  respond msg_type object_id (parse_error e) = do
    set_error_code translation_error
    set_error_message e
    send_properties fl 400 "application/json"
  respond msg_type object_id (document doc) = do
    inp_doc ← build doc
    process_list msg_type object_id inp_doc
    finish_properties fl

  unfoldable pub property_base_request :
      ℤ → String → Parsed Double → PropertyHandler fl W (Response Double)
  unfolding respond init_response
  property_base_request msg_type object_id body =
      init_response msg_type >> respond msg_type object_id body
