-- ===== src/Controller/ObjectBase.antt =====
-- src/controller/include/object_base_handler.h: create, update and query
pub mod Laws
pub mod Creation
mod Tests
use clyman.Prelude.{
  String, ℤ, ◌==◌, int_eq, Bool, true, false, ◌||◌, List, [], ◌∷◌, Option, none, some, is_empty,
  if◌then◌else◌,
}
use clyman.Outcome.{Outcome}
use clyman.Outcome.Io.{Io, pure, lift, ◌>>=◌, ◌>>◌, try_catch, when}
use clyman.Floats.{Floats}
use clyman.Constants.{obj_crt, obj_upd, obj_query, translation_error, processing_error}
use clyman.Json.{Json, Parsed, parse_error, document}
use clyman.Factory.Object.{build_object_list}
use clyman.Model.Object.{Object, new_object, set_key}
use clyman.Model.DataList.{DataList, add_object}
use clyman.Db.Interface.{DatabaseManager}
use clyman.Controller.Handler.{
  Handler, Session, Response, set_error_code, set_error_message, init_response, on_db, on_body,
  report, failed, send_update, send, finish,
}

module _ (fl : Floats) {W : Type 0} (manager : DatabaseManager fl.Float W) where
  open fl use {Float, Double}
  open manager use {create_object, update_object, object_query}

  add_output : Object Float → Handler fl W (Unit {0})
  unfolding add_object
  add_output o s = (Outcome.ok tt, record s { body = add_object s.body o })

  process_create_message : Object Float → Object Float → Handler fl W (Object Float)
  unfolding set_error_code set_error_message
  process_create_message in_doc out_doc = do
    created ← on_db (create_object in_doc)
    if created.0.success then pure (set_key out_doc created.1) else (do
      set_error_code processing_error
      set_error_message created.0.error_message
      pure out_doc)

  process_update_message : Object Float → Handler fl W (Unit {0})
  unfolding report
  process_update_message in_doc = do
    response ← on_db (update_object in_doc in_doc.related.key)
    report response

  process_query_message : Object Float → ℤ → Handler fl W (Unit {0})
  process_query_message in_doc max_results = on_body (object_query in_doc max_results)

  -- The body of the `try` block.
  execute : ℤ → Object Float → ℤ → Handler fl W (Unit {0})
  unfolding add_output process_create_message process_update_message process_query_message
  execute msg_type in_doc max_results =
      if msg_type == obj_crt
      then (process_create_message in_doc (new_object fl) >>= add_output)
      else if msg_type == obj_upd
      then (process_update_message in_doc >> add_output (new_object fl))
      else if msg_type == obj_query
      then process_query_message in_doc max_results
      else pure tt

  -- Whether the `break` of the `catch` block was reached.
  attempt : ℤ → Object Float → ℤ → Handler fl W Bool
  unfolding execute failed
  attempt msg_type in_doc max_results =
      try_catch (execute msg_type in_doc max_results >> pure false) (λ e. failed e >> pure true)

  notify : ℤ → Object Float → Handler fl W (Unit {0})
  unfolding send_update
  notify msg_type in_doc =
      when (msg_type == obj_crt || msg_type == obj_upd)
        (send_update fl in_doc.related.scene_id in_doc msg_type)

  addressed : String → Object Float → Object Float
  addressed object_id o = if is_empty object_id then o else set_key o object_id

  unfoldable pub process_objects : ℤ → String → ℤ → List (Object Float) → Handler fl W (Unit {0})
  unfolding attempt notify addressed
  process_objects msg_type object_id max_results [] = pure tt
  process_objects msg_type object_id max_results (o ∷ os) = do
    broken ← attempt msg_type (addressed object_id o) max_results
    if broken
        then pure tt
        else (notify msg_type (addressed object_id o)
            >> process_objects msg_type object_id max_results os)

  build : Json Double → Handler fl W (Option (DataList (Object Float)))
  unfolding build_object_list set_error_code set_error_message
  build doc =
      try_catch (do l ← lift (build_object_list fl doc); pure (some l))
        (λ e. do set_error_code translation_error; set_error_message e; pure none)

  process_list : ℤ → String → Option (DataList (Object Float)) → Handler fl W (Unit {0})
  unfolding process_objects
  process_list msg_type object_id none = pure tt
  process_list msg_type object_id (some l) =
      process_objects msg_type object_id l.num_records l.objects

  respond : ℤ → String → Parsed Double → Handler fl W (Response Double)
  unfolding build process_list send finish set_error_code set_error_message
  respond msg_type object_id (parse_error e) = do
    set_error_code translation_error
    set_error_message e
    send fl 400 "application/json"
  respond msg_type object_id (document doc) = do
    inp_doc ← build doc
    process_list msg_type object_id inp_doc
    finish fl

  unfoldable pub object_base_request :
      ℤ → String → Parsed Double → Io (Session (Object Float) Double W) (Response Double)
  unfolding respond init_response
  object_base_request msg_type object_id body =
      init_response msg_type >> respond msg_type object_id body
