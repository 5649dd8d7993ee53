-- ===== src/Controller/Action/Laws.antt =====
-- What the handlers of actions answer.
use clyman.Prelude.{String, ℤ, ◌≡◌, refl, List, Option, some, none, inl, pos, ltb_ℤ}
use clyman.Outcome.{Outcome}
use clyman.Outcome.Io.{
  ◌>>◌, try_catch, lift, Returns, bind-Returns, Keeps, bind-Keeps, try_catch-Keeps, bind-Ensures,
}
use clyman.Floats.{Floats}
use clyman.Json.{Parsed, parse_error, document}
use clyman.Constants.{translation_error}
use clyman.Model.DataList.{DataList, get_object as nth_object}
use clyman.Model.Object.{Object}
use clyman.App.Cluster.{Service}
use clyman.Db.Interface.{DatabaseManager}
use clyman.Controller.Handler.{
  Session, Event, report_processing, on_db, Response, init_response, finish, set_error_code,
  set_error_message, status_of, failed, find_downstream, on_list_caught,
}
use clyman.Controller.Status.{
  Matches, IsQuiet, publish-body, failed-events, find_downstream-events, report_processing-events,
  finish-IsQuiet, when_error-IsQuiet, finish-Matches, send-Matches,
}
use clyman.Controller.Caught.{note_failure}
use clyman.Controller.Action.{
  deleted_doc, object_action_request, respond, build, process, object_action_delete_request,
  process_delete_message, announce,
}

module _ (fl : Floats) {W : Type 0} (manager : DatabaseManager fl.Float W) where
  open fl use {Float, Double}
  open manager use {get_object, delete_object_action}

  respond-Matches :
      (t : ℤ) (id name : String) (body : Parsed Double)
      → Returns Matches (respond fl manager t id name body)
  unfolding respond set_error_code set_error_message status_of
  respond-Matches t id name (parse_error e) = λ s r s' h.
      send-Matches fl "application/json"
        (record s { body = record s.body { err_code = translation_error; err_msg = e } }) refl r s'
        h
  respond-Matches t id name (document doc) =
      bind-Returns Matches (build fl manager doc)
        (λ inp_doc. process fl manager t id name inp_doc >> finish fl)
        (λ inp_doc.
          bind-Returns Matches (process fl manager t id name inp_doc) (λ _. finish fl)
            (λ _. finish-Matches fl))

  pub object_action_request-Matches :
      (t : ℤ) (id name : String) (body : Parsed Double)
      → Returns Matches (object_action_request fl manager t id name body)
  unfolding object_action_request
  object_action_request-Matches t id name body =
      bind-Returns Matches (init_response t) (λ _. respond fl manager t id name body)
        (λ _. respond-Matches t id name body)

  pub object_action_delete_request-Matches :
      (t : ℤ) (id name : String)
      → Returns Matches (object_action_delete_request fl manager t id name)
  unfolding object_action_delete_request
  object_action_delete_request-Matches t id name = bind-Returns Matches (init_response t) _ (λ _.
      bind-Returns Matches (try_catch (process_delete_message fl manager id name) failed) _ (λ _.
        bind-Returns Matches (on_list_caught (get_object id)) _ (λ found.
          bind-Returns Matches (note_failure found.0) _ (λ _.
            bind-Returns Matches find_downstream _ (λ downstream.
              bind-Returns Matches (announce fl manager t id name found.1 downstream)
                (λ _. finish fl) (λ _. finish-Matches fl))))))

  process_delete-events :
      (events : List (Event Double)) (id name : String)
      → Keeps
          (λ (w : Session (Object Float) Double W). w.events ≡ events)
          (process_delete_message fl manager id name)
  unfolding process_delete_message
  process_delete-events events id name =
      bind-Keeps (λ (w : Session (Object Float) Double W). w.events ≡ events)
        (on_db (delete_object_action id name)) report_processing (λ _ p. p)
        (report_processing-events fl events)

  note_failure-events :
      (events : List (Event Double)) (e : Option String)
      → Keeps (λ (w : Session (Object Float) Double W). w.events ≡ events) (note_failure e)
  unfolding note_failure
  note_failure-events events none w p = p
  note_failure-events events (some e) w p = failed-events fl events e w p

  announce-IsQuiet :
      (events : List (Event Double)) (t : ℤ) (id name : String) (found : DataList (Object Float))
      (d : Option Service) (s : Session (Object Float) Double W)
      → s.events ≡ events
      → IsQuiet events (announce fl manager t id name found d s).1
  unfolding announce
  announce-IsQuiet events t id name found none s p = inl p
  announce-IsQuiet events t id name found (some d) s p =
      when_error-IsQuiet fl events (ltb_ℤ (pos 0) found.num_records) _ s
        (bind-Keeps (λ (w : Session (Object Float) Double W). w.body ≡ s.body)
          (lift (nth_object found 0)) _ (λ _ q. q)
          (λ o. publish-body fl o.related.scene_id (deleted_doc fl manager id name o) t d s.body) s
          refl)
        p

  -- A deletion of an action that is answered with 200 was announced to nobody.
  pub object_action_delete_request-quiet :
      (t : ℤ) (id name : String) (s : Session (Object Float) Double W) (r : Response Double)
      (s' : Session (Object Float) Double W)
      → object_action_delete_request fl manager t id name s ≡ (Outcome.ok r, s')
      → r.status ≡ 200
      → s'.events ≡ s.events
  unfolding object_action_delete_request
  object_action_delete_request-quiet t id name s r s' =
      let P : Session (Object Float) Double W → Type 0 = λ w. w.events ≡ s.events in
      let Q : Response Double → Session (Object Float) Double W → Type 0 =
        λ a w. a.status ≡ 200 → w.events ≡ s.events in
      bind-Ensures P P Q (init_response t) _ (λ _ p. p)
        (λ _.
          bind-Ensures P P Q (try_catch (process_delete_message fl manager id name) failed) _
            (try_catch-Keeps P (process_delete_message fl manager id name) failed
              (process_delete-events s.events id name) (failed-events fl s.events))
            (λ _.
              bind-Ensures P P Q (on_list_caught (get_object id)) _ (λ _ p. p)
                (λ found.
                  bind-Ensures P P Q (note_failure found.0) _ (note_failure-events s.events found.0)
                    (λ _.
                      bind-Ensures P P Q find_downstream _ (find_downstream-events fl s.events)
                        (λ d.
                          bind-Ensures P (IsQuiet s.events) Q
                            (announce fl manager t id name found.1 d) (λ _. finish fl)
                            (announce-IsQuiet s.events t id name found.1 d)
                            (λ _. finish-IsQuiet fl s.events))))))
        s refl r s'
