-- ===== src/Controller/Frame/Deletion.antt =====
-- What the deletion of a keyframe announces, and what it makes of an index that is no number.
use clyman.Prelude.{
  String, ℤ, pos, ltb_ℤ, Bool, true, false, ◌≡◌, refl, inl, Option, none, some, List,
}
use clyman.Outcome.{Outcome}
use clyman.Outcome.Io.{
  ◌>>=◌, ◌>>◌, lift, pure, when, Keeps, bind-Keeps, try_catch-Keeps, bind-Ensures,
}
use clyman.Floats.{Floats}
use clyman.Model.DataList.{DataList, get_object as nth_object}
use clyman.Model.Object.{Object}
use clyman.Model.Animation.{new_object_frame}
use clyman.App.Cluster.{Service}
use clyman.Std.{stoi}
use clyman.Db.Interface.{DatabaseManager}
use clyman.Controller.Handler.{
  Session, Event, Response, init_response, failed, find_downstream, on_list_caught, on_db,
  report_processing, set_error_message,
}
use clyman.Controller.Status.{
  IsQuiet, publish-body, failed-events, find_downstream-events, report_processing-events,
  finish-IsQuiet, when_error-IsQuiet,
}
use clyman.Controller.Caught.{parse_index, continue_after, index_or_zero}
use clyman.Controller.Frame.{
  object_frame_delete_request, process_delete_message, delete_step, find_step, announce, frame_doc,
}

module _ (fl : Floats) {W : Type 0} (manager : DatabaseManager fl.Float W) where
  open fl use {Float, Double}
  open manager use {get_object, delete_object_keyframe}

  -- What holds of a session before an event goes out.
  abbrev Since : List (Event Double) → Session (Object Float) Double W → Type 0
  Since events s = s.events ≡ events

  parse_index-events :
      (events : List (Event Double)) (index : String) → Keeps (Since events) (parse_index index)
  unfolding parse_index set_error_message
  parse_index-events events index =
      try_catch-Keeps (Since events) (lift (stoi index) >>= (λ n. pure (some n))) _
        (bind-Keeps (Since events) (lift (stoi index)) _ (λ _ p. p) (λ _ _ p. p)) (λ _ _ p. p)

  failed_then-events :
      (events : List (Event Double)) (e : String) (b : Bool)
      → Keeps (Since events) (failed {W = W} e >> pure b)
  failed_then-events events e b =
      bind-Keeps (Since events) (failed e) (λ _. pure b) (failed-events fl events e) (λ _ _ q. q)

  delete_step-events :
      (events : List (Event Double)) (id name : String) (index : Option ℤ)
      → Keeps (Since events) (delete_step fl manager id name index)
  unfolding delete_step process_delete_message
  delete_step-events events id name none w p = p
  delete_step-events events id name (some n) w p =
      try_catch-Keeps (Since events) (process_delete_message fl manager id name n >> pure true)
        (λ e. failed e >> pure false)
        (bind-Keeps (Since events) (process_delete_message fl manager id name n) _
          (bind-Keeps (Since events) (on_db (delete_object_keyframe id name n)) report_processing
            (λ _ q. q) (report_processing-events fl events))
          (λ _ _ q. q))
        (λ e. failed_then-events events e false) w p

  continue_after-events :
      (events : List (Event Double)) (e : Option String) → Keeps (Since events) (continue_after e)
  unfolding continue_after
  continue_after-events events none w p = p
  continue_after-events events (some e) w p = failed_then-events events e false w p

  find_step-events :
      (events : List (Event Double)) (id : String) (b : Bool)
      → Keeps (Since events) (find_step fl manager id b)
  unfolding find_step on_list_caught
  find_step-events events id false w p = p
  find_step-events events id true w p =
      bind-Keeps (Since events) (on_list_caught (get_object id)) _ (λ _ q. q)
        (λ found.
          bind-Keeps (Since events) (continue_after found.0) _
            (continue_after-events events found.0) (λ _ _ q. q))
        w p

  announce-IsQuiet :
      (events : List (Event Double)) (t : ℤ) (id name : String) (index : ℤ)
      (found : DataList (Object Float)) (d : Option Service) (s : Session (Object Float) Double W)
      → Since events s
      → IsQuiet events (announce fl manager t id name index found d s).1
  unfolding announce
  announce-IsQuiet events t id name index found none s p = inl p
  announce-IsQuiet events t id name index found (some d) s p =
      when_error-IsQuiet fl events (ltb_ℤ (pos 0) found.num_records) _ s
        (bind-Keeps (λ (w : Session (Object Float) Double W). w.body ≡ s.body)
          (lift (nth_object found 0)) _ (λ _ q. q)
          (λ o.
            publish-body fl o.related.scene_id
              (frame_doc fl manager id name index (new_object_frame fl) o.related.scene_id) t d
              s.body)
          s refl)
        p

  when_found-IsQuiet :
      (events : List (Event Double)) (b : Bool) (t : ℤ) (id name : String) (index : ℤ)
      (found : DataList (Object Float)) (d : Option Service) (s : Session (Object Float) Double W)
      → Since events s
      → IsQuiet events (when b (announce fl manager t id name index found d) s).1
  when_found-IsQuiet events true t id name index found d s p =
      announce-IsQuiet events t id name index found d s p
  when_found-IsQuiet events false t id name index found d s p = inl p

  -- A deletion of a keyframe that is answered with 200 was announced to nobody.
  pub object_frame_delete_request-quiet :
      (t : ℤ) (id name index : String) (s : Session (Object Float) Double W) (r : Response Double)
      (s' : Session (Object Float) Double W)
      → object_frame_delete_request fl manager t id name index s ≡ (Outcome.ok r, s')
      → r.status ≡ 200
      → s'.events ≡ s.events
  unfolding object_frame_delete_request
  object_frame_delete_request-quiet t id name index s r s' =
      let P = Since s.events in
      let Q : Response Double → Session (Object Float) Double W → Type 0 =
        λ a w. a.status ≡ 200 → w.events ≡ s.events in
      bind-Ensures P P Q (init_response t) _ (λ _ p. p)
        (λ _. bind-Ensures P P Q (parse_index index) _ (parse_index-events s.events index) (λ i.
          bind-Ensures P P Q (delete_step fl manager id name i) _
            (delete_step-events s.events id name i)
            (λ deleted.
              bind-Ensures P P Q (find_step fl manager id deleted) _
                (find_step-events s.events id deleted)
                (λ found.
                  bind-Ensures P P Q find_downstream _ (find_downstream-events fl s.events) (λ d.
                    bind-Ensures P (IsQuiet s.events) Q
                      (when found.0 (announce fl manager t id name (index_or_zero i) found.1 d)) _
                      (when_found-IsQuiet s.events found.0 t id name (index_or_zero i) found.1 d)
                      (λ _. finish-IsQuiet fl s.events))))))
        s refl r s'
