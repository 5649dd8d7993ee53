-- ===== src/Controller/Frame/Laws.antt =====
-- What the handlers of keyframes answer.
use clyman.Prelude.{
  String, ℤ, pos, ◌==◌, int_eq, ◌≡◌, refl, Option, none, some, if◌then◌else◌, negsuc, ltb_ℤ, ◌||◌,
  true, arith,
}
use clyman.Outcome.{Outcome}
use clyman.Outcome.Io.{pure, when, Returns, bind-Returns}
use clyman.Floats.{Floats}
use clyman.Json.{Json, Parsed, parse_error, document}
use clyman.Constants.{translation_error, no_error, obj_frame_crt, obj_frame_upd}
use clyman.Model.DataList.{new_data_list}
use clyman.App.Cluster.{Service, ClusterManager, get_ivan}
use clyman.Std.{stoi}
use clyman.Model.Object.{Object}
use clyman.Model.Animation.{ObjectFrame}
use clyman.Factory.Frame.{build_object_frame}
use clyman.Db.Interface.{DatabaseManager}
use clyman.Controller.Handler.{
  Session, init_response, set_error_code, set_error_message, find_downstream,
}
use clyman.Controller.Status.{Matches, bare_text, finish-Matches, send-Matches}
use clyman.Controller.Caught.{log_index, parse_index, index_or_zero}
use clyman.Controller.Frame.{
  object_frame_request, object_frame_delete_request, respond, build, process, refuse, delete_step,
  find_step, announce,
}

log_index-crash :
    (n : ℤ) → (ltb_ℤ n (pos 0) || ltb_ℤ (pos 34) n) ≡ true → log_index n ≡ Outcome.crash
unfolding log_index
log_index-crash (pos n) h = ground arith
log_index-crash (negsuc n) h = refl

module _ (fl : Floats) {W : Type 0} (manager : DatabaseManager fl.Float W) where
  open fl use {Float, Double}
  open manager use {get_object, delete_object_keyframe}

  refuse-Matches : Returns Matches (refuse fl manager)
  unfolding refuse set_error_code
  refuse-Matches s =
      send-Matches fl "text/plain"
        (record s { body = record s.body { err_code = translation_error } }) refl

  respond-Matches :
      (t : ℤ) (id name : String) (index : Option ℤ) (body : Parsed Double)
      → Returns Matches (respond fl manager t id name index body)
  unfolding respond
  respond-Matches t id name index (parse_error e) =
      bind-Returns Matches (set_error_message e) (λ _. refuse fl manager) (λ _. refuse-Matches)
  respond-Matches t id name none (document doc) = refuse-Matches
  respond-Matches t id name (some index) (document doc) =
      bind-Returns Matches (build fl manager doc) _ (λ inp_doc.
        bind-Returns Matches (process fl manager t id name index inp_doc) _
          (λ _. finish-Matches fl))

  pub object_frame_request-Matches :
      (t : ℤ) (id name index : String) (body : Parsed Double)
      → Returns Matches (object_frame_request fl manager t id name index body)
  unfolding object_frame_request
  object_frame_request-Matches t id name index body = bind-Returns Matches (init_response t) _ (λ _.
      bind-Returns Matches (if t == obj_frame_upd then parse_index index else pure (some (pos 0))) _
        (λ i.
          bind-Returns Matches (set_error_code no_error) _ (λ _. respond-Matches t id name i body)))

  pub object_frame_delete_request-Matches :
      (t : ℤ) (id name index : String)
      → Returns Matches (object_frame_delete_request fl manager t id name index)
  unfolding object_frame_delete_request
  object_frame_delete_request-Matches t id name index =
      bind-Returns Matches (init_response t) _ (λ _.
        bind-Returns Matches (parse_index index) _ (λ i.
          bind-Returns Matches (delete_step fl manager id name i) _ (λ deleted.
            bind-Returns Matches (find_step fl manager id deleted) _ (λ found.
              bind-Returns Matches find_downstream _ (λ d.
                bind-Returns Matches
                  (when found.0 (announce fl manager t id name (index_or_zero i) found.1 d)) _
                  (λ _. finish-Matches fl))))))

  -- A deletion whose index is no number deletes nothing, announces nothing, and is answered with 200,
  -- the text of the exception in the body.
  pub object_frame_delete_request_bad_index :
      (t : ℤ) (id name index : String) (s : Session (Object Float) Double W) (e : String)
      (d : Option Service) (c : ClusterManager)
      → stoi index ≡ Outcome.throw e
      → get_ivan s.cluster ≡ (Outcome.ok d, c)
      → let body = record new_data_list { msg_type = t; err_code = no_error; err_msg = e } in
        object_frame_delete_request fl manager t id name index s ≡ (
          Outcome.ok
              (record { status = 200; content_type = "application/json"; body = bare_text body }),
          record s { cluster = c; body = body },
        )
  unfolding object_frame_delete_request bare_text
  object_frame_delete_request_bad_index t id name index s e d c h g = simp (h, g)

  -- A creation of a keyframe whose index in the body is negative or greater than 34 ends in undefined
  -- behaviour, in a line that is only to log the index. The database is not asked and nothing is
  -- announced before that. The body of the request can be read.
  pub object_frame_request_bad_log :
      (id name index : String) (doc : Json Double) (f : ObjectFrame Float)
      (s : Session (Object Float) Double W)
      → build_object_frame fl doc ≡ Outcome.ok f
      → (ltb_ℤ f.base.frame (pos 0) || ltb_ℤ (pos 34) f.base.frame) ≡ true
      → let r = object_frame_request fl manager obj_frame_crt id name index (document doc) s in
        (r.0 ≡ Outcome.crash) × (r.1.db ≡ s.db) × (r.1.events ≡ s.events)
  unfolding object_frame_request respond build process
  object_frame_request_bad_log id name index doc f s hb h =
      let bad : log_index f.base.frame ≡ Outcome.crash = log_index-crash f.base.frame h in
      (simp (hb, bad), simp (hb, bad), simp (hb, bad))
