-- ===== src/Controller/Refusals.antt =====
-- Requests whose body is no JSON, in the three handlers that read one.
use clyman.Prelude.{String, ℤ, ◌==◌, int_eq, false, refl, ◌≡◌}
use clyman.Outcome.{Outcome}
use clyman.Floats.{Floats}
use clyman.Json.{parse_error}
use clyman.Constants.{translation_error, obj_frame_upd}
use clyman.Model.Object.{Object}
use clyman.Model.DataList.{DataList, new_data_list}
use clyman.Db.Interface.{DatabaseManager}
use clyman.Controller.Handler.{Session, Response}
use clyman.Controller.Status.{bare_text}
use clyman.Controller.ObjectBase.{object_base_request}
use clyman.Controller.Action.{object_action_request}
use clyman.Controller.Frame.{object_frame_request}

module _ (fl : Floats) {W : Type 0} (manager : DatabaseManager fl.Float W) where
  open fl use {Float, Double}

  abbrev pub refused_body : ℤ → String → DataList (Object Float)
  refused_body t e = record new_data_list {
    msg_type = t;
    err_code = translation_error;
    err_msg = e;
  }

  abbrev pub refusal : String → ℤ → String → Response Double
  refusal content_type t e = record {
    status = 400;
    content_type = content_type;
    body = bare_text (refused_body t e);
  }

  -- A body that is no JSON is answered with 400 and the parser's text by the handlers of objects, of
  -- actions and, for requests that are no update, of keyframes; neither the database nor the cluster
  -- manager is called, and no event goes out.
  pub parse_error_refused :
      (t : ℤ) (id name index e : String) (s : Session (Object Float) Double W)
      → (t == obj_frame_upd) ≡ false
      → (object_base_request fl manager t id (parse_error e) s
          ≡ (Outcome.ok (refusal "application/json" t e), record s { body = refused_body t e }))
        × (object_action_request fl manager t id name (parse_error e) s
            ≡ (Outcome.ok (refusal "application/json" t e), record s { body = refused_body t e }))
        × (object_frame_request fl manager t id name index (parse_error e) s
            ≡ (Outcome.ok (refusal "text/plain" t e), record s { body = refused_body t e }))
  unfolding object_base_request object_action_request object_frame_request bare_text
  parse_error_refused t id name index e s h = (refl, refl, simp (h))
