-- ===== src/Controller/Property.antt =====
-- What the handlers of properties share: src/controller/include/property_base_handler.h,
-- property_key_handler.h, property_action_base_handler.h, property_action_delete_handler.h,
-- property_frame_base_handler.h and property_frame_delete_handler.h
pub mod Base
pub mod Key
pub mod Action
pub mod Frame
pub mod Status
pub mod Answers
pub mod Stored
mod Tests
use clyman.Prelude.{ℕ, String, ℤ, List, [], ◌∷◌, ◌++◌, Option, none, some}
use clyman.Outcome.{Outcome}
use clyman.Outcome.Io.{Io, pure, lift, ◌>>=◌}
use clyman.Floats.{Floats}
use clyman.Std.{stoi}
use clyman.Model.Property.{Property}
use clyman.Writer.Property.{property_to_json, property_list_to_msg_string}
use clyman.App.Cluster.{Service}
use clyman.Controller.Handler.{Session, Response, find_downstream, status_of}

-- A handler whose `response_body` is a list of properties.
abbrev pub PropertyHandler : Floats → Type 0 → Type 0 → Type 0
PropertyHandler fl W A = Io (Session (Property fl.Float fl.Double) fl.Double W) A

module _ (fl : Floats) {W : Type 0} where
  open fl use {Float, Double}

  -- The message is built before the port is read, and nothing is sent if that throws.
  unfoldable pub publish_property :
      String → Property Float Double → ℤ → Service → PropertyHandler fl W (Unit {0})
  unfolding stoi property_to_json
  publish_property scene p msg_type downstream = do
    port ← lift (stoi downstream.port)
    λ s. (
      Outcome.ok tt,
      record s {
        events =
            s.events
            ++ record {
              scene = scene;
              message = property_to_json fl p msg_type;
              host = downstream.address;
              port = port;
            }
              ∷ [];
      },
    )

  -- `if (downstream) publisher->publish_event(…)`
  unfoldable pub send_property_update :
      String → Property Float Double → ℤ → PropertyHandler fl W (Unit {0})
  unfolding find_downstream publish_property
  send_property_update scene p msg_type = do
    found ← find_downstream
    elim found [ none ↦ pure tt | some downstream ↦ publish_property scene p msg_type downstream ]

  -- `response.send()` and the body.
  unfoldable pub send_properties : ℕ → String → PropertyHandler fl W (Response Double)
  unfolding property_list_to_msg_string
  send_properties status content_type s = (
    Outcome.ok (record {
      status = status;
      content_type = content_type;
      body = property_list_to_msg_string fl s.body;
    }),
    s,
  )

  unfoldable pub finish_properties : PropertyHandler fl W (Response Double)
  unfolding send_properties status_of
  finish_properties s = send_properties (status_of s.body.err_code) "application/json" s
