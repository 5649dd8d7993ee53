-- ===== src/Controller/Property/Status.antt =====
-- The HTTP status that the handlers of properties choose, against the error code in the body.
use clyman.Prelude.{String, int_eq, ◌≡◌, arith}
use clyman.Outcome.{Outcome}
use clyman.Outcome.Io.{Returns}
use clyman.Floats.{Floats}
use clyman.Constants.{translation_error}
use clyman.Model.Property.{Property}
use clyman.Controller.Handler.{Session, Response, status_of}
use clyman.Controller.Status.{Matches}
use clyman.Controller.Property.{send_properties, finish_properties}

module _ (fl : Floats) {W : Type 0} where
  open fl use {Float, Double}

  pub finish-Matches : Returns Matches (finish_properties fl {W = W})
  unfolding finish_properties send_properties
  finish-Matches s r s' e = ground arith

  pub refused-Matches :
      (content_type : String) (s : Session (Property Float Double) Double W)
      → s.body.err_code ≡ translation_error
      → (r : Response Double) (s' : Session (Property Float Double) Double W)
      → send_properties fl 400 content_type s ≡ (Outcome.ok r, s')
      → Matches r s'
  unfolding send_properties status_of
  refused-Matches content_type s c r s' e = ground arith
