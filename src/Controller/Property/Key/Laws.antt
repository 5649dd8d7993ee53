-- ===== src/Controller/Property/Key/Laws.antt =====
-- What the handler of a key answers.
use clyman.Prelude.{String, ℤ, ◌==◌, int_eq}
use clyman.Outcome.Io.{when, try_catch, Returns, bind-Returns}
use clyman.Floats.{Floats}
use clyman.Constants.{prop_del}
use clyman.Db.Interface.{PropertyManager}
use clyman.Controller.Handler.{init_response, failed}
use clyman.Controller.Status.{Matches}
use clyman.Controller.Property.Status.{finish-Matches}
use clyman.Controller.Property.Key.{property_key_request, announce_property_delete, execute}

module _ (fl : Floats) {W : Type 0} (manager : PropertyManager fl.Float fl.Double W) where
  open fl use {Float, Double}

  pub property_key_request-Matches :
      (t : ℤ) (id : String) → Returns Matches (property_key_request fl manager t id)
  unfolding property_key_request
  property_key_request-Matches t id = bind-Returns Matches (init_response t) _ (λ _.
      bind-Returns Matches (when (t == prop_del) (announce_property_delete fl manager t id)) _ (λ _.
        bind-Returns Matches (try_catch (execute fl manager t id) failed) _
          (λ _. finish-Matches fl)))
