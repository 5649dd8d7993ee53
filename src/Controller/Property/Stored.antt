-- ===== src/Controller/Property/Stored.antt =====
-- The handlers of properties over the manager of src/db: what is posted is found again.
use clyman.Prelude.{ℕ, ltb, String, pos, int_eq, ◌≡◌, true, [], ◌∷◌, none, some}
use clyman.Outcome.{Outcome}
use clyman.Floats.{Floats}
use clyman.Constants.{prop_crt, prop_get, no_error, not_found}
use clyman.SortedMap.{string_less}
use clyman.SortedMap.Laws.{IsAscending}
use clyman.Json.{Json, document}
use clyman.Factory.Property.{build_property_list}
use clyman.Model.Property.{Property, new_property, set_prop_key}
use clyman.Model.DataList.{DataList, new_data_list, add_object}
use clyman.Writer.Property.{property_list_to_msg_string}
use clyman.App.Cluster.{get_ivan}
use clyman.Db.Bson.{oid}
use clyman.Db.Core.{Mongo, Core, done}
use clyman.Db.Implementation.{property_manager}
use clyman.Db.Property.Documents.{build_create_prop_doc}
use clyman.Db.Property.RoundTrip.{stored_property, bson_to_prop-build_create_prop_doc}
use clyman.Db.Property.RoundTrip.Actions.{AllStorable}
use clyman.Db.Property.Stored.{create_property-inserts, get_property-finds}
use clyman.Controller.Handler.{Session, Response}
use clyman.Controller.Property.Base.{property_base_request, process_properties}
use clyman.Controller.Property.Key.{property_key_request}

module _ (fl : Floats) {W : Type 0} (mongo : Mongo fl.Double W) where
  open fl use {Float, Double}
  open mongo use {acquire, parse_oid, insert_one, find_one}

  -- A response with 200 and that list.
  abbrev pub listed : DataList (Property Float Double) → Response Double
  listed l = record {
    status = 200;
    content_type = "application/json";
    body = property_list_to_msg_string fl l;
  }

  -- The answer to a creation holds the key and nothing else.
  abbrev pub created_list : String → DataList (Property Float Double)
  created_list key = record new_data_list {
    msg_type = prop_crt;
    err_code = no_error;
    objects = set_prop_key new_property key ∷ [];
  }

  abbrev pub found_list : Property Float Double → DataList (Property Float Double)
  found_list p = record new_data_list {
    msg_type = prop_get;
    err_code = no_error;
    num_records = pos 1;
    objects = p ∷ [];
  }

  abbrev pub PropertySession : Type 0
  PropertySession = Session (Property Float Double) Double (Core W)

  abbrev pub moved : PropertySession → W → DataList (Property Float Double) → PropertySession
  moved s w l = record s { db = record s.db { world = w }; body = l }

  post :
      (doc : Json Double) (l : DataList (Property Float Double)) (p : Property Float Double)
      (s : PropertySession) (w w' : W) (n : ℕ) (key : String)
      → build_property_list fl doc ≡ Outcome.ok l
      → l.objects ≡ p ∷ []
      → get_ivan s.cluster ≡ (Outcome.ok none, s.cluster)
      → ltb 0 n ≡ true
      → s.db.initialized ≡ true
      → acquire s.db.world ≡ (done tt, w)
      → insert_one (build_create_prop_doc fl p) w ≡ (done (n, key), w')
      → property_base_request fl (property_manager fl mongo) prop_crt "" (document doc) s
        ≡ (Outcome.ok (listed (created_list key)), moved s w' (created_list key))
  unfolding property_base_request process_properties property_manager add_object
  post doc l p s w w' n key hl ho hv hn hi ha hs =
      simp (hl, ho, create_property-inserts fl mongo p s.db w w' n key hn hi ha hs, hv)

  get :
      (p : Property Float Double) (s : PropertySession) (w w' : W) (key id : String)
      → AllStorable fl p.action_map
      → IsAscending p.action_map
      → s.db.initialized ≡ true
      → parse_oid key ≡ Outcome.ok id
      → acquire s.db.world ≡ (done tt, w)
      → find_one (("_id", oid id) ∷ []) w
        ≡ (done (some (("_id", oid id) ∷ build_create_prop_doc fl p)), w')
      → property_key_request fl (property_manager fl mongo) prop_get key s ≡ (
        Outcome.ok (listed (found_list (stored_property fl id p))),
        moved s w' (found_list (stored_property fl id p)),
      )
  unfolding property_key_request property_manager
  get p s w w' key id hs hasc hi hp ha hf = simp (
      get_property-finds fl mongo key id
        (record new_data_list { msg_type = prop_get; err_code = no_error }) s.db w w' _
        (stored_property fl id p) hi hp ha hf (bson_to_prop-build_create_prop_doc fl p id hs hasc))

  -- A property that is posted is found again: a creation whose body is a list of this one property
  -- answers with 200 and the key that the database made, and a get of that key then answers with 200
  -- and the property as it is stored, under its id. The pool gives connections, the database keeps the
  -- document that it is given, and no service downstream is known.
  pub created_property_found :
      (doc : Json Double) (l : DataList (Property Float Double)) (p : Property Float Double)
      (s : PropertySession) (w₁ w₂ w₃ w₄ : W) (n : ℕ) (key id : String)
      → build_property_list fl doc ≡ Outcome.ok l
      → l.objects ≡ p ∷ []
      → AllStorable fl p.action_map
      → IsAscending p.action_map
      → get_ivan s.cluster ≡ (Outcome.ok none, s.cluster)
      → s.db.initialized ≡ true
      → acquire s.db.world ≡ (done tt, w₁)
      → ltb 0 n ≡ true
      → insert_one (build_create_prop_doc fl p) w₁ ≡ (done (n, key), w₂)
      → acquire w₂ ≡ (done tt, w₃)
      → parse_oid key ≡ Outcome.ok id
      → find_one (("_id", oid id) ∷ []) w₃
        ≡ (done (some (("_id", oid id) ∷ build_create_prop_doc fl p)), w₄)
      → (property_base_request fl (property_manager fl mongo) prop_crt "" (document doc) s
          ≡ (Outcome.ok (listed (created_list key)), moved s w₂ (created_list key)))
        × (property_key_request fl
              (property_manager fl mongo)
              prop_get
              key
              (moved s w₂ (created_list key))
            ≡ (
              Outcome.ok (listed (found_list (stored_property fl id p))),
              moved s w₄ (found_list (stored_property fl id p)),
            ))
  created_property_found doc l p s w₁ w₂ w₃ w₄ n key id hl ho hs hasc hv hi h₁ hn h₂ h₃ hp h₄ = (
    post doc l p s w₁ w₂ n key hl ho hv hn hi h₁ h₂,
    get p (moved s w₂ (created_list key)) w₃ w₄ key id hs hasc hi hp h₃ h₄,
  )

  missing_list : DataList (Property Float Double)
  missing_list = record new_data_list {
    msg_type = prop_get;
    err_code = not_found;
    err_msg = "No results returned from query";
    num_records = pos 0;
  }
