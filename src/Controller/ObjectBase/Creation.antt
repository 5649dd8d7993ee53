-- ===== src/Controller/ObjectBase/Creation.antt =====
-- The creation of the objects of a request.
use clyman.Prelude.{String, ℤ, ◌≡◌, ◌∙◌, true, List, [], ◌∷◌, ◌++◌, none, append_assoc, append-nil}
use clyman.Outcome.{Outcome}
use clyman.Floats.{Floats}
use clyman.Constants.{obj_crt, no_error}
use clyman.Json.{Json, document}
use clyman.Json.Write.{Token}
use clyman.Writer.{to_msg_string}
use clyman.Factory.Object.{build_object_list}
use clyman.Model.Object.{Object, new_object, set_key}
use clyman.Model.DataList.{DataList, new_data_list, add_object}
use clyman.App.Cluster.{get_ivan}
use clyman.Db.Interface.{DatabaseManager, DatabaseResponse}
use clyman.Controller.Handler.{Session}
use clyman.Controller.ObjectBase.{object_base_request, process_objects}

module _ (fl : Floats) {W : Type 0} (manager : DatabaseManager fl.Float W)
    (answer : Object fl.Float → W → DatabaseResponse × String)
    (next : Object fl.Float → W → W) where
  open fl use {Float, Double}

  -- The database after the creations, one after another.
  abbrev pub created : List (Object Float) → W → W
  created [] w = w
  created (o ∷ os) w = created os (next o w)

  -- For every object a new one that holds the generated key and nothing else.
  abbrev pub outputs : List (Object Float) → W → List (Object Float)
  outputs [] w = []
  outputs (o ∷ os) w = set_key (new_object fl) (answer o w).1 ∷ outputs os (next o w)

  module _
      (ha : (o : Object Float) (w : W)
        → manager.create_object o w ≡ (Outcome.ok (answer o w), next o w))
      (hs : (o : Object Float) (w : W) → (answer o w).0.success ≡ true) where
    create_objects :
        (n : ℤ) (os : List (Object Float)) (s : Session (Object Float) Double W)
        → get_ivan s.cluster ≡ (Outcome.ok none, s.cluster)
        → process_objects fl manager obj_crt "" n os s ≡ (
          Outcome.ok tt,
          record s {
            db = created os s.db;
            body = record s.body { objects = s.body.objects ++ outputs os s.db };
          },
        )
    unfolding process_objects add_object
    create_objects n [] s h = simp (append-nil)
    create_objects n (o ∷ os) s h =
        let output = set_key (new_object fl) (answer o s.db).1 in
        simp (ha, hs, h)
          (create_objects n os
              (record s {
                db = next o s.db;
                body = record s.body { objects = s.body.objects ++ output ∷ [] };
              })
              h
            ∙ simp (append_assoc s.body.objects (output ∷ []) (outputs os (next o s.db))))

  -- What a creation answers with.
  abbrev pub creation : List (Object Float) → W → DataList (Object Float)
  creation os w = record new_data_list {
    msg_type = obj_crt;
    err_code = no_error;
    objects = outputs os w;
  }

-- Where the body is a list of objects, the database accepts every object and no service downstream is
-- known, a creation hands the objects to the database one after another in their order, and answers
-- with 200 and a list of as many objects, each with nothing but its generated key. The text of that
-- list is given to be `ts`.
pub object_base_request_creates :
    (fl : Floats) {W : Type 0} (manager : DatabaseManager fl.Float W)
    (answer : Object fl.Float → W → DatabaseResponse × String) (next : Object fl.Float → W → W)
    (doc : Json fl.Double) (l : DataList (Object fl.Float))
    (s : Session (Object fl.Float) fl.Double W) (ts : List (Token fl.Double))
    → ((o : Object fl.Float) (w : W)
        → manager.create_object o w ≡ (Outcome.ok (answer o w), next o w))
    → ((o : Object fl.Float) (w : W) → (answer o w).0.success ≡ true)
    → get_ivan s.cluster ≡ (Outcome.ok none, s.cluster)
    → build_object_list fl doc ≡ Outcome.ok l
    → to_msg_string fl (creation fl manager answer next l.objects s.db) ≡ Outcome.ok ts
    → object_base_request fl manager obj_crt "" (document doc) s ≡ (
      Outcome.ok (record { status = 200; content_type = "application/json"; body = ts }),
      record s {
        db = created fl manager answer next l.objects s.db;
        body = creation fl manager answer next l.objects s.db;
      },
    )
unfolding object_base_request
object_base_request_creates fl manager answer next doc l s ts ha hs hi hl ht = simp (hl) (
    simp
      (create_objects fl manager answer next ha hs l.num_records l.objects
        (record s { body = record new_data_list { msg_type = obj_crt; err_code = no_error } }) hi)
      (simp (ht)))
