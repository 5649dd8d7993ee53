-- ===== src/Db/Property/Stored.antt =====
-- A property that is created, and that is found: `create_property` and `get_property` against a
-- database that stores what it is given.
use clyman.Prelude.{ap, ℕ, ltb, String, pos, ◌≡◌, true, [], ◌∷◌, ◌++◌, none, some}
use clyman.Outcome.{Outcome}
use clyman.Floats.{Floats}
use clyman.Constants.{processing_error}
use clyman.Model.Property.{Property, new_property}
use clyman.Model.DataList.{DataList, add_object}
use clyman.Db.Bson.{oid, Doc}
use clyman.Db.Core.{Mongo, Core, done, init}
use clyman.Db.Interface.{DatabaseResponse}
use clyman.Db.Manager.{insert_step, after_insert}
use clyman.Db.Query.{loop, on_core}
use clyman.Db.Property.Documents.{build_create_prop_doc}
use clyman.Db.Property.Transaction.{prop_main_doc}
use clyman.Db.Property.Manager.{create_property, prop_retry}
use clyman.Db.Property.Query.{read_into, found_prop, get_property}
use clyman.Db.Property.Read.{bson_to_prop}

abbrev pub inserted : DatabaseResponse
inserted = record { success = true; error_message = ""; error_code = pos 100 }

module _ (fl : Floats) {W : Type 0} (mongo : Mongo fl.Double W) where
  open fl use {Float, Double}
  open mongo use {acquire, parse_oid, insert_one, find_one}

  -- A creation inserts one document, and returns the key that the database made.
  pub create_property-inserts :
      (p : Property Float Double) (c : Core W) (w w' : W) (n : ℕ) (key : String)
      → ltb 0 n ≡ true
      → c.initialized ≡ true
      → acquire c.world ≡ (done tt, w)
      → insert_one (build_create_prop_doc fl p) w ≡ (done (n, key), w')
      → create_property fl mongo p c ≡ (Outcome.ok (inserted, key), record c { world = w' })
  unfolding create_property prop_retry prop_main_doc insert_step after_insert init
  create_property-inserts p c w w' n key hn hi ha hs = simp (hi, ha) (simp (hs, hn))

  found_prop-reads :
      (l : DataList (Property Float Double)) (d : Doc Double) (p : Property Float Double)
      → bson_to_prop fl d new_property ≡ Outcome.ok p
      → found_prop fl mongo l (some d)
        ≡ Outcome.ok (record l { num_records = pos 1; objects = l.objects ++ p ∷ [] })
  unfolding found_prop read_into add_object
  found_prop-reads l d p hb = ap (read_into fl mongo l) hb

  -- What is found under a key is read and added to the list.
  pub get_property-finds :
      (key id : String) (l : DataList (Property Float Double)) (c : Core W) (w w' : W)
      (d : Doc Double) (p : Property Float Double)
      → c.initialized ≡ true
      → parse_oid key ≡ Outcome.ok id
      → acquire c.world ≡ (done tt, w)
      → find_one (("_id", oid id) ∷ []) w ≡ (done (some d), w')
      → bson_to_prop fl d new_property ≡ Outcome.ok p
      → get_property fl mongo key (l, c) ≡ (
        Outcome.ok tt,
        (record l { num_records = pos 1; objects = l.objects ++ p ∷ [] }, record c { world = w' }),
      )
  unfolding get_property loop on_core init
  get_property-finds key id l c w w' d p hi hp ha hf hb =
      simp (hi, hp, ha)
        (simp (hf) (simp (found_prop-reads (record l { num_records = pos 0 }) d p hb)))

  -- Where there is no such document, the list says so, and has no records.
  pub get_property-misses :
      (key id : String) (l : DataList (Property Float Double)) (c : Core W) (w w' : W)
      → c.initialized ≡ true
      → parse_oid key ≡ Outcome.ok id
      → acquire c.world ≡ (done tt, w)
      → find_one (("_id", oid id) ∷ []) w ≡ (done none, w')
      → get_property fl mongo key (l, c) ≡ (
        Outcome.ok tt,
        (
          record l {
            num_records = pos 0;
            err_code = processing_error;
            err_msg = "No results returned from query";
          },
          record c { world = w' },
        ),
      )
  unfolding get_property loop on_core init found_prop
  get_property-misses key id l c w w' hi hp ha hf = simp (hi, hp, ha) (simp (hf))
