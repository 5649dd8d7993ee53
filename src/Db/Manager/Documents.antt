-- ===== src/Db/Manager/Documents.antt =====
-- What the methods of the object manager ask the database to do.
use clyman.Prelude.{ℕ, ltb, String, pos, ◌≡◌, refl, true, false, [], ◌∷◌, some, is_empty}
use clyman.Outcome.{Outcome}
use clyman.Floats.{Floats}
use clyman.Model.Object.{Object, new_object}
use clyman.Db.Bson.{Doc, utf8, dbl, oid, of_fields, subdoc, subarray}
use clyman.Db.Interface.{DatabaseResponse}
use clyman.Db.Core.{init, Mongo, Core, done}
use clyman.Db.Transaction.{main_doc, query_doc}
use clyman.Db.Manager.{retry, lock_object, unlock_object, update_assets}

module _ (fl : Floats) where
  open fl use {Float, Double, widen, zero_f, one_f}

  -- The stored identity.
  abbrev identity_doc : Doc Double
  identity_doc =
      ("r1_c1", dbl (widen one_f))
      ∷ ("r1_c2", dbl (widen zero_f))
      ∷ ("r1_c3", dbl (widen zero_f))
      ∷ ("r1_c4", dbl (widen zero_f))
      ∷ ("r2_c1", dbl (widen zero_f))
      ∷ ("r2_c2", dbl (widen one_f))
      ∷ ("r2_c3", dbl (widen zero_f))
      ∷ ("r2_c4", dbl (widen zero_f))
      ∷ ("r3_c1", dbl (widen zero_f))
      ∷ ("r3_c2", dbl (widen zero_f))
      ∷ ("r3_c3", dbl (widen one_f))
      ∷ ("r3_c4", dbl (widen zero_f))
      ∷ ("r4_c1", dbl (widen zero_f))
      ∷ ("r4_c2", dbl (widen zero_f))
      ∷ ("r4_c3", dbl (widen zero_f))
      ∷ ("r4_c4", dbl (widen one_f))
      ∷ []

  -- A lock asks for an object that nobody owns.
  abbrev pub lock_query : String → Doc Double
  lock_query id = ("_id", oid id) ∷ ("owner", utf8 "") ∷ []

  -- It sets the owner, and the transform to the identity, and pushes no assets.
  abbrev pub lock_update : String → Doc Double
  lock_update device =
      ("$set", subdoc (("owner", utf8 device) ∷ ("transform", subdoc identity_doc) ∷ []))
      ∷ ("$push", subdoc (("assets", subdoc (("$each", subarray []) ∷ [])) ∷ []))
      ∷ []

  -- An unlock asks for an object that the device owns, and clears the owner.
  abbrev pub unlock_query : String → String → Doc Double
  unlock_query id device = ("_id", oid id) ∷ ("owner", utf8 device) ∷ []

  abbrev pub unlock_update : Doc Double
  unlock_update = ("$set", subdoc (("owner", utf8 "") ∷ [])) ∷ []

abbrev pub succeeded : DatabaseResponse
succeeded = record { success = true; error_message = ""; error_code = pos 100 }

module _ (fl : Floats) {W : Type 0} (mongo : Mongo fl.Double W) where
  open mongo use {acquire, parse_oid, update_one}

  -- A lock by a device is one update: of the object with that key and with the empty owner, to the
  -- device as its owner and to the identity as its transform. If the database modifies an object, the
  -- lock has succeeded, whatever transform the object had, and nothing more is asked of the database.
  -- The manager has its connection, the pool gives one, the key is an id and the device has a name.
  pub lock_object-update :
      (key id device : String) (c : Core W) (w w' : W) (n : ℕ)
      → ltb 0 n ≡ true
      → c.initialized ≡ true
      → is_empty device ≡ false
      → parse_oid key ≡ Outcome.ok id
      → acquire c.world ≡ (done tt, w)
      → update_one (lock_query fl id) (lock_update fl device) w ≡ (done (some n), w')
      → lock_object fl mongo key device c ≡ (Outcome.ok succeeded, record c { world = w' })
  unfolding lock_object retry init main_doc query_doc new_object of_fields
  lock_object-update key id device c w w' n hn hi he ho ha hu =
      simp (hi, he, ho, ha) (simp (hu, hn))

  -- An unlock by a device asks the database for an update of the object with that key that the device
  -- owns, to the empty owner and to nothing else. If the database modifies an object, the unlock has
  -- succeeded and nothing more is asked of the database. The manager has its connection, the pool gives
  -- one, and the key is an id.
  pub unlock_object-update :
      (key id device : String) (c : Core W) (w w' : W) (n : ℕ)
      → ltb 0 n ≡ true
      → c.initialized ≡ true
      → parse_oid key ≡ Outcome.ok id
      → acquire c.world ≡ (done tt, w)
      → update_one (unlock_query fl id device) (unlock_update fl) w ≡ (done (some n), w')
      → unlock_object fl mongo key device c ≡ (Outcome.ok succeeded, record c { world = w' })
  unfolding unlock_object retry init main_doc query_doc new_object of_fields
  unlock_object-update key id device c w w' n hn hi ho ha hu = simp (hn, hi, ho, ha, hu)

  -- Removing assets does to the database, and answers, exactly what adding them does.
  pub update_assets_adds :
      (o : Object fl.Float) (key : String) (c : Core W)
      → update_assets fl mongo o key false c ≡ update_assets fl mongo o key true c
  unfolding update_assets
  update_assets_adds o key c = refl
