-- ===== src/Db/Tests.antt =====
-- Tests of the database manager, over a driver that counts its calls.
use clyman.Prelude.{suc, ◌≤◌, ℤ, pos, ◌≡◌, refl, List, [], ◌∷◌, some, none, true, false}
use clyman.Outcome.{Outcome, ◌>>=◌}
use clyman.Constants.{db_update, not_found}
use clyman.Model.Handle.{AnimationGraphHandle}
use clyman.Model.Animation.{ObjectFrame, new_object_frame}
use clyman.Model.Object.{Object, new_object}
use clyman.Model.DataList.{DataList, new_data_list}
use clyman.Db.Bson.{Doc, subdoc}
use clyman.Db.Documents.{obj_frame_doc}
use clyman.Db.Read.{get_frame_from_doc, bson_to_obj3}
use clyman.Db.RoundTrip.{get_frame_from_doc-obj_frame_doc}
use clyman.Db.Transaction.{Arguments, main_doc, query_doc}
use clyman.Db.Manager.{lock_object, unlock_object, update_assets, transaction, is_update}
use clyman.Db.Manager.Documents.{
  succeeded, lock_object-update, unlock_object-update, update_assets_adds,
}
use clyman.Db.Manager.Retries.{transaction_missing}
use clyman.Db.Manager.Bounds.{counted, transaction_bounded}
use clyman.Db.Query.{object_query}
use clyman.Db.Query.Results.{object_query-take}
use clyman.Samples.{floats, driver, core, stored}

lock_object-update_example :
    lock_object floats (driver 1) "k" "device" core
    ≡ (Outcome.ok succeeded, record core { world = 1 })
lock_object-update_example =
    lock_object-update floats (driver 1) "k" "k" "device" core 0 1 1 refl refl refl refl refl refl

unlock_object-update_example :
    unlock_object floats (driver 1) "k" "device" core
    ≡ (Outcome.ok succeeded, record core { world = 1 })
unlock_object-update_example =
    unlock_object-update floats (driver 1) "k" "k" "device" core 0 1 1 refl refl refl refl refl

update_assets_adds_example :
    update_assets floats (driver 1) stored "k" false core
    ≡ update_assets floats (driver 1) stored "k" true core
update_assets_adds_example = update_assets_adds floats (driver 1) stored "k" core

abbrev arguments : Arguments floats
arguments = record { obj = some stored; action = none; aframe = none }

-- The documents of an update of `stored`.
unfoldable main : Outcome (Doc ℤ)
unfolding main_doc
main = main_doc floats db_update arguments true

abbrev doc_of : Outcome (Doc ℤ) → Doc ℤ
doc_of (Outcome.ok d) = d
doc_of _ = []

transaction_missing_example : transaction floats (driver 0) arguments "k" db_update true core ≡ (
  Outcome.ok (record {
    response = record {
      success = false;
      error_message = "No Documents Modified in DB";
      error_code = not_found;
    };
    key = "k";
  }),
  record core { world = 11 },
)
unfolding main main_doc query_doc is_update
transaction_missing_example =
    transaction_missing floats (driver 0) db_update arguments true "k" "k" (doc_of main) _ suc core
      refl refl refl refl refl refl (λ w. refl) (λ w. refl)

transaction_bounded_example :
    (transaction floats
      (counted (driver 0))
      arguments
      "k"
      db_update
      true
      (record { failures = 0; initialized = true; world = (0, 3) })).1.world.1
    ≤ 14
transaction_bounded_example =
    transaction_bounded floats (driver 0) arguments "k" db_update true
      (record { failures = 0; initialized = true; world = (0, 3) })

abbrev handle : AnimationGraphHandle ℤ
handle = record {
  lh_x = pos 1;
  lh_y = pos 2;
  rh_x = pos 3;
  rh_y = pos 4;
  lh_type = "l";
  rh_type = "r";
}

abbrev frame : ObjectFrame ℤ
frame = record {
  base = record { frame = pos 7; owner = "me" };
  trans = stored.trans;
  related = stored.related;
  translation = handle ∷ handle ∷ handle ∷ [];
  rotation = handle ∷ handle ∷ handle ∷ handle ∷ [];
  scale = handle ∷ handle ∷ handle ∷ [];
}

get_frame_from_doc-obj_frame_doc_example :
    obj_frame_doc floats frame
      >>= (λ d. get_frame_from_doc floats (some (subdoc d)) (new_object_frame floats) (pos 7))
    ≡ Outcome.ok (record frame { related = (new_object_frame floats).related })
unfolding new_object_frame
get_frame_from_doc-obj_frame_doc_example =
    get_frame_from_doc-obj_frame_doc floats frame (new_object_frame floats) (pos 7)
      (refl, refl, refl) (refl, refl, refl)

-- Documents without fields, which are read as new objects.
abbrev blanks : List (Doc ℤ)
blanks = [] ∷ [] ∷ [] ∷ []

abbrev list : DataList (Object ℤ)
list = record new_data_list { num_records = pos 1 }

object_query-take_example : object_query floats (driver 1) stored (pos 1) (list, core) ≡ (
  Outcome.ok tt,
  (record list { objects = new_object floats ∷ new_object floats ∷ [] }, record core { world = 1 }),
)
unfolding bson_to_obj3
object_query-take_example =
    object_query-take floats (driver 1) (λ d. new_object floats) stored 1 list blanks core 0 1
      (refl, (refl, (refl, tt))) refl refl refl
