-- ===== src/Db/RoundTrip/Tests.antt =====
-- Tests of actions and objects that are stored and read again.
use clyman.Prelude.{ℤ, pos, ◌≡◌, refl, [], ◌∷◌, some}
use clyman.Outcome.{ok, ◌>>=◌}
use clyman.Model.Handle.{AnimationGraphHandle}
use clyman.Model.Animation.{AnimationAction, ObjectFrame, new_action}
use clyman.Model.Related.{new_related}
use clyman.Model.Object.{Object, new_object}
use clyman.Db.Bson.{subdoc, oid}
use clyman.Db.Documents.{obj_action_doc, build_create_doc}
use clyman.Db.Read.{get_action_from_doc, bson_to_obj3}
use clyman.Db.RoundTrip.Actions.{get_action_from_doc-obj_action_doc}
use clyman.Db.RoundTrip.Objects.{restored_object, bson_to_obj3-build_create_doc}
use clyman.SortedMap.{int_less, string_less}
use clyman.Samples.{floats, stored}

abbrev handle : AnimationGraphHandle ℤ
handle = record {
  lh_x = pos 1;
  lh_y = pos 2;
  rh_x = pos 3;
  rh_y = pos 4;
  lh_type = "l";
  rh_type = "r";
}

abbrev frame : ℤ → ObjectFrame ℤ
frame index = record {
  base = record { frame = index; owner = "me" };
  trans = stored.trans;
  related = new_related;
  translation = handle ∷ handle ∷ handle ∷ [];
  rotation = handle ∷ handle ∷ handle ∷ handle ∷ [];
  scale = handle ∷ handle ∷ handle ∷ [];
}

abbrev walk : AnimationAction (ObjectFrame ℤ)
walk = record new_action {
  name = "walk";
  keyframes = (pos 1, frame (pos 1)) ∷ (pos 5, frame (pos 5)) ∷ [];
}

get_action_from_doc-obj_action_doc_example :
    obj_action_doc floats walk
      >>= (λ d. get_action_from_doc floats (some (subdoc d)) new_action "walk")
    ≡ ok walk
get_action_from_doc-obj_action_doc_example =
    get_action_from_doc-obj_action_doc floats walk "walk"
      ((refl, refl, refl), ((refl, refl, refl), tt)) (((refl, refl), tt), (tt, tt))

abbrev walker : Object ℤ
walker = record stored { action_map = ("run", walk) ∷ ("walk", walk) ∷ [] }

bson_to_obj3-build_create_doc_example :
    build_create_doc floats walker
      >>= (λ d. bson_to_obj3 floats (("_id", oid "k") ∷ d) (new_object floats))
    ≡ ok (restored_object floats "k" walker)
bson_to_obj3-build_create_doc_example =
    bson_to_obj3-build_create_doc floats walker "k"
      (
        (((refl, refl, refl), ((refl, refl, refl), tt)), (((refl, refl), tt), (tt, tt))),
        ((((refl, refl, refl), ((refl, refl, refl), tt)), (((refl, refl), tt), (tt, tt))), tt),
      )
      (((refl, refl), tt), (tt, tt))
