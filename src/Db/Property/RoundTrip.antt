-- ===== src/Db/Property/RoundTrip.antt =====
-- What a document built by src/db/property_database_manager.cpp gives back when it is read.
mod Values
pub mod Actions
use clyman.Prelude.{String, ◌≡◌, refl, ap, ◌∙◌, [], ◌∷◌, map, concat_map, some, take}
use clyman.Outcome.{ok}
use clyman.Floats.{Floats}
use clyman.SortedMap.{string_less}
use clyman.SortedMap.Laws.{Before-nil, IsAscending}
use clyman.Model.Property.{Property, new_property}
use clyman.Db.Bson.{Doc, oid, of_fields, fields-of_fields, get_utf8}
use clyman.Db.Property.Documents.{named_prop_action_doc, build_prop_doc, build_create_prop_doc}
use clyman.Db.Property.Read.{bson_to_prop}
use Values.{values_stored}
use Actions.{stored_action, AllStorable, actions_stored}

module _ (fl : Floats) where
  open fl use {Float, Double}

  -- What is left of a property that is stored and read under a key.
  abbrev pub stored_property : String → Property Float Double → Property Float Double
  stored_property key p = record {
    related = record p.related { key = key; asset_ids = [] };
    values = take 4 p.values;
    name = p.name;
    action_map = map (stored_action fl) p.action_map;
  }

  -- With the texts alone.
  abbrev texts : String → Property Float Double → Property Float Double
  texts key p = record new_property {
    related = record p.related { key = key; asset_ids = [] };
    name = p.name;
  }

  -- A property that is created in the database and read from the document that is kept there, under
  -- the key it was given, comes back with its texts, its first four values and all its actions: each
  -- with its description, its owner and its keyframes in their order, each of these with its index,
  -- its owner, its first four values and a handle for each of them, which is new where there was none.
  -- The actions stand in the order of their names and the keyframes in that of their indices, and each
  -- keyframe keeps the index that it stands under. Assets are not stored.
  pub bson_to_prop-build_create_prop_doc :
      (p : Property Float Double) (key : String)
      → AllStorable fl p.action_map
      → IsAscending p.action_map
      → bson_to_prop fl (("_id", oid key) ∷ build_create_prop_doc fl p) new_property
        ≡ ok (stored_property key p)
  unfolding bson_to_prop build_create_prop_doc build_prop_doc of_fields get_utf8
  bson_to_prop-build_create_prop_doc p key s h =
      simp
        (
          values_stored fl p.values (texts key p),
          fields-of_fields (concat_map (named_prop_action_doc fl) p.action_map),
        )
        (actions_stored fl p.action_map (record (texts key p) { values = take 4 p.values }) s h
          (Before-nil p.action_map))
