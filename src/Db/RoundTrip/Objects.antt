-- ===== src/Db/RoundTrip/Objects.antt =====
-- Objects that are stored and read again.
use clyman.Prelude.{
  String, ◌≡◌, refl, ◌∙◌, List, [], ◌∷◌, ◌++◌, map, some, append_assoc, append-nil,
}
use clyman.Outcome.{ok, ◌>>=◌, gather, for_each}
use clyman.Floats.{Floats}
use clyman.SortedMap.{SortedMap, string_less, int_less}
use clyman.SortedMap.Laws.{
  string_less_refl, emplace-last, find-last, replace-last, AllUnder, Before, Before-shift,
  Before-nil, IsAscending,
}
use clyman.Model.Related.{add_asset}
use clyman.Model.Animation.{AnimationAction, ObjectFrame, new_action}
use clyman.Model.Object.{Object, new_object, add_action, get_action, put_action}
use clyman.Db.Bson.{
  utf8, oid, Doc, subdoc, of_fields, of_elements, fields-of_fields, elements-of_elements, get_utf8,
}
use clyman.Db.Documents.{transform_doc, obj_action_doc, named_action_doc, build_create_doc}
use clyman.Db.Read.{get_action_from_doc, action_step, read_asset, bson_to_obj3}
use clyman.Db.RoundTrip.{read_transform-transform_doc}
use clyman.Db.RoundTrip.Actions.{AllWhole, restored_action, stored_action, returned}

module _ (fl : Floats) where
  open fl use {Float, Double}

  read_all_assets :
      (xs : List String) (o : Object Float)
      → for_each (read_asset fl) o (map utf8 xs)
        ≡ ok (record o { related = record o.related { asset_ids = o.related.asset_ids ++ xs } })
  unfolding for_each read_asset get_utf8 add_asset
  read_all_assets [] o = simp (append-nil)
  read_all_assets (x ∷ xs) o =
      read_all_assets xs
        (record o { related = record o.related { asset_ids = o.related.asset_ids ++ x ∷ [] } })
      ∙ simp (append_assoc o.related.asset_ids (x ∷ []) xs)

  named_action_of :
      (name : String) (a : AnimationAction (ObjectFrame Float)) (d : Doc Double)
      → obj_action_doc fl a ≡ ok d
      → named_action_doc fl (name, a) ≡ ok ((name, subdoc (("name", utf8 name) ∷ d)) ∷ [])
  unfolding named_action_doc
  named_action_of name a d h = simp (h)

  action_step_of :
      (o : Object Float) (key name : String) (d : Doc Double)
      (g : AnimationAction (ObjectFrame Float))
      → AllUnder o.action_map name
      → get_action_from_doc fl (some (subdoc (("name", utf8 name) ∷ d))) new_action name ≡ ok g
      → action_step fl o (key, subdoc (("name", utf8 name) ∷ d))
        ≡ ok (record o { action_map = o.action_map ++ (name, g) ∷ [] })
  unfolding action_step of_fields add_action get_action put_action
  action_step_of o key name d g u h = simp (
    emplace-last name new_action o.action_map u,
    find-last name new_action o.action_map (string_less_refl name) u,
    h,
    replace-last name new_action g o.action_map (string_less_refl name) u,
  )

  -- Every action is as a store and a read want it.
  abbrev pub AllStorable : SortedMap String (AnimationAction (ObjectFrame Float)) → Type 0
  AllStorable [] = Unit
  AllStorable ((name, a) ∷ m) = (AllWhole fl a.keyframes × IsAscending a.keyframes) × AllStorable m

  abbrev pub restored_named :
      String × AnimationAction (ObjectFrame Float) → String × AnimationAction (ObjectFrame Float)
  restored_named (name, a) = (name, restored_action fl name a)

  stored_actions :
      (m : SortedMap String (AnimationAction (ObjectFrame Float)))
      → AllStorable m
      → IsAscending m
      → (ds : Doc Double) × (gather (named_action_doc fl) m ≡ ok ds)
        × ((o : Object Float)
            → Before o.action_map m
            → for_each (action_step fl) o ds
              ≡ ok (record o { action_map = o.action_map ++ map restored_named m }))
  unfolding gather for_each
  stored_actions [] w h = ([], refl, λ o b. simp (append-nil))
  stored_actions ((name, a) ∷ m) ((v, k), w) (q, h) =
      let (d, e, read) = stored_action fl a v k in
      let (ds, es, steps) = stored_actions m w h in
      (
        (name, subdoc (("name", utf8 name) ∷ d)) ∷ ds,
        simp (named_action_of name a d e, es),
        λ o (u, b).
            simp (action_step_of o name name d (restored_action fl name a) u (read name name).1) (
              steps
                (record o { action_map = o.action_map ++ (name, restored_action fl name a) ∷ [] })
                (Before-shift o.action_map m name (restored_action fl name a) b q)
              ∙ simp (
                  append_assoc o.action_map ((name, restored_action fl name a) ∷ [])
                    (map restored_named m))),
      )

  -- What is left of an object that is stored under a key and read again.
  abbrev pub restored_object : String → Object Float → Object Float
  restored_object key o = record o {
    related = record o.related { key = key };
    trans = (new_object fl).trans;
    action_map = map restored_named o.action_map;
  }

  -- An object that is created in the database and read from the document that is kept there, under
  -- the key it was given, comes back with its texts, its assets and its actions, but not with its
  -- transform, which is that of a new object. The actions stand in the order of their names, and each
  -- comes back as the database keeps actions.
  pub bson_to_obj3-build_create_doc :
      (o : Object Float) (key : String)
      → AllStorable o.action_map
      → IsAscending o.action_map
      → build_create_doc fl o >>= (λ d. bson_to_obj3 fl (("_id", oid key) ∷ d) (new_object fl))
        ≡ ok (restored_object key o)
  unfolding build_create_doc bson_to_obj3 new_object of_fields of_elements
  bson_to_obj3-build_create_doc o key w h =
      let (t, et, _) =
        returned (transform_doc fl "" o.trans) _ _
          (read_transform-transform_doc fl o.trans o.trans) in
      let (ds, es, steps) = stored_actions o.action_map w h in
      let plain = record o {
        related = record o.related { key = key; asset_ids = [] };
        trans = (new_object fl).trans;
        action_map = [];
      } in
      simp
        (
          et,
          es,
          elements-of_elements (map utf8 o.related.asset_ids),
          read_all_assets o.related.asset_ids plain,
          fields-of_fields ds,
        )
        (steps (record plain { related = record o.related { key = key } })
          (Before-nil o.action_map))
