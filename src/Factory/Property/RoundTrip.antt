-- ===== src/Factory/Property/RoundTrip.antt =====
-- A property that src/model/property/json_property.cpp writes and src/model/factory/json_factory.cpp
-- reads again.
mod Frames
mod Actions
mod Tests
use clyman.Prelude.{
  String, ℤ, ◌≡◌, refl, ap, ◌∙◌, List, [], ◌∷◌, ◌++◌, map, append-nil, append_assoc,
}
use clyman.Outcome.{Outcome, ok, for_each}
use clyman.Floats.{Floats}
use clyman.Constants.{prop_upd}
use clyman.SortedMap.{SortedMap, string_less}
use clyman.SortedMap.Laws.{Before-nil, IsAscending}
use clyman.Model.Property.{Property, new_property}
use clyman.Json.{Json, int, double, array, object, items, fields, elements-items, members-fields}
use clyman.Json.Tokens.{
  tokens, item_tokens, member_tokens, member_tokens-nil, item_tokens-map, text_member, token_laws,
}
use clyman.Json.Write.{Token, dbl}
use clyman.Writer.Property.{values_elt, property_to_json}
use clyman.Factory.Property.{
  Action, prop_value_step, property_from_iterator, parse_property_body, build_property,
}
use Actions.{
  text_member_read, action_json, reread_action, AllWritable, actions_read, tokens-action_jsons,
}

module _ (fl : Floats) where
  open fl use {Float, Double}

  abbrev plain_values : List Double → List (String × Json Double)
  plain_values [] = []
  plain_values (v ∷ vs) = ("values", array (items (map double (v ∷ vs)))) ∷ []

  abbrev property_members : Property Float Double → List (String × Json Double)
  property_members p =
      ("msg_type", int prop_upd)
      ∷ (text_member "key" p.related.key
          ++ (text_member "name" p.name
              ++ (text_member "parent" p.related.parent
                  ++ (text_member "asset_sub_id" p.related.asset_sub_id
                      ++ (text_member "scene" p.related.scene_id
                          ++ (plain_values p.values
                              ++ ("actions", array (items (map (action_json fl) p.action_map)))
                                ∷ []))))))

  -- The JSON value of a property.
  abbrev pub property_json : Property Float Double → Json Double
  property_json p = object (fields (property_members p))

  -- What is read of it: all but the assets, what an action does not write, and the x of the right side
  -- of each handle.
  abbrev pub reread_property : Property Float Double → Property Float Double
  reread_property p = record p {
    related = record p.related { asset_ids = [] };
    action_map = map (reread_action fl) p.action_map;
  }

  values_tokens : (vs : List Double) → item_tokens (items (map double vs)) ≡ map dbl vs
  unfolding tokens items
  values_tokens [] = refl
  values_tokens (v ∷ vs) = ap (◌∷◌ (dbl v)) (values_tokens vs)

  plain_tokens :
      (vs : List Double) → member_tokens (fields (plain_values vs)) ≡ values_elt vs (map dbl vs)
  plain_tokens [] = member_tokens-nil
  plain_tokens (v ∷ vs) = simp (token_laws, values_tokens (v ∷ vs))

  property_tokens :
      (p : Property Float Double) (mtype : ℤ)
      → AllWritable fl p.action_map
      → property_to_json fl p mtype ≡ tokens (property_json p)
  unfolding property_to_json
  property_tokens p mtype w =
      simp (token_laws, plain_tokens p.values, tokens-action_jsons fl p.action_map w)

  values_read :
      (vs : List Double) (p : Property Float Double)
      → for_each (prop_value_step fl) p (map double vs) ≡ ok (record p { values = p.values ++ vs })
  unfolding for_each prop_value_step
  values_read [] p = simp (append-nil)
  values_read (v ∷ vs) p = values_read vs _ ∙ simp (append_assoc)

  plain_values_read :
      (vs : List Double) (p : Property Float Double) (rest : List (String × Json Double))
      → for_each (property_from_iterator fl) p (plain_values vs ++ rest)
        ≡ for_each (property_from_iterator fl) (record p { values = p.values ++ vs }) rest
  unfolding for_each property_from_iterator
  plain_values_read [] p rest = simp (append-nil)
  plain_values_read (v ∷ vs) p rest =
      simp (elements-items (map double (v ∷ vs)), values_read (v ∷ vs) p)

  actions_member_read :
      (p : Property Float Double) (m : SortedMap String (Action fl))
      → AllWritable fl m
      → IsAscending m
      → for_each
          (property_from_iterator fl)
          (record p { action_map = [] })
          (("actions", array (items (map (action_json fl) m))) ∷ [])
        ≡ ok (record p { action_map = map (reread_action fl) m })
  unfolding for_each property_from_iterator
  actions_member_read p m w h = simp (
    elements-items (map (action_json fl) m),
    actions_read fl m (record p { action_map = [] }) (Before-nil m) h w,
  )

  property_read :
      (p : Property Float Double)
      → AllWritable fl p.action_map
      → IsAscending p.action_map
      → build_property fl (property_json p) ≡ ok (reread_property p)
  unfolding build_property parse_property_body
  property_read p w h =
      let step = property_from_iterator fl in
      ap (for_each step new_property) (members-fields (property_members p))
      ∙ (text_member_read step "key" p.related.key
            (λ r v. record r { related = record r.related { key = v } }) new_property _ refl refl
          ∙ (text_member_read step "name" p.name (λ r v. record r { name = v }) _ _ refl refl
              ∙ (text_member_read step "parent" p.related.parent
                    (λ r v. record r { related = record r.related { parent = v } }) _ _ refl refl
                  ∙ (text_member_read step "asset_sub_id" p.related.asset_sub_id
                        (λ r v. record r { related = record r.related { asset_sub_id = v } }) _ _
                        refl refl
                      ∙ (text_member_read step "scene" p.related.scene_id
                            (λ r v. record r { related = record r.related { scene_id = v } }) _ _
                            refl refl
                          ∙ (plain_values_read p.values _ _
                              ∙ actions_member_read (reread_property p) p.action_map w h))))))

  -- A property is written as one well-nested JSON object, and that object is read as the same property,
  -- but for its assets, for what an action does not write (its owner, its key and scene, the owners of
  -- its keyframes), and for the x of the right side of each handle; a value of a keyframe that had no
  -- handle has a new one. The actions have names and stand in the order of these, and the keyframes
  -- stand in the order of their indices, which are whole numbers of 31 bits. The message type is
  -- PROP_UPD whatever type was asked for.
  pub build_property-property_to_json :
      (p : Property Float Double) (mtype : ℤ)
      → AllWritable fl p.action_map
      → IsAscending p.action_map
      → (property_to_json fl p mtype ≡ tokens (property_json p))
        × (build_property fl (property_json p) ≡ ok (reread_property p))
  build_property-property_to_json p mtype w h = (property_tokens p mtype w, property_read p w h)
