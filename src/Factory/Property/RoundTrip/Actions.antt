-- ===== src/Factory/Property/RoundTrip/Actions.antt =====
-- The actions of a property: their JSON, and what is read of it.
use clyman.Prelude.{
  String, string_eq, is_empty, ◌≡◌, refl, ap, ◌∙◌, List, [], ◌∷◌, ◌++◌, map, append-nil, concat_map,
  append_assoc, false, some, eq_iff, Bool-cases, inl, inr, sym,
}
use clyman.Outcome.{Outcome, ok, for_each}
use clyman.Floats.{Floats}
use clyman.SortedMap.{SortedMap, string_less, int_less}
use clyman.SortedMap.Laws.{
  string_less_refl, emplace-last, find-last, replace-last, AllUnder, Before, Before-shift,
  Before-nil, IsAscending,
}
use clyman.Model.Related.{new_related}
use clyman.Model.Animation.{new_action}
use clyman.Model.Property.{Property, add_prop_action, get_prop_action, put_prop_action}
use clyman.Json.{
  Json, string, array, object, items, fields, elements-items, members-fields, find_member,
}
use clyman.Json.Tokens.{
  tokens, item_tokens, item_tokens-nil, item_tokens-cons, text_member, token_laws,
}
use clyman.Writer.Property.{write_prop_action}
use clyman.Factory.Property.{
  Action, property_action_from_iterator, named_prop_action, prop_action_step,
}
use clyman.Factory.Property.RoundTrip.Frames.{
  AllIndexed, frame_json, reread_frame, keyframes_read, tokens-frame_jsons,
}

module _ {D S : Type 0} (step : S → String × Json D → Outcome S) where
  -- An attribute that is left out where its text is empty sets what it is read into.
  pub text_member_read :
      (k v : String) (set : S → String → S) (s : S) (rest : List (String × Json D))
      → step s (k, string v) ≡ ok (set s v)
      → set s "" ≡ s
      → for_each step s (text_member k v ++ rest) ≡ for_each step (set s v) rest
  unfolding for_each
  text_member_read k v set s rest h empty = elim (Bool-cases (is_empty v)) [
    | inl e ↦
        rw e (ap (λ s'. for_each step s' rest) (sym empty ∙ ap (set s) (sym ((eq_iff v "").0 e))))
    | inr e ↦ rw e (simp (h))
  ]

module _ (fl : Floats) where
  open fl use {Float, Double}

  abbrev pub action_members : String × Action fl → List (String × Json Double)
  action_members (name, a) =
      text_member "name" name
      ++ (text_member "description" a.description
          ++ ("keyframes", array (items (map (frame_json fl) a.keyframes))) ∷ [])

  abbrev pub action_json : String × Action fl → Json Double
  action_json (name, a) = object (fields (action_members (name, a)))

  -- The owner of an action and what identifies it are not written.
  abbrev pub reread_action : String × Action fl → String × Action fl
  reread_action (name, a) = (
    name,
    record {
      related = new_related;
      name = name;
      description = a.description;
      owner = "";
      keyframes = map (reread_frame fl) a.keyframes;
    },
  )

  -- An action as a writer and a reader want it: with a name, and its keyframes in order.
  abbrev pub IsWritable : String × Action fl → Type 0
  IsWritable (name, a) =
      (is_empty name ≡ false) × AllIndexed fl a.keyframes × IsAscending a.keyframes

  action_members_read :
      (name : String) (a : Action fl)
      → IsAscending a.keyframes
      → for_each (property_action_from_iterator fl) new_action (action_members (name, a))
        ≡ ok (reread_action (name, a)).1
  unfolding for_each property_action_from_iterator
  action_members_read name a h =
      text_member_read (property_action_from_iterator fl) "name" name (λ r v. record r { name = v })
        new_action _ refl refl
      ∙ (text_member_read (property_action_from_iterator fl) "description" a.description
            (λ r v. record r { description = v }) _ _ refl refl
          ∙ simp (
            elements-items (map (frame_json fl) a.keyframes),
            keyframes_read fl a.keyframes
                (record new_action { name = name; description = a.description })
                (Before-nil a.keyframes) h,
          ))

  named_action_read :
      (p : Property Float Double) (name : String) (a : Action fl)
      → AllUnder p.action_map name
      → IsAscending a.keyframes
      → named_prop_action fl p (action_members (name, a)) (some (string name))
        ≡ ok (record p { action_map = p.action_map ++ reread_action (name, a) ∷ [] })
  unfolding named_prop_action add_prop_action get_prop_action put_prop_action
  named_action_read p name a u h = simp (
    emplace-last name new_action p.action_map u,
    find-last name new_action p.action_map (string_less_refl name) u,
    action_members_read name a h,
    replace-last name new_action (reread_action (name, a)).1 p.action_map (string_less_refl name) u,
  )

  find_name :
      (name : String) (a : Action fl)
      → is_empty name ≡ false
      → find_member "name" (action_members (name, a)) ≡ some (string name)
  unfolding find_member
  find_name name a named = rw named refl

  action_read :
      (p : Property Float Double) (name : String) (a : Action fl)
      → AllUnder p.action_map name
      → IsWritable (name, a)
      → prop_action_step fl p (action_json (name, a))
        ≡ ok (record p { action_map = p.action_map ++ reread_action (name, a) ∷ [] })
  unfolding prop_action_step
  action_read p name a u (named, _, h) =
      simp (members-fields (action_members (name, a)), find_name name a named)
        (named_action_read p name a u h)

  abbrev pub AllWritable : SortedMap String (Action fl) → Type 0
  AllWritable [] = Unit
  AllWritable (e ∷ m) = IsWritable e × AllWritable m

  pub actions_read :
      (m : SortedMap String (Action fl)) (p : Property Float Double)
      → Before p.action_map m
      → IsAscending m
      → AllWritable m
      → for_each (prop_action_step fl) p (map action_json m)
        ≡ ok (record p { action_map = p.action_map ++ map reread_action m })
  unfolding for_each
  actions_read [] p b h w = simp (append-nil)
  actions_read ((name, a) ∷ m) p (u, b) (o, h) (w, ws) =
      simp (action_read p name a u w)
        (actions_read m _ (Before-shift p.action_map m name _ b o) h ws ∙ simp (append_assoc))

  tokens-action_json :
      (name : String) (a : Action fl)
      → AllIndexed fl a.keyframes
      → tokens (action_json (name, a)) ≡ write_prop_action fl (name, a)
  unfolding write_prop_action
  tokens-action_json name a h = simp (token_laws, tokens-frame_jsons fl a.keyframes h)

  pub tokens-action_jsons :
      (m : SortedMap String (Action fl))
      → AllWritable m
      → item_tokens (items (map action_json m)) ≡ concat_map (write_prop_action fl) m
  tokens-action_jsons [] h = item_tokens-nil
  tokens-action_jsons ((name, a) ∷ m) ((_, b, _), h) =
      simp (item_tokens-cons, tokens-action_json name a b, tokens-action_jsons m h)
