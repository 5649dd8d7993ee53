-- ===== src/Controller/Property/Key/Answered.antt =====
-- A request for the key of a property is always answered.
use clyman.Prelude.{
  String, ℤ, pos, ◌==◌, int_eq, ◌≡◌, refl, Bool-cases, inl, inr, ltb_ℤ, Option, none, some,
}
use clyman.Outcome.Io.{pure, lift, ◌>>◌, try_catch, when}
use clyman.Outcome.Io.Safety.{
  Ends, IsSafe, bind-IsSafe, try_catch-IsSafe, when-IsSafe, if-IsSafe, lift-IsSafe, IsAnswered,
  safe-IsAnswered,
}
use clyman.Floats.{Floats}
use clyman.Constants.{prop_get, prop_del}
use clyman.Std.{stoi, stoi-total}
use clyman.Model.Property.{Property}
use clyman.Model.DataList.{DataList}
use clyman.App.Cluster.{Service, ClusterManager, get_ivan}
use clyman.Db.Interface.{PropertyManager}
use clyman.Controller.Caught.{mark_missing}
use clyman.Controller.Handler.Safety.{
  Any, HasFirst, SameCluster, on_list-IsSafe, on_db-IsSafe, on_body-IsSafe, find_downstream-IsSafe,
  failed-IsSafe, report-IsSafe,
}
use clyman.Controller.Handler.{
  Session, init_response, failed, on_list, on_db, on_body, report, set_error_code, find_downstream,
}
use clyman.Controller.Property.{publish_property, send_property_update, finish_properties}
use clyman.Controller.Property.Key.{
  property_key_request, announce_property_delete, event_property, execute, process_get_message,
  process_delete_message,
}

module _ (fl : Floats) {W : Type 0} (manager : PropertyManager fl.Float fl.Double W) where
  open fl use {Float, Double}
  open manager use {get_property, delete_property}

  abbrev PropertySession : Type 0
  PropertySession = Session (Property Float Double) Double W

  publish-IsSafe :
      (scene : String) (p : Property Float Double) (t : ℤ) (d : Service)
      → IsSafe (Any {A = PropertySession}) (publish_property fl scene p t d) (λ _. Any) Any
  unfolding publish_property
  publish-IsSafe scene p t d =
      bind-IsSafe (λ _. Any) (λ _. Any) Any Any (lift (stoi d.port)) _
        (lift-IsSafe Any (stoi d.port) (stoi-total d.port)) (λ _ s h. tt)

  published :
      (scene : String) (p : Property Float Double) (t : ℤ) (found : Option Service)
      → IsSafe
          (Any {A = PropertySession})
          (elim found [ none ↦ pure tt | some d ↦ publish_property fl scene p t d ])
          (λ _. Any)
          Any
  published scene p t none s h = tt
  published scene p t (some d) s h = publish-IsSafe scene p t d s h

  get-IsSafe :
      (id : String)
      → IsSafe Any (get_property id) (λ _. HasFirst) Any
      → IsSafe
          (Any {A = PropertySession})
          (process_get_message fl manager id >> mark_missing)
          (λ _. Any)
          Any
  unfolding process_get_message mark_missing set_error_code
  get-IsSafe id h =
      bind-IsSafe (λ _. Any) (λ _. Any) Any Any (on_body (get_property id)) _
        (on_body-IsSafe (get_property id) h)
        (λ _ s p. when-IsSafe Any Any (s.body.num_records == pos 0) _ (λ v q. tt) s tt)

  delete-IsSafe :
      (id : String)
      → IsSafe Any (delete_property id) (λ _. Any) Any
      → IsSafe (Any {A = PropertySession}) (process_delete_message fl manager id) (λ _. Any) Any
  unfolding process_delete_message
  delete-IsSafe id h =
      bind-IsSafe (λ _. Any) (λ _. Any) Any Any (on_db (delete_property id)) report
        (on_db-IsSafe (delete_property id) h) report-IsSafe

  execute-IsSafe :
      (t : ℤ) (id : String)
      → IsSafe Any (get_property id) (λ _. HasFirst) Any
      → IsSafe Any (delete_property id) (λ _. Any) Any
      → IsSafe (Any {A = PropertySession}) (execute fl manager t id) (λ _. Any) Any
  unfolding execute
  execute-IsSafe t id hg hd =
      if-IsSafe Any Any (λ _. Any) (t == prop_get) _ _ (get-IsSafe id hg)
        (if-IsSafe Any Any (λ _. Any) (t == prop_del) _ _ (delete-IsSafe id hd) (λ s p. tt))

  module _ (c : ClusterManager) (hc : Ends (λ _. Any) Any (get_ivan c)) where
    send-IsSafe :
        (scene : String) (p : Property Float Double) (t : ℤ)
        → IsSafe (SameCluster {W = W} c) (send_property_update fl scene p t) (λ _. Any) Any
    unfolding send_property_update
    send-IsSafe scene p t =
        bind-IsSafe (λ _. Any) (λ _. Any) Any (SameCluster c) find_downstream _
          (find_downstream-IsSafe c hc) (published scene p t)

    event-IsSafe :
        (id : String) (l : DataList (Property Float Double))
        → IsSafe
            (λ (s : PropertySession). HasFirst {W = W} (l, s.db) × (s.cluster ≡ c))
            (event_property fl manager id l)
            (λ _. SameCluster c)
            Any
    unfolding event_property
    event-IsSafe id l s (h, q) = elim (Bool-cases (ltb_ℤ (pos 0) l.num_records)) [
      | inl e ↦ let (p, g) = h e in simp (e, g) q
      | inr e ↦ simp (e) q
    ]

    announce-IsSafe :
        (t : ℤ) (id : String)
        → IsSafe Any (get_property id) (λ _. HasFirst) Any
        → IsSafe
            (SameCluster {W = W} c)
            (announce_property_delete fl manager t id)
            (λ _. Any)
            (λ _. ⊥)
    unfolding announce_property_delete
    announce-IsSafe t id h =
        try_catch-IsSafe (λ _. Any) Any (λ _. ⊥) (SameCluster c) _ failed
          (bind-IsSafe _ (λ _. Any) Any (SameCluster c) (on_list (get_property id)) _
            (on_list-IsSafe c (get_property id) h)
            (λ l.
              bind-IsSafe (λ _. SameCluster c) (λ _. Any) Any _ (event_property fl manager id l) _
                (event-IsSafe id l) (λ p. send-IsSafe p.related.scene_id p t)))
          (failed-IsSafe Any)

  -- A get or a deletion of a property is always answered: where the calls of the database return or
  -- throw, where a list that `get_property` has filled and that counts records has a first one, and
  -- where the cluster manager does not read past the end of its members, the handler returns a
  -- response, whatever port the service downstream has and whatever message type was asked for.
  pub property_key_request-IsAnswered :
      (t : ℤ) (id : String) (s : PropertySession)
      → IsSafe Any (get_property id) (λ _. HasFirst) Any
      → IsSafe Any (delete_property id) (λ _. Any) Any
      → Ends (λ _. Any) Any (get_ivan s.cluster)
      → IsAnswered (property_key_request fl manager t id) s
  unfolding property_key_request init_response finish_properties
  property_key_request-IsAnswered t id s hg hd hc =
      safe-IsAnswered (SameCluster s.cluster) (λ _. Any) (property_key_request fl manager t id)
        (bind-IsSafe (λ _. SameCluster s.cluster) (λ _. Any) (λ _. ⊥) (SameCluster s.cluster)
          (init_response t) _ (λ v p. p)
          (λ _.
            bind-IsSafe (λ _. Any) (λ _. Any) (λ _. ⊥) (SameCluster s.cluster)
              (when (t == prop_del) (announce_property_delete fl manager t id)) _
              (if-IsSafe (SameCluster s.cluster) (λ _. ⊥) (λ _. Any) (t == prop_del) _ _
                (announce-IsSafe s.cluster hc t id hg) (λ v p. tt))
              (λ _.
                bind-IsSafe (λ _. Any) (λ _. Any) (λ _. ⊥) Any
                  (try_catch (execute fl manager t id) failed) (λ _. finish_properties fl)
                  (try_catch-IsSafe (λ _. Any) Any (λ _. ⊥) Any _ failed (execute-IsSafe t id hg hd)
                    (failed-IsSafe Any))
                  (λ _ v p. tt))))
        s refl
