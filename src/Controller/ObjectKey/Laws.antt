-- ===== src/Controller/ObjectKey/Laws.antt =====
-- What the handler of a key answers.
use clyman.Prelude.{
  String, ℤ, ◌==◌, int_eq, ◌≡◌, pos, Bool, Bool-cases, inl, inr, true, false, if◌then◌else◌, List,
  [], ◌∷◌, ◌++◌, some,
}
use clyman.Outcome.{Outcome}
use clyman.Outcome.Io.{when, try_catch, Returns, bind-Returns}
use clyman.Floats.{Floats}
use clyman.Constants.{obj_del, obj_get, no_error, not_found}
use clyman.Std.{stoi}
use clyman.Json.Write.{Token}
use clyman.Writer.{to_msg_string, to_transform_json}
use clyman.Model.Object.{Object, new_object, set_key, set_scene}
use clyman.Model.DataList.{DataList, new_data_list}
use clyman.App.Cluster.{Service, ClusterManager, get_ivan}
use clyman.Db.Interface.{DatabaseManager, DatabaseResponse}
use clyman.Controller.Handler.{Session, Event, init_response, failed, status_of_result}
use clyman.Controller.Status.{MatchesResult, documented_result, finish_result-MatchesResult}
use clyman.Controller.ObjectKey.{object_key_request, announce_delete, execute}

module _ (fl : Floats) {W : Type 0} (manager : DatabaseManager fl.Float W) where
  open fl use {Float, Double}
  open manager use {get_object, delete_object}

  pub object_key_request-MatchesResult :
      (t : ℤ) (id : String) → Returns MatchesResult (object_key_request fl manager t id)
  unfolding object_key_request
  object_key_request-MatchesResult t id = bind-Returns MatchesResult (init_response t) _ (λ _.
      bind-Returns MatchesResult (when (t == obj_del) (announce_delete fl manager t id)) _ (λ _.
        bind-Returns MatchesResult (try_catch (execute fl manager t id) failed) _
          (λ _. finish_result-MatchesResult fl)))

  -- The list that a get leaves: a count of 0 becomes the code of an object that was not found.
  abbrev pub marked : DataList (Object Float) → DataList (Object Float)
  marked l = if l.num_records == pos 0 then record l { err_code = not_found } else l

  get_missing :
      (id : String) (s : Session (Object Float) Double W) (l : DataList (Object Float)) (w : W)
      (ts : List (Token Double))
      → get_object id (record new_data_list { msg_type = obj_get; err_code = no_error }, s.db)
        ≡ (Outcome.ok tt, (l, w))
      → (l.num_records == pos 0) ≡ true
      → to_msg_string fl (record l { err_code = not_found }) ≡ Outcome.ok ts
      → object_key_request fl manager obj_get id s ≡ (
        Outcome.ok (record { status = 404; content_type = "application/json"; body = ts }),
        record s { db = w; body = record l { err_code = not_found } },
      )
  unfolding object_key_request
  get_missing id s l w ts h e g = simp (h, e, g)

  get_found :
      (id : String) (s : Session (Object Float) Double W) (l : DataList (Object Float)) (w : W)
      (ts : List (Token Double))
      → get_object id (record new_data_list { msg_type = obj_get; err_code = no_error }, s.db)
        ≡ (Outcome.ok tt, (l, w))
      → (l.num_records == pos 0) ≡ false
      → to_msg_string fl l ≡ Outcome.ok ts
      → object_key_request fl manager obj_get id s ≡ (
        Outcome.ok (record {
          status = documented_result l.err_code;
          content_type = "application/json";
          body = ts;
        }),
        record s { db = w; body = l },
      )
  unfolding object_key_request status_of_result
  get_found id s l w ts h e g = simp (h, e, g)

  -- A get calls the database manager once, marks an empty result, and answers with the list and the
  -- status of its code; no event goes out. The text of the list is given to be `ts`.
  pub object_key_request_get :
      (id : String) (s : Session (Object Float) Double W) (l : DataList (Object Float)) (w : W)
      (ts : List (Token Double))
      → get_object id (record new_data_list { msg_type = obj_get; err_code = no_error }, s.db)
        ≡ (Outcome.ok tt, (l, w))
      → to_msg_string fl (marked l) ≡ Outcome.ok ts
      → object_key_request fl manager obj_get id s ≡ (
        Outcome.ok (record {
          status = if l.num_records == pos 0 then 404 else documented_result l.err_code;
          content_type = "application/json";
          body = ts;
        }),
        record s { db = w; body = marked l },
      )
  object_key_request_get id s l w ts h g = elim (Bool-cases (l.num_records == pos 0)) [
    | inl e ↦ simp (e) (get_missing id s l w ts h e (simp (e) at g))
    | inr e ↦ simp (e) (get_found id s l w ts h e (simp (e) at g))
  ]

  abbrev pub DeletedAs : String → Session (Object Float) Double W → Event Double → W → Type 0
  DeletedAs id s event w =
      let s' = (object_key_request fl manager obj_del id s).1 in
      (s'.events ≡ s.events ++ event ∷ []) × (s'.db ≡ w)

  module _ (id : String) (s : Session (Object Float) Double W) (o : Object Float)
      (l : DataList (Object Float)) (w w' : W) (d : Service) (c : ClusterManager) (port : ℤ)
      (ts : List (Token Double)) (h : get_object id (new_data_list, s.db) ≡ (Outcome.ok tt, (l, w)))
      (hn : l.num_records ≡ pos 1) (ho : l.objects ≡ o ∷ [])
      (hc : get_ivan s.cluster ≡ (Outcome.ok (some d), c))
      (ht : to_transform_json fl (set_key (set_scene (new_object fl) o.related.scene_id) id) obj_del
        ≡ Outcome.ok ts)
      (hp : stoi d.port ≡ Outcome.ok port) where
    abbrev deletion : Event Double
    deletion = record { scene = o.related.scene_id; message = ts; host = d.address; port = port }

    deleted_ok :
        (b : Bool) (m : String) (k : ℤ)
        → delete_object id w
          ≡ (Outcome.ok (record { success = b; error_message = m; error_code = k }), w')
        → DeletedAs id s deletion w'
    unfolding object_key_request
    deleted_ok true m k hd = (simp (h, hn, ho, hc, ht, hp, hd), simp (h, hn, ho, hc, ht, hp, hd))
    deleted_ok false m k hd = (simp (h, hn, ho, hc, ht, hp, hd), simp (h, hn, ho, hc, ht, hp, hd))

    deleted_as :
        (r : Outcome DatabaseResponse) → delete_object id w ≡ (r, w') → DeletedAs id s deletion w'
    unfolding object_key_request
    deleted_as (Outcome.ok r) hd = deleted_ok r.success r.error_message r.error_code hd
    deleted_as (Outcome.throw e) hd =
        (simp (h, hn, ho, hc, ht, hp, hd), simp (h, hn, ho, hc, ht, hp, hd))
    deleted_as Outcome.crash hd =
        (simp (h, hn, ho, hc, ht, hp, hd), simp (h, hn, ho, hc, ht, hp, hd))

  -- The event of a deletion goes out before the object is deleted, and goes out whatever the database
  -- then says: where the object is found and a service downstream is known, the events afterwards are
  -- the old ones and that of the deletion, even if the deletion failed.
  pub object_key_request_delete-announces :
      (id : String) (s : Session (Object Float) Double W) (o : Object Float)
      (l : DataList (Object Float)) (w w' : W) (r : Outcome DatabaseResponse) (d : Service)
      (c : ClusterManager) (port : ℤ) (ts : List (Token Double))
      → get_object id (new_data_list, s.db) ≡ (Outcome.ok tt, (l, w))
      → l.num_records ≡ pos 1
      → l.objects ≡ o ∷ []
      → get_ivan s.cluster ≡ (Outcome.ok (some d), c)
      → to_transform_json fl (set_key (set_scene (new_object fl) o.related.scene_id) id) obj_del
        ≡ Outcome.ok ts
      → stoi d.port ≡ Outcome.ok port
      → delete_object id w ≡ (r, w')
      → DeletedAs id s
          (record { scene = o.related.scene_id; message = ts; host = d.address; port = port })
          w'
  object_key_request_delete-announces id s o l w w' r d c port ts h hn ho hc ht hp hd =
      deleted_as id s o l w w' d c port ts h hn ho hc ht hp r hd
