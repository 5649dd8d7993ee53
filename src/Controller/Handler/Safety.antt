-- ===== src/Controller/Handler/Safety.antt =====
-- Which of the calls that handlers share cannot end in undefined behaviour.
use clyman.Prelude.{not, subst, sym, String, pos, ◌≡◌, true, ltb_ℤ, Option}
use clyman.Outcome.{Outcome}
use clyman.Outcome.Io.{Io}
use clyman.Outcome.Io.Safety.{Ends, IsSafe, when-IsSafe}
use clyman.Model.DataList.{DataList, new_data_list, get_object as nth_object}
use clyman.App.Cluster.{Service, ClusterManager, get_ivan}
use clyman.Db.Interface.{DatabaseResponse}
use clyman.Controller.Handler.{
  Session, on_list, take_list, on_db, on_body, find_downstream, failed, report, set_error_code,
  set_error_message,
}

abbrev pub Any : {A : Type 0} → A → Type 0
Any a = Unit {0}

-- Of a call that fills a list: a list that counts records has a first one.
abbrev pub HasFirst : {T W : Type 0} → DataList T × W → Type 0
HasFirst {T = T} (l, w) =
    ltb_ℤ (pos 0) l.num_records ≡ true → (t : T) × (nth_object l 0 ≡ Outcome.ok t)

module _ {T D W : Type 0} (c : ClusterManager) where
  -- The cluster manager is as it was.
  abbrev pub SameCluster : Session T D W → Type 0
  SameCluster s = s.cluster ≡ c

  taken :
      (s : Session T D W) (x : Outcome (Unit {0}) × (DataList T × W))
      → s.cluster ≡ c
      → Ends (λ _. HasFirst) Any x
      → Ends
          (λ (l : DataList T) (v : Session T D W). HasFirst {W = W} (l, v.db) × (v.cluster ≡ c))
          Any
          ((take_list x).0, record s { db = (take_list x).1 })
  unfolding take_list
  taken s (Outcome.ok u, (l, w)) p h = (h, p)
  taken s (Outcome.throw e, (l, w)) p h = tt
  taken s (Outcome.crash, (l, w)) p h = absurd h

  pub on_list-IsSafe :
      (m : Io (DataList T × W) (Unit {0}))
      → IsSafe Any m (λ _. HasFirst) Any
      → IsSafe SameCluster
          (on_list m)
          (λ (l : DataList T) (v : Session T D W). HasFirst {W = W} (l, v.db) × (v.cluster ≡ c))
          Any
  unfolding on_list
  on_list-IsSafe m h s p = taken s (m (new_data_list, s.db)) p (h (new_data_list, s.db) tt)

module _ {T D W : Type 0} where
  called :
      {A : Type 0} (s : Session T D W) (x : Outcome A × W)
      → Ends (λ _. Any) Any x
      → Ends (λ (a : A). Any) Any (x.0, record s { db = x.1 })
  called s (Outcome.ok a, w) h = tt
  called s (Outcome.throw e, w) h = tt
  called s (Outcome.crash, w) h = absurd h

  pub on_db-IsSafe :
      {A : Type 0} (m : Io W A)
      → IsSafe Any m (λ _. Any) Any
      → IsSafe Any (on_db {T = T} {D = D} m) (λ _. Any) Any
  on_db-IsSafe m h s p = called s (m s.db) (h s.db tt)

  filled :
      (s : Session T D W) (x : Outcome (Unit {0}) × (DataList T × W))
      → Ends (λ _. HasFirst) Any x
      → Ends (λ (u : Unit {0}). Any) Any (x.0, record s { db = x.1.1; body = x.1.0 })
  filled s (Outcome.ok a, w) h = tt
  filled s (Outcome.throw e, w) h = tt
  filled s (Outcome.crash, w) h = absurd h

  pub on_body-IsSafe :
      (m : Io (DataList T × W) (Unit {0}))
      → IsSafe Any m (λ _. HasFirst) Any
      → IsSafe Any (on_body {D = D} m) (λ _. Any) Any
  on_body-IsSafe m h s p = filled s (m (s.body, s.db)) (h (s.body, s.db) tt)

  found :
      (s : Session T D W) (x : Outcome (Option Service) × ClusterManager)
      → Ends (λ _. Any) Any x
      → Ends (λ (o : Option Service). Any) Any (x.0, record s { cluster = x.1 })
  found s (Outcome.ok a, w) h = tt
  found s (Outcome.throw e, w) h = tt
  found s (Outcome.crash, w) h = absurd h

  pub find_downstream-IsSafe :
      (c : ClusterManager)
      → Ends (λ _. Any) Any (get_ivan c)
      → IsSafe (SameCluster c) (find_downstream {T = T} {D = D} {W = W}) (λ _. Any) Any
  unfolding find_downstream
  find_downstream-IsSafe c h s p =
      found s (get_ivan s.cluster) (subst (λ d. Ends (λ _. Any) Any (get_ivan d)) (sym p) h)

  pub failed-IsSafe :
      (P : Session T D W → Type 0) (e : String) → IsSafe P (failed e) (λ _. Any) (λ _. ⊥)
  unfolding failed set_error_code set_error_message
  failed-IsSafe P e s p = tt

  pub report-IsSafe :
      (r : DatabaseResponse) → IsSafe (λ (s : Session T D W). Unit {0}) (report r) (λ _. Any) Any
  unfolding report set_error_code set_error_message
  report-IsSafe r = when-IsSafe Any Any (not r.success) _ (λ s p. tt)
