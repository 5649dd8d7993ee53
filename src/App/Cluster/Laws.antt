-- ===== src/App/Cluster/Laws.antt =====
-- What `get_ivan` returns, and what the updates from Consul leave behind.
use clyman.Prelude.{
  String, ◌==◌, string_eq, nat_eq, ◌≡◌, refl, ◌∙◌, sym, true, List, [], ◌∷◌, subst, Option, none,
  some, arith, Bool-cases,
}
use clyman.Outcome.{ok}
use clyman.Outcome.Io.{bind-Keeps, ◌>>◌}
use clyman.Json.{Parsed, parse_error, document, Json, object, members, find_member}
use clyman.App.Cluster.{
  Service, ClusterManager, discovering, fixed, get_ivan, return_member, update_cluster_info,
  update_cluster, set_spare, clear_spare, swap_vectors, services, service, named_service,
  add_service, has_tag, update_from,
}

module _ {D : Type 0} (cluster_name : String) where
  add_service-state :
      (ms : List (String × Json D)) (c : ClusterManager) → (add_service cluster_name ms c).1 ≡ c
  unfolding add_service has_tag
  add_service-state ms c = ground arith

  named_service-state :
      (ms : List (String × Json D)) (v : Option (Json D)) (c : ClusterManager)
      → (named_service cluster_name ms v c).1 ≡ c
  unfolding named_service
  named_service-state ms v c = ground (arith, add_service-state ms c)

  service-state : (v : Json D) (c : ClusterManager) → (service cluster_name v c).1 ≡ c
  unfolding service
  service-state (object ms) c =
      named_service-state (members ms) (find_member "Service" (members ms)) c
  service-state _ c = refl

  -- No service that Consul lists is kept: the list of tags that is searched is always empty.
  services-state :
      (ms : List (String × Json D)) (c : ClusterManager) → (services cluster_name ms c).1 ≡ c
  unfolding services
  services-state [] c = refl
  services-state ((k, v) ∷ ms) c =
      bind-Keeps (λ w. w ≡ c) (service cluster_name v) (λ _. services cluster_name ms)
        (λ w e. service-state v w ∙ e) (λ _ w e. services-state ms w ∙ e) c refl

-- A manager that discovers services, and knows of none.
abbrev pub IsEmpty : ClusterManager → Type 0
IsEmpty c =
    (c.cluster_members1 ≡ [])
    × (c.cluster_members2 ≡ [])
    × (c.current_return_index ≡ 0)
    × (c.discover_ivan ≡ true)

clear_spare-IsEmpty : (c : ClusterManager) → IsEmpty c → IsEmpty (clear_spare c).1
unfolding clear_spare set_spare
clear_spare-IsEmpty c e = ground (arith, Bool-cases (c.current_vector == 1))

get_ivan-IsEmpty : (c : ClusterManager) → IsEmpty c → get_ivan c ≡ (ok none, c)
unfolding get_ivan return_member
get_ivan-IsEmpty c e = ground (arith, Bool-cases (c.current_vector == 1))

module _ {D : Type 0} (cluster_name : String) where
  update_from-IsEmpty :
      (r : Parsed D) (c : ClusterManager) → IsEmpty c → IsEmpty (update_from cluster_name r c).1
  unfolding update_from swap_vectors
  update_from-IsEmpty (parse_error t) c e = e
  update_from-IsEmpty (document (object ms)) c e =
      bind-Keeps IsEmpty clear_spare (λ _. services cluster_name (members ms) >> swap_vectors)
        clear_spare-IsEmpty
        (λ _.
          bind-Keeps IsEmpty (services cluster_name (members ms)) (λ _. swap_vectors)
            (λ w p. subst IsEmpty (sym (services-state cluster_name (members ms) w)) p)
            (λ _ w p. p))
        c e
  update_from-IsEmpty (document _) c e = e

  update_cluster-IsEmpty :
      (rs : List (Parsed D)) (c : ClusterManager)
      → IsEmpty c
      → IsEmpty (update_cluster cluster_name rs c).1
  unfolding update_cluster update_cluster_info
  update_cluster-IsEmpty [] c e = e
  update_cluster-IsEmpty (r ∷ rs) c e =
      bind-Keeps IsEmpty (update_cluster_info cluster_name r) (λ _. update_cluster cluster_name rs)
        (λ w p. ground (arith, update_from-IsEmpty r w)) (λ _ w p. update_cluster-IsEmpty rs w p) c
        e

  -- Discovery never finds a service: whatever Consul answers, and however often, a manager that was
  -- made to discover services returns null.
  pub discovery_finds_nothing :
      (service_name : String) (rs : List (Parsed D))
      → let c = (update_cluster cluster_name rs (discovering service_name)).1 in
        get_ivan c ≡ (ok none, c)
  unfolding discovering
  discovery_finds_nothing service_name rs =
      get_ivan-IsEmpty _
        (update_cluster-IsEmpty rs (discovering service_name) (refl, refl, refl, refl))

-- A manager that is made for a fixed address always returns a service with that address and port: no
-- update changes the manager, whatever Consul answers and however often, and no read does.
pub fixed_stays :
    {D : Type 0} (host port cluster_name : String) (rs : List (Parsed D))
    → let s : Service = record {
      name = "Ivan";
      id = "Ivan";
      address = host;
      port = port;
      tags = [];
    } in
      (update_cluster cluster_name rs (fixed host port) ≡ (ok tt, fixed host port))
      × (get_ivan (fixed host port) ≡ (ok (some s), fixed host port))
unfolding fixed update_cluster update_cluster_info get_ivan
fixed_stays host port n [] = (refl, refl)
fixed_stays host port n (r ∷ rs) = fixed_stays host port n rs
