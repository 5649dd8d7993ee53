-- ===== src/App/Cluster.antt =====
-- src/app/include/cluster_manager.h and cluster_loader_process.h
pub mod Laws
mod Tests
use clyman.Prelude.{
  ℕ, String, ◌==◌, string_eq, nat_eq, Bool, true, false, ◌||◌, ltb, List, [], ◌∷◌, ◌++◌, length,
  get_elem?, Option, none, some, if◌then◌else◌,
}
use clyman.Outcome.{Outcome, ok, throw, crash}
use clyman.Outcome.Io.{Io, pure, lift, ◌>>=◌, ◌>>◌, when}
use clyman.Json.{
  Parsed, parse_error, document, Json, null, int, string, object, members, find_member,
}
use clyman.Std.{to_string}

-- What the program reads of an AOSSL::ServiceInterface.
pub record Service : Type 0 where
  pub name : String
  pub id : String
  pub address : String
  pub port : String
  pub tags : List String

pub record ClusterManager : Type 0 where
  pub cluster_members1 : List Service
  pub cluster_members2 : List Service
  pub current_vector : ℕ
  pub current_return_index : ℕ
  pub service_registration_name : String
  pub discover_ivan : Bool
  pub fixed_ivan_addr : Option Service

-- The constructor over a profile.
unfoldable pub discovering : String → ClusterManager
discovering service_name = record {
  cluster_members1 = [];
  cluster_members2 = [];
  current_vector = 1;
  current_return_index = 0;
  service_registration_name = service_name;
  discover_ivan = true;
  fixed_ivan_addr = none;
}

-- The constructor over a fixed address.
unfoldable pub fixed : String → String → ClusterManager
fixed host port = record {
  cluster_members1 = [];
  cluster_members2 = [];
  current_vector = 1;
  current_return_index = 0;
  service_registration_name = "";
  discover_ivan = false;
  fixed_ivan_addr =
      some (record { name = "Ivan"; id = "Ivan"; address = host; port = port; tags = [] });
}

-- The member at the index; the increment below the returns is never reached.
return_member : List Service → Io ClusterManager (Option Service)
return_member [] c = (ok none, c)
return_member (m ∷ ms) c =
    let index =
      if ltb (length (m ∷ ms)) c.current_return_index then 0 else c.current_return_index in
    (
      elim (get_elem? (m ∷ ms) index) [ none ↦ crash | some s ↦ ok (some s) ],
      record c { current_return_index = index },
    )

unfoldable pub get_ivan : Io ClusterManager (Option Service)
unfolding return_member
get_ivan c =
    if c.discover_ivan
    then (if c.current_vector == 1
        then return_member c.cluster_members1 c
        else return_member c.cluster_members2 c)
    else (ok c.fixed_ivan_addr, c)

-- The vector that is not in use.
unfoldable pub spare : ClusterManager → List Service
spare c = if c.current_vector == 1 then c.cluster_members2 else c.cluster_members1

unfoldable pub set_spare : ClusterManager → List Service → ClusterManager
set_spare c ms =
    if c.current_vector == 1
    then record c { cluster_members2 = ms }
    else record c { cluster_members1 = ms }

push_spare : Service → Io ClusterManager (Unit {0})
unfolding spare set_spare
push_spare s c = (ok tt, set_spare c (spare c ++ s ∷ []))

swap_vectors : Io ClusterManager (Unit {0})
swap_vectors c = (ok tt, record c { current_vector = if c.current_vector == 1 then 2 else 1 })

clear_spare : Io ClusterManager (Unit {0})
unfolding set_spare
clear_spare c = (ok tt, set_spare c [])

-- `current_obj_tags`, which nothing fills.
abbrev current_obj_tags : List String
current_obj_tags = []

has_tag : List String → String → Bool
has_tag [] name = false
has_tag (t ∷ ts) name = t == name || has_tag ts name

module _ {D : Type 0} where
  text_member : String → List (String × Json D) → Outcome String
  text_member key ms = elim (find_member key ms) [ some (string s) ↦ ok s | _ ↦ crash ]

  port_member : List (String × Json D) → Outcome String
  port_member ms = elim (find_member "Port" ms) [ some (int n) ↦ ok (to_string n) | _ ↦ crash ]

  add_service : String → List (String × Json D) → Io ClusterManager (Unit {0})
  unfolding text_member port_member has_tag push_spare
  add_service cluster_name ms c =
      (do
        address ← lift (text_member "Address" ms)
        port ← lift (port_member ms)
        id ← lift (text_member "ID" ms)
        when (has_tag current_obj_tags cluster_name) (
            push_spare (record {
              name = c.service_registration_name;
              id = id;
              address = address;
              port = port;
              tags = current_obj_tags;
            })))
        c

  named_service : String → List (String × Json D) → Option (Json D) → Io ClusterManager (Unit {0})
  unfolding add_service
  named_service cluster_name ms none = pure tt
  named_service cluster_name ms (some null) = pure tt
  named_service cluster_name ms (some (string s)) =
      λ c. when (s == c.service_registration_name) (add_service cluster_name ms) c
  named_service cluster_name ms (some _) = lift crash

  service : String → Json D → Io ClusterManager (Unit {0})
  unfolding named_service
  service cluster_name (object ms) =
      named_service cluster_name (members ms) (find_member "Service" (members ms))
  service cluster_name _ = lift crash

  services : String → List (String × Json D) → Io ClusterManager (Unit {0})
  unfolding service
  services cluster_name [] = pure tt
  services cluster_name ((k, v) ∷ ms) = service cluster_name v >> services cluster_name ms

  update_from : String → Parsed D → Io ClusterManager (Unit {0})
  unfolding services clear_spare swap_vectors
  update_from cluster_name (parse_error e) = lift (throw e)
  update_from cluster_name (document (object ms)) =
      clear_spare >> (services cluster_name (members ms) >> swap_vectors)
  update_from cluster_name (document _) = pure tt

  unfoldable pub update_cluster_info : String → Parsed D → Io ClusterManager (Unit {0})
  unfolding update_from members find_member
  update_cluster_info cluster_name reply c =
      if c.discover_ivan then update_from cluster_name reply c else (ok tt, c)

  -- The loop of the loader, over what Consul says at each turn; an exception ends it.
  unfoldable pub update_cluster : String → List (Parsed D) → Io ClusterManager (Unit {0})
  unfolding update_cluster_info
  update_cluster cluster_name [] = pure tt
  update_cluster cluster_name (r ∷ rs) =
      update_cluster_info cluster_name r >> update_cluster cluster_name rs
