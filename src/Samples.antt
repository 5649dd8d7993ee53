-- ===== src/Samples.antt =====
-- Concrete values for the tests: whole numbers in place of floats, a driver and a database manager
-- that count their calls.
use clyman.Prelude.{ℕ, suc, ℤ, pos, true, false, [], ◌∷◌, some}
use clyman.Outcome.{Outcome}
use clyman.Floats.{Floats}
use clyman.Model.Handle.{AnimationGraphHandle}
use clyman.Model.Related.{new_related}
use clyman.Model.Animation.{AnimationAction, new_action}
use clyman.Model.Object.{Object}
use clyman.Model.Property.{PropertyFrame, Property}
use clyman.Model.DataList.{new_data_list}
use clyman.App.Cluster.{Service, ClusterManager}
use clyman.Db.Core.{Mongo, Core, done}
use clyman.Db.Interface.{DatabaseManager, DatabaseResponse, PropertyManager}
use clyman.Controller.Handler.{Session}

abbrev pub floats : Floats
floats = record {
  Float = ℤ;
  Double = ℤ;
  widen = λ x. x;
  narrow = λ x. x;
  of_int = λ n. n;
  zero_f = pos 0;
  one_f = pos 1;
  narrow-widen = λ x i. x;
}

-- A driver whose every update modifies `n` documents.
abbrev pub driver : ℕ → Mongo ℤ ℕ
driver n = record {
  connect = λ w. (Outcome.ok tt, w);
  acquire = λ w. (done tt, w);
  parse_oid = λ k. Outcome.ok k;
  insert_one = λ d w. (done (1, "id"), suc w);
  update_one = λ q d w. (done (some n), suc w);
  find_one = λ q w. (done (some []), w);
  find = λ q w. (done (record { results = [] ∷ [] ∷ [] ∷ []; ends = done tt }), suc w);
  delete_one = λ q w. (done (some 1), w);
}

abbrev pub core : Core ℕ
core = record { failures = 0; initialized = true; world = 0 }

abbrev pub stored : Object ℤ
stored = record {
  related = record {
    key = "k";
    parent = "";
    asset_sub_id = "";
    scene_id = "scene";
    asset_ids = [];
  };
  trans = record {
    transform = record {
      c0 = record { x = pos 1; y = pos 2; z = pos 3; w = pos 4 };
      c1 = record { x = pos 5; y = pos 6; z = pos 7; w = pos 8 };
      c2 = record { x = pos 9; y = pos 10; z = pos 11; w = pos 12 };
      c3 = record { x = pos 13; y = pos 14; z = pos 15; w = pos 16 };
    };
    type = pos 0;
  };
  name = "stored";
  type = "";
  subtype = "";
  owner = "";
  action_map = [];
}

abbrev pub curve : AnimationGraphHandle ℤ
curve = record {
  lh_x = pos 1;
  lh_y = pos 2;
  rh_x = pos 3;
  rh_y = pos 4;
  lh_type = "l";
  rh_type = "r";
}

abbrev pub level : ℤ → PropertyFrame ℤ ℤ
level index = record {
  base = record { frame = index; owner = "me" };
  values = pos 7 ∷ pos 8 ∷ [];
  related = new_related;
  handles = curve ∷ curve ∷ [];
}

abbrev pub fade : AnimationAction (PropertyFrame ℤ ℤ)
fade = record new_action {
  name = "fade";
  description = "slowly";
  keyframes = (pos 1, level (pos 1)) ∷ (pos 5, level (pos 5)) ∷ [];
}

abbrev pub brightness : Property ℤ ℤ
brightness = record {
  related = record {
    key = "k";
    parent = "";
    asset_sub_id = "";
    scene_id = "scene";
    asset_ids = [];
  };
  values = pos 2 ∷ pos 3 ∷ [];
  name = "brightness";
  action_map = ("fade", fade) ∷ [];
}

abbrev pub accepted : DatabaseResponse
accepted = record { success = true; error_message = ""; error_code = pos 100 }

abbrev pub missing : DatabaseResponse
missing = record { success = false; error_message = "missing"; error_code = pos 102 }

-- It finds `stored` under every key, creates and updates, and deletes and locks nothing.
abbrev pub manager : DatabaseManager ℤ ℕ
manager = record {
  create_object = λ o w. (Outcome.ok (accepted, "id"), suc w);
  update_object = λ o k w. (Outcome.ok accepted, suc w);
  update_assets = λ o k b w. (Outcome.ok accepted, suc w);
  get_object =
      λ k (l, w). (Outcome.ok tt, (record l { objects = stored ∷ []; num_records = pos 1 }, suc w));
  object_query = λ o n (l, w). (Outcome.ok tt, (l, suc w));
  delete_object = λ k w. (Outcome.ok missing, suc w);
  lock_object = λ k d w. (Outcome.ok missing, suc w);
  unlock_object = λ k d w. (Outcome.ok accepted, suc w);
  create_action = λ k a n w. (Outcome.ok accepted, suc w);
  update_action = λ k a n w. (Outcome.ok accepted, suc w);
  delete_object_action = λ k n w. (Outcome.ok accepted, suc w);
  create_keyframe = λ k n f i w. (Outcome.ok accepted, suc w);
  update_keyframe = λ k n f i w. (Outcome.ok accepted, suc w);
  delete_object_keyframe = λ k n i w. (Outcome.ok accepted, suc w);
}

-- The same for properties: it deletes nothing.
abbrev pub property_manager : PropertyManager ℤ ℤ ℕ
property_manager = record {
  create_property = λ p w. (Outcome.ok (accepted, "id"), suc w);
  update_property = λ p k w. (Outcome.ok accepted, suc w);
  get_property = λ k (l, w).
      (Outcome.ok tt, (record l { objects = brightness ∷ []; num_records = pos 1 }, suc w));
  property_query = λ p n (l, w). (Outcome.ok tt, (l, suc w));
  delete_property = λ k w. (Outcome.ok missing, suc w);
  create_prop_action = λ k a n w. (Outcome.ok accepted, suc w);
  update_prop_action = λ k a n w. (Outcome.ok accepted, suc w);
  delete_property_action = λ k n w. (Outcome.ok accepted, suc w);
  create_prop_keyframe = λ k n f i w. (Outcome.ok accepted, suc w);
  update_prop_keyframe = λ k n f i w. (Outcome.ok accepted, suc w);
  delete_property_keyframe = λ k n i w. (Outcome.ok accepted, suc w);
}

abbrev pub downstream : Service
downstream = record { name = "Ivan"; id = "Ivan"; address = "host"; port = "8765"; tags = [] }

-- What the constructor makes of a fixed address.
abbrev pub cluster : ClusterManager
cluster = record {
  cluster_members1 = [];
  cluster_members2 = [];
  current_vector = 1;
  current_return_index = 0;
  service_registration_name = "";
  discover_ivan = false;
  fixed_ivan_addr = some downstream;
}

abbrev pub session : Session (Object ℤ) ℤ ℕ
session = record { db = 0; cluster = cluster; events = []; body = new_data_list }
