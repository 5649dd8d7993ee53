-- ===== src/Model/Handle.antt =====
-- src/model/core/include/animation_graph_handle.h
use clyman.Prelude.{String}

pub record AnimationGraphHandle (F : Type 0) : Type 0 where
  pub lh_x : F
  pub lh_y : F
  pub rh_x : F
  pub rh_y : F
  pub lh_type : String
  pub rh_type : String

-- The constructor: all zero, with empty types.
abbrev pub new_handle : {F : Type 0} → F → AnimationGraphHandle F
new_handle z = record { lh_x = z; lh_y = z; rh_x = z; rh_y = z; lh_type = ""; rh_type = "" }
