-- ===== src/Model/Related.antt =====
-- src/model/core/include/data_related.h
use clyman.Prelude.{ℕ, zero, suc, String, List, [], ◌∷◌, ◌++◌, get_elem?, length}
use clyman.Outcome.{Outcome, ok, crash, or_crash, ◌>>=◌}

pub record RelatedData : Type 0 where
  pub key : String
  pub parent : String
  pub asset_sub_id : String
  pub scene_id : String
  pub asset_ids : List String

abbrev pub new_related : RelatedData
new_related = record { key = ""; parent = ""; asset_sub_id = ""; scene_id = ""; asset_ids = [] }

unfoldable pub num_assets : RelatedData → ℕ
num_assets r = length r.asset_ids

unfoldable pub add_asset : RelatedData → String → RelatedData
add_asset r id = record r { asset_ids = r.asset_ids ++ id ∷ [] }

unfoldable pub get_asset : RelatedData → ℕ → Outcome String
get_asset r index = or_crash (get_elem? r.asset_ids index)

remove_at : List String → ℕ → Outcome (List String)
remove_at [] index = crash
remove_at (x ∷ xs) zero = ok xs
remove_at (x ∷ xs) (suc index) = do rest ← remove_at xs index; ok (x ∷ rest)

unfoldable pub remove_asset : RelatedData → ℕ → Outcome RelatedData
unfolding remove_at
remove_asset r index = do ids ← remove_at r.asset_ids index; ok (record r { asset_ids = ids })

unfoldable pub clear_assets : RelatedData → RelatedData
clear_assets r = record r { asset_ids = [] }
