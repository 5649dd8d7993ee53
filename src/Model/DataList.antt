-- ===== src/Model/DataList.antt =====
-- src/model/list/include/data_list.h: a request, or the body of a response.
use clyman.Prelude.{ℕ, zero, suc, String, ℤ, pos, negsuc, List, [], ◌∷◌, ◌++◌, length, get_elem?}
use clyman.Outcome.{Outcome, ok, crash, or_crash, ◌>>=◌}

pub record DataList (T : Type 0) : Type 0 where
  pub msg_type : ℤ
  pub op_type : ℤ
  pub err_code : ℤ
  pub err_msg : String
  pub transaction_id : String
  pub num_records : ℤ
  pub objects : List T

module _ {T : Type 0} where
  abbrev pub new_data_list : DataList T
  new_data_list = record {
    msg_type = negsuc 0;
    op_type = pos 10;
    err_code = pos 100;
    err_msg = "";
    transaction_id = "";
    num_records = pos 10;
    objects = [];
  }

  unfoldable pub num_objects : DataList T → ℕ
  num_objects l = length l.objects

  unfoldable pub add_object : DataList T → T → DataList T
  add_object l o = record l { objects = l.objects ++ o ∷ [] }

  unfoldable pub get_object : DataList T → ℕ → Outcome T
  get_object l index = or_crash (get_elem? l.objects index)

  remove_at : List T → ℕ → Outcome (List T)
  remove_at [] index = crash
  remove_at (x ∷ xs) zero = ok xs
  remove_at (x ∷ xs) (suc index) = do rest ← remove_at xs index; ok (x ∷ rest)

  unfoldable pub remove_object : DataList T → ℕ → Outcome (DataList T)
  unfolding remove_at
  remove_object l index = do xs ← remove_at l.objects index; ok (record l { objects = xs })

  unfoldable pub clear_objects : DataList T → DataList T
  clear_objects l = record l { objects = [] }
