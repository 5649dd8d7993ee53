-- ===== src/Constants.antt =====
-- src/app/include/clyman_utils.h (message types, error codes) and
-- src/db/include/db_manager_interface.h (transaction types)
use clyman.Prelude.{ℤ, pos, ℕ}

-- Universal event types.
abbrev pub obj_crt : ℤ
obj_crt = pos 0

abbrev pub obj_upd : ℤ
obj_upd = pos 1

abbrev pub obj_get : ℤ
obj_get = pos 2

abbrev pub obj_del : ℤ
obj_del = pos 3

abbrev pub obj_query : ℤ
obj_query = pos 4

abbrev pub obj_lock : ℤ
obj_lock = pos 5

abbrev pub obj_unlock : ℤ
obj_unlock = pos 6

abbrev pub obj_overwrite : ℤ
obj_overwrite = pos 7

abbrev pub prop_crt : ℤ
prop_crt = pos 8

abbrev pub prop_upd : ℤ
prop_upd = pos 9

abbrev pub prop_get : ℤ
prop_get = pos 10

abbrev pub prop_del : ℤ
prop_del = pos 11

abbrev pub prop_query : ℤ
prop_query = pos 12

abbrev pub asset_add : ℤ
asset_add = pos 13

abbrev pub asset_del : ℤ
asset_del = pos 14

abbrev pub obj_frame_crt : ℤ
obj_frame_crt = pos 15

abbrev pub obj_frame_upd : ℤ
obj_frame_upd = pos 16

abbrev pub obj_frame_get : ℤ
obj_frame_get = pos 17

abbrev pub obj_frame_del : ℤ
obj_frame_del = pos 18

abbrev pub obj_action_crt : ℤ
obj_action_crt = pos 19

abbrev pub obj_action_upd : ℤ
obj_action_upd = pos 20

abbrev pub obj_action_get : ℤ
obj_action_get = pos 21

abbrev pub obj_action_del : ℤ
obj_action_del = pos 22

abbrev pub prop_frame_crt : ℤ
prop_frame_crt = pos 23

abbrev pub prop_frame_upd : ℤ
prop_frame_upd = pos 24

abbrev pub prop_frame_get : ℤ
prop_frame_get = pos 25

abbrev pub prop_frame_del : ℤ
prop_frame_del = pos 26

abbrev pub prop_action_crt : ℤ
prop_action_crt = pos 27

abbrev pub prop_action_upd : ℤ
prop_action_upd = pos 28

abbrev pub prop_action_get : ℤ
prop_action_get = pos 29

abbrev pub prop_action_del : ℤ
prop_action_del = pos 30

-- Error codes.
abbrev pub no_error : ℤ
no_error = pos 100

abbrev pub error : ℤ
error = pos 101

abbrev pub not_found : ℤ
not_found = pos 102

abbrev pub translation_error : ℤ
translation_error = pos 110

abbrev pub processing_error : ℤ
processing_error = pos 120

-- The transactions of a database manager.
abbrev pub db_insert : ℕ
db_insert = 0

abbrev pub db_update : ℕ
db_update = 1

abbrev pub db_lock : ℕ
db_lock = 5

abbrev pub db_unlock : ℕ
db_unlock = 6

abbrev pub db_action_insert : ℕ
db_action_insert = 7

abbrev pub db_action_update : ℕ
db_action_update = 8

abbrev pub db_action_remove : ℕ
db_action_remove = 9

abbrev pub db_action_get : ℕ
db_action_get = 10

abbrev pub db_frame_insert : ℕ
db_frame_insert = 11

abbrev pub db_frame_update : ℕ
db_frame_update = 12

abbrev pub db_frame_remove : ℕ
db_frame_remove = 13
