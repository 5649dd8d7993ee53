-- ===== src/Db/Property/Tests.antt =====
-- Tests of the property side of the database.
use clyman.Prelude.{ℕ, ℤ, suc, ◌+◌, ◌≡◌, refl, true, ◌∷◌}
use clyman.Outcome.{Outcome, ok}
use clyman.SortedMap.{int_less, string_less}
use clyman.Model.Property.{new_property}
use clyman.Db.Bson.{oid}
use clyman.Db.Interface.{new_response}
use clyman.Db.Core.{Mongo, done}
use clyman.Db.Property.Documents.{build_create_prop_doc}
use clyman.Db.Property.Read.{bson_to_prop}
use clyman.Db.Property.RoundTrip.{stored_property, bson_to_prop-build_create_prop_doc}
use clyman.Db.Property.Query.{delete_property}
use clyman.Db.Property.Query.Failures.{delete_property_bad_key}
use clyman.Samples.{floats, driver, brightness}

bson_to_prop-build_create_prop_doc_example :
    bson_to_prop floats (("_id", oid "id") ∷ build_create_prop_doc floats brightness) new_property
    ≡ ok (stored_property floats "id" brightness)
bson_to_prop-build_create_prop_doc_example =
    bson_to_prop-build_create_prop_doc floats brightness "id"
      (((refl, (refl, tt)), (((refl, refl), tt), (tt, tt))), tt) (tt, tt)

-- A driver that takes no key for an id. It counts the connections taken, and a new server adds 100.
abbrev picky : Mongo ℤ ℕ
picky = record (driver 1) {
  acquire = λ w. (done tt, suc w);
  connect = λ w. (Outcome.ok tt, w + 100);
  parse_oid = λ k. Outcome.throw "not an id";
}

delete_property_bad_key_example :
    delete_property floats picky "?" (record { failures = 0; initialized = true; world = 0 })
    ≡ (Outcome.ok new_response, record { failures = 5; initialized = true; world = 111 })
delete_property_bad_key_example =
    delete_property_bad_key floats picky "?" "not an id" suc 0 106 refl (λ w. refl) refl
