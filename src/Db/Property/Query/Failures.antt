-- ===== src/Db/Property/Query/Failures.antt =====
-- A deletion under a key that is no id.
use clyman.Prelude.{ℕ, suc, ◌<◌, String, ltb, ◌≡◌, ap, ◌∙◌, true, false, arith}
use clyman.Outcome.{Outcome}
use clyman.Floats.{Floats}
use clyman.Db.Interface.{DatabaseResponse, new_response}
use clyman.Db.Core.{Mongo, Core, done, set_new_connection, max_failures}
use clyman.Db.Manager.Retries.{iterate}
use clyman.Db.Query.{failed_round, on_core, loop}
use clyman.Db.Property.Query.{prop_delete_round, prop_answer, delete_property}

module _ (fl : Floats) {W : Type 0} (mongo : Mongo fl.Double W) (key e : String)
    (hp : mongo.parse_oid key ≡ Outcome.throw e) (next : W → W)
    (ha : (v : W) → mongo.acquire v ≡ (done tt, next v)) where
  abbrev core : ℕ → W → Core W
  core n v = record { failures = n; initialized = true; world = v }

  abbrev deleting : ℕ → ℕ → W → Outcome (Unit {0}) × (DatabaseResponse × Core W)
  deleting left n v =
      loop (prop_delete_round fl mongo key) (on_core (set_new_connection mongo)) left
        (new_response, core n v)

  round_fails :
      (n : ℕ) (v : W)
      → prop_delete_round fl mongo key (new_response, core n v)
        ≡ (Outcome.ok failed_round, (new_response, core (suc n) (next v)))
  unfolding prop_delete_round
  round_fails n v = simp (ha, hp)

  -- The first five failures are only counted.
  counted_round :
      (left n : ℕ) (v : W) → n < 5 → deleting (suc left) n v ≡ deleting left (suc n) (next v)
  unfolding loop on_core set_new_connection
  counted_round left n v h =
      let few : ltb max_failures (suc n) ≡ false = ground arith in simp (round_fails n v, few)

  -- The sixth brings another server.
  renewing_round :
      (left : ℕ) (v v' : W)
      → mongo.connect (next v) ≡ (Outcome.ok tt, v')
      → deleting (suc left) 5 v ≡ deleting left 0 v'
  unfolding loop on_core set_new_connection
  renewing_round left v v' hc = simp (round_fails 5 v, hc)

  five_rounds :
      (left : ℕ) (v : W)
      → deleting (suc (suc (suc (suc (suc left))))) 0 v ≡ deleting left 5 (iterate 5 next v)
  five_rounds left v =
      counted_round (suc (suc (suc (suc left)))) 0 v (omega arith)
      ∙ (counted_round (suc (suc (suc left))) 1 (iterate 1 next v) (omega arith)
          ∙ (counted_round (suc (suc left)) 2 (iterate 2 next v) (omega arith)
              ∙ (counted_round (suc left) 3 (iterate 3 next v) (omega arith)
                  ∙ counted_round left 4 (iterate 4 next v) (omega arith))))

-- A deletion of a property whose key is no id takes eleven connections from the pool and does nothing
-- else to the database but that it leaves its server for another one, once, after six connections. It
-- counts eleven failures, the last five of them at the new server. The response says neither success
-- nor an error: its code is NO_ERROR and its message is empty. The manager had its connection and no
-- failures, the pool always gives a connection, and the other server is found.
pub delete_property_bad_key :
    (fl : Floats) {W : Type 0} (mongo : Mongo fl.Double W) (key e : String) (next : W → W)
    (w w' : W)
    → mongo.parse_oid key ≡ Outcome.throw e
    → ((v : W) → mongo.acquire v ≡ (done tt, next v))
    → mongo.connect (iterate 6 next w) ≡ (Outcome.ok tt, w')
    → delete_property fl mongo key (record { failures = 0; initialized = true; world = w }) ≡ (
      Outcome.ok new_response,
      record { failures = 5; initialized = true; world = iterate 5 next w' },
    )
unfolding delete_property loop
delete_property_bad_key fl mongo key e next w w' hp ha hc = ap (prop_answer fl mongo) (
    five_rounds fl mongo key e hp next ha 6 w
    ∙ (renewing_round fl mongo key e hp next ha 5 (iterate 5 next w) w' hc
        ∙ five_rounds fl mongo key e hp next ha 0 w'))
