-- ===== src/Db/Manager/Retries.antt =====
-- How often a transaction calls the database, and what it leaves.
use clyman.Prelude.{ℕ, zero, suc, String, ◌==◌, nat_eq, ◌≡◌, refl, Bool, true, false, some}
use clyman.Outcome.{Outcome}
use clyman.Floats.{Floats}
use clyman.Constants.{not_found, db_insert}
use clyman.Db.Bson.{Doc}
use clyman.Db.Interface.{new_response}
use clyman.Db.Transaction.{Arguments, main_doc, query_doc}
use clyman.Db.Core.{done, Mongo, Core, init}
use clyman.Db.Manager.{Output, is_update, round, retry, transaction}

abbrev pub iterate : {A : Type 0} → ℕ → (A → A) → A → A
iterate zero f a = a
iterate (suc n) f a = iterate n f (f a)

module _ (fl : Floats) {W : Type 0} (mongo : Mongo fl.Double W) (t : ℕ) (a : Arguments fl)
    (b : Bool) (key id : String) (d q : Doc fl.Double) (step : W → W)
    (ht : (t == db_insert) ≡ false) (hu : is_update t ≡ true)
    (hi : mongo.parse_oid key ≡ Outcome.ok id) (hd : main_doc fl t a b ≡ Outcome.ok d)
    (hq : query_doc fl t a id ≡ Outcome.ok q) (ha : (w : W) → mongo.acquire w ≡ (done tt, w))
    (hn : (w : W) → mongo.update_one q d w ≡ (done (some 0), step w)) where
  abbrev not_modified : Output
  not_modified = record {
    response = record {
      success = false;
      error_message = "No Documents Modified in DB";
      error_code = not_found;
    };
    key = key;
  }

  round_missing :
      (o : Output) (c : Core W)
      → o.key ≡ key
      → o.response.success ≡ false
      → round fl mongo t a b o c ≡ (
        Outcome.ok (record { output = not_modified; failure = false; stops = false }),
        record c { world = step c.world },
      )
  unfolding round
  round_missing o c hk hs = simp (hk, hs, hd, ha, ht, hu, hi, hq, hn)

  retry_missing :
      (n : ℕ) (o : Output) (c : Core W)
      → o.key ≡ key
      → o.response.success ≡ false
      → retry fl mongo (suc n) t a b o c
        ≡ (Outcome.ok not_modified, record c { world = iterate (suc n) step c.world })
  unfolding retry
  retry_missing zero o c hk hs = simp (round_missing o c hk hs)
  retry_missing (suc n) o c hk hs =
      simp (round_missing o c hk hs)
        (retry_missing n not_modified (record c { world = step c.world }) refl refl)

init_done :
    {D W : Type 0} (mongo : Mongo D W) (c : Core W)
    → c.initialized ≡ true
    → init mongo c ≡ (Outcome.ok tt, c)
unfolding init
init_done mongo c h = simp (h)

-- Where no document fits the query of an update, of a lock or of any change of an action or a frame,
-- the same update is sent eleven times over, and then the code of an object that was not found is
-- returned. The manager has its connection, and the database gives one from the pool.
pub transaction_missing :
    (fl : Floats) {W : Type 0} (mongo : Mongo fl.Double W) (t : ℕ) (a : Arguments fl) (b : Bool)
    (key id : String) (d q : Doc fl.Double) (step : W → W) (c : Core W)
    → (t == db_insert) ≡ false
    → is_update t ≡ true
    → c.initialized ≡ true
    → mongo.parse_oid key ≡ Outcome.ok id
    → main_doc fl t a b ≡ Outcome.ok d
    → query_doc fl t a id ≡ Outcome.ok q
    → ((w : W) → mongo.acquire w ≡ (done tt, w))
    → ((w : W) → mongo.update_one q d w ≡ (done (some 0), step w))
    → transaction fl mongo a key t b c ≡ (
      Outcome.ok (record {
        response = record {
          success = false;
          error_message = "No Documents Modified in DB";
          error_code = not_found;
        };
        key = key;
      }),
      record c { world = iterate 11 step c.world },
    )
unfolding transaction
transaction_missing fl mongo t a b key id d q step c ht hu hc hi hd hq ha hn =
    simp (init_done mongo c hc) (
      retry_missing fl mongo t a b key id d q step ht hu hi hd hq ha hn 10
        (record { response = new_response; key = key }) c refl refl)
