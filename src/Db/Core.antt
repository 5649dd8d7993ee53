-- ===== src/Db/Core.antt =====
-- src/db/core_database_manager.cpp and include/core_database_manager.h: the connection, and calls of
-- the MongoDB driver
use clyman.Prelude.{ℕ, suc, String, Bool, true, false, ltb, List, Option, if◌then◌else◌}
use clyman.Outcome.{Outcome}
use clyman.Outcome.Io.{Io, bind-Keeps, ◌>>◌, when}
use clyman.Db.Bson.{Doc}

-- How a call of the driver ends: `mongocxx::exception` is caught apart from the other exceptions.
pub data Reply (A : Type 0) : Type 0 where
  done : A → Reply A
  mongo_exception : String → Reply A
  std_exception : String → Reply A
  undefined : Reply A

-- `mongocxx::cursor`: the results that it gives one after the other, and how it ends when it is moved
-- on from the last of them.
pub record Cursor (D : Type 0) : Type 0 where
  pub results : List (Doc D)
  pub ends : Reply (Unit {0})

-- The driver, Consul and the network: none of them is in the repository. `W` is their state.
pub record Mongo (D W : Type 0) : Type 0 where
  -- `find_new_connection`, which asks Consul and builds a pool
  pub connect : Io W (Unit {0})
  -- `pool->acquire()`
  pub acquire : W → Reply (Unit {0}) × W
  -- the constructor `bsoncxx::oid(key)`
  pub parse_oid : String → Outcome String
  -- the number inserted, and the generated key
  pub insert_one : Doc D → W → Reply (ℕ × String) × W
  -- the number modified, if there is a result
  pub update_one : Doc D → Doc D → W → Reply (Option ℕ) × W
  pub find_one : Doc D → W → Reply (Option (Doc D)) × W
  pub find : Doc D → W → Reply (Cursor D) × W
  -- the number deleted, if there is a result
  pub delete_one : Doc D → W → Reply (Option ℕ) × W

-- What a database manager keeps beside the driver.
pub record Core (W : Type 0) : Type 0 where
  pub failures : ℕ
  pub initialized : Bool
  pub world : W

abbrev pub max_failures : ℕ
max_failures = 5

-- A step inside a `try` block.
abbrev pub Attempt : Type 0 → Type 0 → Type 0
Attempt W A = Core W → Reply A × Core W

module _ {W A : Type 0} where
  abbrev pub return : A → Attempt W A
  return a c = (done a, c)

  -- An exception of the program's own code, or of bsoncxx, is no `mongocxx::exception`.
  abbrev pub of_outcome : Outcome A → Attempt W A
  of_outcome (Outcome.ok a) c = (done a, c)
  of_outcome (Outcome.throw e) c = (std_exception e, c)
  of_outcome Outcome.crash c = (undefined, c)

  abbrev pub on_world : (W → Reply A × W) → Attempt W A
  on_world m c = let (r, w) = m c.world in (r, record c { world = w })

module _ {W A B : Type 0} where
  abbrev continue : Reply A → Core W → (A → Attempt W B) → Reply B × Core W
  continue (done a) c f = f a c
  continue (mongo_exception e) c f = (mongo_exception e, c)
  continue (std_exception e) c f = (std_exception e, c)
  continue undefined c f = (undefined, c)

  infixl 5 ◌>>=!◌
  abbrev pub ◌>>=!◌ : Attempt W A → (A → Attempt W B) → Attempt W B
  ◌>>=!◌ m f c = let (r, c') = m c in continue r c' f

  continue-steps :
      (R S : Core W → Type 0) (r : Reply A) (c : Core W) (f : A → Attempt W B)
      → ((v : Core W) → R v → S v)
      → R c
      → ((a : A) (v : Core W) → R v → S (f a v).1)
      → S (continue r c f).1
  continue-steps R S (done a) c f i p k = k a c p
  continue-steps R S (mongo_exception e) c f i p k = i c p
  continue-steps R S (std_exception e) c f i p k = i c p
  continue-steps R S undefined c f i p k = i c p

  -- What holds after the first step, or after both, wherever it ends.
  pub bind_attempt-steps :
      (P R S : Core W → Type 0) (m : Attempt W A) (f : A → Attempt W B)
      → ((v : Core W) → R v → S v)
      → ((v : Core W) → P v → R (m v).1)
      → ((a : A) (v : Core W) → R v → S (f a v).1)
      → (c : Core W) → P c
      → S ((m >>=! f) c).1
  bind_attempt-steps P R S m f i hm hf c p = continue-steps R S (m c).0 (m c).1 f i (hm c p) hf

pub of_outcome-Keeps :
    {W A : Type 0} (R : Core W → Type 0) (o : Outcome A) (c : Core W) → R c → R (of_outcome o c).1
of_outcome-Keeps R (Outcome.ok a) c p = p
of_outcome-Keeps R (Outcome.throw e) c p = p
of_outcome-Keeps R Outcome.crash c p = p

unfoldable pub add_failure : {W : Type 0} → Core W → Core W
add_failure c = record c { failures = suc c.failures }

module _ {D W : Type 0} (mongo : Mongo D W) where
  open mongo use {connect}

  reset_failures : Io (Core W) (Unit {0})
  reset_failures c = (Outcome.ok tt, record c { failures = 0 })

  find_new_connection : Io (Core W) (Unit {0})
  find_new_connection c = let (r, w) = connect c.world in (r, record c { world = w })

  -- After more than `max_failures` failures: another connection, and the count starts again.
  unfoldable pub set_new_connection : Io (Core W) (Unit {0})
  unfolding find_new_connection reset_failures
  set_new_connection c =
      when (ltb max_failures c.failures) (find_new_connection >> reset_failures) c

  set_initialized : Io (Core W) (Unit {0})
  set_initialized c = (Outcome.ok tt, record c { initialized = true })

  -- The first call makes the connection, unless the constructor was given one.
  unfoldable pub init : Io (Core W) (Unit {0})
  unfolding find_new_connection set_initialized
  init c = if c.initialized then (Outcome.ok tt, c) else (set_initialized >> find_new_connection) c

  module _ (P : Core W → Type 0)
      (hc : (c : Core W) → P c → P (record c { world = (connect c.world).1 })) where
    when-Keeps :
        (b : Bool) (m : Io (Core W) (Unit {0})) (c : Core W)
        → ((v : Core W) → P v → P (m v).1)
        → P c
        → P (when b m c).1
    when-Keeps true m c k p = k c p
    when-Keeps false m c k p = p

    -- What connecting and starting the count again keep, the renewal of the connection keeps.
    pub set_new_connection-Keeps :
        ((c : Core W) → P c → P (record c { failures = 0 }))
        → (c : Core W) → P c
        → P (set_new_connection c).1
    unfolding set_new_connection
    set_new_connection-Keeps hf c p =
        when-Keeps (ltb max_failures c.failures) (find_new_connection >> reset_failures) c
          (bind-Keeps P find_new_connection (λ _. reset_failures) hc (λ _. hf)) p

    -- What connecting and the mark keep, the first call keeps.
    pub init-Keeps :
        ((c : Core W) → P c → P (record c { initialized = true }))
        → (c : Core W) → P c
        → P (init c).1
    unfolding init
    init-Keeps hi c p = init_branch-Keeps c.initialized c p
      where
        init_branch-Keeps :
            (b : Bool) (c : Core W)
            → P c
            → P (if b then (Outcome.ok tt, c) else (set_initialized >> find_new_connection) c).1
        init_branch-Keeps true c p = p
        init_branch-Keeps false c p =
            bind-Keeps P set_initialized (λ _. find_new_connection) hi (λ _. hc) c p
