-- ===== src/Controller/Handler.antt =====
-- src/controller/include/clyman_handler.h, and the parts that the handlers repeat: reporting a
-- database response, sending an event downstream, and choosing the status of the response.
pub mod Safety
use clyman.Prelude.{
  ℕ, String, ℤ, ◌==◌, int_eq, not, ltb_ℤ, List, [], ◌∷◌, ◌++◌, Option, none, some, if◌then◌else◌,
}
use clyman.Outcome.{Outcome}
use clyman.Outcome.Io.{Io, pure, lift, ◌>>=◌, ◌>>◌, when}
use clyman.Floats.{Floats}
use clyman.Constants.{no_error, not_found, translation_error, processing_error}
use clyman.Std.{stoi}
use clyman.Json.Write.{Token}
use clyman.Model.Object.{Object}
use clyman.Model.DataList.{DataList, new_data_list}
use clyman.Writer.{to_transform_json, to_msg_string}
use clyman.App.Cluster.{Service, ClusterManager, get_ivan}
use clyman.Db.Interface.{DatabaseResponse}

-- A call of `publish_event`: the scene, a line break and the JSON text, and the receiver.
pub record Event (D : Type 0) : Type 0 where
  pub scene : String
  pub message : List (Token D)
  pub host : String
  pub port : ℤ

pub record Response (D : Type 0) : Type 0 where
  pub status : ℕ
  pub content_type : String
  pub body : List (Token D)

-- What a handler reads and changes: the database, the cluster manager, the events sent so far, and
-- its `response_body`.
pub record Session (T D W : Type 0) : Type 0 where
  pub db : W
  pub cluster : ClusterManager
  pub events : List (Event D)
  pub body : DataList T

take_list : {T W : Type 0} → Outcome (Unit {0}) × (DataList T × W) → Outcome (DataList T) × W
take_list (Outcome.ok u, (l, w)) = (Outcome.ok l, w)
take_list (Outcome.throw e, (l, w)) = (Outcome.throw e, w)
take_list (Outcome.crash, (l, w)) = (Outcome.crash, w)

caught_list :
    {T W : Type 0}
    → Outcome (Unit {0}) × (DataList T × W)
    → Outcome (Option String × DataList T) × W
caught_list (Outcome.ok u, (l, w)) = (Outcome.ok (none, l), w)
caught_list (Outcome.throw e, (l, w)) = (Outcome.ok (some e, l), w)
caught_list (Outcome.crash, (l, w)) = (Outcome.crash, w)

-- A handler over the floats `fl` and the database state `W`.
abbrev pub Handler : Floats → Type 0 → Type 0 → Type 0
Handler fl W A = Io (Session (Object fl.Float) fl.Double W) A

module _ {T D W : Type 0} where
  unfoldable pub set_error_code : ℤ → Io (Session T D W) (Unit {0})
  set_error_code code s = (Outcome.ok tt, record s { body = record s.body { err_code = code } })

  unfoldable pub set_error_message : String → Io (Session T D W) (Unit {0})
  set_error_message text s = (Outcome.ok tt, record s { body = record s.body { err_msg = text } })

  -- `init_response`
  unfoldable pub init_response : ℤ → Io (Session T D W) (Unit {0})
  init_response msg_type s = (
    Outcome.ok tt,
    record s { body = record new_data_list { msg_type = msg_type; err_code = no_error } },
  )

  -- A call of the database manager.
  abbrev pub on_db : {A : Type 0} → Io W A → Io (Session T D W) A
  on_db m s = let (r, w) = m s.db in (r, record s { db = w })

  -- A call that fills `response_body`.
  abbrev pub on_body : {A : Type 0} → Io (DataList T × W) A → Io (Session T D W) A
  on_body m s = let (r, (l, w)) = m (s.body, s.db) in (r, record s { db = w; body = l })

  -- A call that fills a new list of the handler's own.
  unfoldable pub on_list : Io (DataList T × W) (Unit {0}) → Io (Session T D W) (DataList T)
  unfolding take_list
  on_list m = on_db (λ w. take_list (m (new_data_list, w)))

  -- The same with the exception caught: its text, and the list as far as it was filled.
  unfoldable pub on_list_caught :
      Io (DataList T × W) (Unit {0}) → Io (Session T D W) (Option String × DataList T)
  unfolding caught_list
  on_list_caught m = on_db (λ w. caught_list (m (new_data_list, w)))

  unfoldable pub find_downstream : Io (Session T D W) (Option Service)
  unfolding get_ivan
  find_downstream s = let (r, c) = get_ivan s.cluster in (r, record s { cluster = c })

  -- What most handlers do with a database response.
  unfoldable pub report : DatabaseResponse → Io (Session T D W) (Unit {0})
  unfolding set_error_code set_error_message
  report r = when (not r.success) (
      set_error_code (if ltb_ℤ no_error r.error_code then r.error_code else processing_error)
      >> set_error_message r.error_message)

  -- What the others do.
  unfoldable pub report_processing : DatabaseResponse → Io (Session T D W) (Unit {0})
  unfolding set_error_code set_error_message
  report_processing r =
      when (not r.success) (set_error_code processing_error >> set_error_message r.error_message)

  -- `catch (std::exception& e)` round a database operation.
  unfoldable pub failed : String → Io (Session T D W) (Unit {0})
  unfolding set_error_code set_error_message
  failed what = set_error_message what >> set_error_code processing_error

-- The status of a response whose body carries that error code.
unfoldable pub status_of : ℤ → ℕ
status_of code =
    if code == translation_error
    then 400
    else if code == not_found
    then 404
    else if code == no_error
    then 200
    else 500

-- The same in the handlers that read no body.
unfoldable pub status_of_result : ℤ → ℕ
status_of_result code = if code == not_found then 404 else if code == no_error then 200 else 500

module _ (fl : Floats) {W : Type 0} where
  open fl use {Float, Double}

  -- The message is built before the port is read, and nothing is sent if that throws.
  unfoldable pub publish :
      String → Object Float → ℤ → Service → Io (Session (Object Float) Double W) (Unit {0})
  unfolding stoi
  publish scene o msg_type downstream = do
    message ← lift (to_transform_json fl o msg_type)
    port ← lift (stoi downstream.port)
    λ s. (
      Outcome.ok tt,
      record s {
        events =
            s.events
            ++ record { scene = scene; message = message; host = downstream.address; port = port }
              ∷ [];
      },
    )

  -- `if (downstream) publisher->publish_event(…)`
  unfoldable pub send_update :
      String → Object Float → ℤ → Io (Session (Object Float) Double W) (Unit {0})
  unfolding find_downstream publish
  send_update scene o msg_type = do
    found ← find_downstream
    elim found [ none ↦ pure tt | some downstream ↦ publish scene o msg_type downstream ]

  -- `response.send()` and the body.
  unfoldable pub send : ℕ → String → Io (Session (Object Float) Double W) (Response Double)
  unfolding to_msg_string
  send status content_type s =
      (lift (to_msg_string fl s.body) >>= λ ts.
      pure (record { status = status; content_type = content_type; body = ts }))
        s

  unfoldable pub finish : Io (Session (Object Float) Double W) (Response Double)
  unfolding send status_of
  finish s = send (status_of s.body.err_code) "application/json" s

  unfoldable pub finish_result : Io (Session (Object Float) Double W) (Response Double)
  unfolding send status_of_result
  finish_result s = send (status_of_result s.body.err_code) "application/json" s
