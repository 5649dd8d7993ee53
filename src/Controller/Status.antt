-- ===== src/Controller/Status.antt =====
-- The HTTP status that the handlers choose, against the error code in the body they send.
use clyman.Prelude.{
  ℕ, String, ℤ, List, [], ◌∷◌, ◌++◌, ◌≡◌, ◌≢◌, ◌⊎◌, inl, inr, ap, sym, ◌∙◌, Bool, ◌&&◌, true, false,
  pos, negsuc, ltb_ℤ, refl, arith, ◌==◌, int_eq, if◌then◌else◌,
}
use clyman.Outcome.{Outcome}
use clyman.Outcome.Io.{lift, pure, ◌>>=◌, Returns, Ensures, Keeps, bind-Keeps, Io, when}
use clyman.Floats.{Floats}
use clyman.Constants.{translation_error, no_error}
use clyman.Json.Write.{
  Token, start_object, end_object, start_array, end_array, key, uint, to_unsigned,
  write_json_string_elt,
}
use clyman.Std.{stoi}
use clyman.App.Cluster.{Service}
use clyman.Model.Object.{Object}
use clyman.Model.DataList.{DataList}
use clyman.Db.Interface.{DatabaseResponse}
use clyman.Writer.{to_transform_json, to_msg_string}
use clyman.Controller.Handler.{
  Session, Event, Response, publish, failed, find_downstream, report_processing, set_error_code,
  set_error_message, status_of, status_of_result, send, finish, finish_result,
}

-- The status goes with the error code of the body, as the handlers of objects, actions and frames
-- choose it, and as the others do.
abbrev pub Matches : {T D W : Type 0} → Response D → Session T D W → Type 0
Matches r s = r.status ≡ status_of s.body.err_code

abbrev pub MatchesResult : {T D W : Type 0} → Response D → Session T D W → Type 0
MatchesResult r s = r.status ≡ status_of_result s.body.err_code

-- The table of the HTTP interface, by the numbers themselves: a translation error is 110, a thing that
-- was not found is 102, and no error is 100.
abbrev pub documented_status : ℤ → ℕ
documented_status code =
    if code == pos 110
    then 400
    else if code == pos 102
    then 404
    else if code == pos 100
    then 200
    else 500

-- The same for the handlers that know no translation error.
abbrev pub documented_result : ℤ → ℕ
documented_result code = if code == pos 102 then 404 else if code == pos 100 then 200 else 500

module _ (fl : Floats) {W : Type 0} where
  open fl use {Float, Double}

  written :
      (o : Outcome (List (Token Double))) (status : ℕ) (content_type : String)
      (s : Session (Object Float) Double W) (r : Response Double)
      (s' : Session (Object Float) Double W)
      → (lift o >>= λ ts. pure (record { status = status; content_type = content_type; body = ts }))
          s
        ≡ (Outcome.ok r, s')
      → (r.status ≡ status) × (s' ≡ s)
  written (Outcome.ok ts) status content_type s r s' e = ground arith
  written (Outcome.throw t) status content_type s r s' e = ground arith
  written Outcome.crash status content_type s r s' e = ground arith

  -- A response that is sent has the status it was given, and sending changes nothing.
  pub send-status :
      (status : ℕ) (content_type : String) (s : Session (Object Float) Double W)
      (r : Response Double) (s' : Session (Object Float) Double W)
      → send fl status content_type s ≡ (Outcome.ok r, s')
      → (r.status ≡ status) × (s' ≡ s)
  unfolding send
  send-status status content_type s r s' e =
      written (to_msg_string fl s.body) status content_type s r s' e

  pub finish-Matches : Returns Matches (finish fl {W = W})
  unfolding finish
  finish-Matches s r s' e =
      let (p, q) = send-status (status_of s.body.err_code) "application/json" s r s' e in
      ground (arith)

  pub finish_result-MatchesResult : Returns MatchesResult (finish_result fl {W = W})
  unfolding finish_result
  finish_result-MatchesResult s r s' e =
      let (p, q) = send-status (status_of_result s.body.err_code) "application/json" s r s' e in
      ground (arith)

  -- A refusal.
  pub send-Matches :
      (content_type : String) (s : Session (Object Float) Double W)
      → s.body.err_code ≡ translation_error
      → (r : Response Double) (s' : Session (Object Float) Double W)
      → send fl 400 content_type s ≡ (Outcome.ok r, s')
      → Matches r s'
  unfolding status_of
  send-Matches content_type s c r s' e =
      let (p, q) = send-status 400 content_type s r s' e in ground (arith)

module _ (fl : Floats) {W : Type 0} where
  open fl use {Float, Double}

  -- Publishing an event leaves the response body alone, whether it succeeds or not.
  pub publish-body :
      (scene : String) (o : Object Float) (t : ℤ) (d : Service) (body : DataList (Object Float))
      → Keeps (λ (s : Session (Object Float) Double W). s.body ≡ body) (publish fl scene o t d)
  unfolding publish
  publish-body scene o t d body =
      bind-Keeps (λ (s : Session (Object Float) Double W). s.body ≡ body)
        (lift (to_transform_json fl o t)) _ (λ _ p. p)
        (λ _.
          bind-Keeps (λ (s : Session (Object Float) Double W). s.body ≡ body) (lift (stoi d.port)) _
            (λ _ p. p) (λ _ _ p. p))

error-status : (code : ℤ) → ltb_ℤ no_error code ≡ true → status_of code ≢ 200
unfolding status_of
error-status (pos n) h = ground arith
error-status (negsuc n) h = ground arith

-- No event has gone out since `events`, or the response will not say 200.
abbrev pub IsQuiet : {T D W : Type 0} → List (Event D) → Session T D W → Type 0
IsQuiet events s = (s.events ≡ events) ⊎ (status_of s.body.err_code ≢ 200)

module _ (fl : Floats) {W : Type 0} where
  open fl use {Float, Double}

  pub finish-IsQuiet :
      (events : List (Event Double))
      → Ensures (IsQuiet events) (finish fl {W = W}) (λ r s. r.status ≡ 200 → s.events ≡ events)
  unfolding finish
  finish-IsQuiet events s (inl p) r s' e h =
      let (_, q) = send-status fl (status_of s.body.err_code) "application/json" s r s' e in
      ap (λ (w : Session (Object Float) Double W). w.events) q ∙ p
  finish-IsQuiet events s (inr n) r s' e h =
      let (q, _) = send-status fl (status_of s.body.err_code) "application/json" s r s' e in
      absurd (n (sym q ∙ h))

  pub failed-events :
      (events : List (Event Double)) (e : String)
      → Keeps (λ (s : Session (Object Float) Double W). s.events ≡ events) (failed e)
  unfolding failed set_error_code set_error_message
  failed-events events e s p = p

  pub find_downstream-events :
      (events : List (Event Double))
      → Keeps (λ (s : Session (Object Float) Double W). s.events ≡ events) find_downstream
  unfolding find_downstream
  find_downstream-events events s p = p

  pub report_processing-events :
      (events : List (Event Double)) (r : DatabaseResponse)
      → Keeps (λ (s : Session (Object Float) Double W). s.events ≡ events) (report_processing r)
  unfolding report_processing set_error_code set_error_message
  report_processing-events events r s p = ground arith

  when-IsQuiet :
      (events : List (Event Double)) (a b : Bool)
      (m : Io (Session (Object Float) Double W) (Unit {0})) (s : Session (Object Float) Double W)
      → (a ≡ true → ltb_ℤ no_error s.body.err_code ≡ true)
      → (m s).1.body ≡ s.body
      → s.events ≡ events
      → IsQuiet events (when (a && b) m s).1
  when-IsQuiet events true true m s h body p = inr (λ e.
      error-status s.body.err_code (h refl)
        (ap (λ (l : DataList (Object Float)). status_of l.err_code) (sym body) ∙ e))
  when-IsQuiet events true false m s h body p = inl p
  when-IsQuiet events false b m s h body p = inl p

  -- Where an event is only sent above `no_error`, a response with 200 comes without one.
  pub when_error-IsQuiet :
      (events : List (Event Double)) (b : Bool)
      (m : Io (Session (Object Float) Double W) (Unit {0})) (s : Session (Object Float) Double W)
      → (m s).1.body ≡ s.body
      → s.events ≡ events
      → IsQuiet events (when (ltb_ℤ no_error s.body.err_code && b) m s).1
  when_error-IsQuiet events b m s body p = when-IsQuiet events _ b m s (λ e. e) body p

-- The JSON text of a response without objects.
unfoldable pub bare_text : {D T : Type 0} → DataList T → List (Token D)
unfolding write_json_string_elt to_unsigned
bare_text l =
    start_object
    ∷ key "msg_type"
    ∷ uint (to_unsigned l.msg_type)
    ∷ key "err_code"
    ∷ uint (to_unsigned l.err_code)
    ∷ key "num_records"
    ∷ uint 0
    ∷ (write_json_string_elt "err_msg" l.err_msg
        ++ (write_json_string_elt "transaction_id" l.transaction_id
            ++ (key "objects" ∷ start_array ∷ end_array ∷ end_object ∷ [])))
