-- ===== src/Controller/Caught.antt =====
-- What the handlers of objects and of properties do alike with exceptions that they catch, with
-- indices in the URI and with an empty result: src/controller/include/object_frame_base_handler.h, frame_base_handler.h,
-- object_frame_delete_handler.h, object_action_delete_handler.h and object_key_handler.h
use clyman.Prelude.{
  String, ℤ, pos, negsuc, ltb, Bool, true, false, ◌==◌, int_eq, Option, none, some, if◌then◌else◌,
}
use clyman.Outcome.{Outcome, ok, crash}
use clyman.Outcome.Io.{Io, pure, lift, ◌>>=◌, ◌>>◌, try_catch, when}
use clyman.Constants.{not_found}
use clyman.Std.{stoi}
use clyman.Controller.Handler.{Session, set_error_code, set_error_message, failed}

-- `frame_index`, which is 0 until it is read.
unfoldable pub index_or_zero : Option ℤ → ℤ
index_or_zero none = pos 0
index_or_zero (some n) = n

-- `"Creating Object Frame with Index: " + index` adds the index to the pointer of a literal of 34
-- characters: past them, and in front of them, that is undefined behaviour.
unfoldable pub log_index : ℤ → Outcome (Unit {0})
log_index (pos n) = if ltb 34 n then crash else ok tt
log_index (negsuc n) = crash

module _ {T D W : Type 0} where
  -- `frame_index` of an update: none if the text of the URI is no number.
  unfoldable pub parse_index : String → Io (Session T D W) (Option ℤ)
  unfolding stoi set_error_message
  parse_index frame_ind_str =
      try_catch (do n ← lift (stoi frame_ind_str); pure (some n))
        (λ e. set_error_message e >> pure none)

  -- The exception of a call, if there was one.
  unfoldable pub note_failure : Option String → Io (Session T D W) (Unit {0})
  unfolding failed
  note_failure none = pure tt
  note_failure (some e) = failed e

  -- The same, and whether the handler goes on.
  unfoldable pub continue_after : Option String → Io (Session T D W) Bool
  unfolding failed
  continue_after none = pure true
  continue_after (some e) = failed e >> pure false

  -- A get that found nothing.
  unfoldable pub mark_missing : Io (Session T D W) (Unit {0})
  unfolding set_error_code
  mark_missing s = when (s.body.num_records == pos 0) (set_error_code not_found) s
