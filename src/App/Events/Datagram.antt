-- ===== src/App/Events/Datagram.antt =====
-- src/app/include/event_sender.h, `publish_event`, and the receiving half of `event_stream` in
-- src/app/include/event_stream_process.h: events as UDP datagrams, and their encryption.
pub mod Laws
mod Tests
use Prim.Native.Char.{Char}
use Prim.Native.String.{[] as empty_text, ◌∷◌ as text_cons}
use clyman.Prelude.{
  String, ℤ, ◌==◌, string_eq, Bool, true, false, not, ◌&&◌, List, [], ◌∷◌, Option, none, some,
  if◌then◌else◌,
}
use clyman.Outcome.{Outcome, ok, throw, crash, or_crash, ◌>>=◌}

-- `EventStreamPublisher`; without encryption both texts are empty.
pub record Publisher : Type 0 where
  pub encryption_active : Bool
  pub encrypt_key : String
  pub encrypt_iv : String

unfoldable pub new_publisher : Option (String × String) → Publisher
new_publisher none = record { encryption_active = false; encrypt_key = ""; encrypt_iv = "" }
new_publisher (some (key, iv)) = record {
  encryption_active = true;
  encrypt_key = key;
  encrypt_iv = iv;
}

-- A call of `send_to`.
pub record Sent : Type 0 where
  pub payload : String
  pub host : String
  pub port : ℤ

-- Poco's cipher, over a key, an initialization vector and a text, and Boost's reader of addresses.
module _ (encrypt : String → String → String → Outcome String)
    (from_string : String → Outcome (Unit {0})) where
  payload_of : Publisher → String → Outcome String
  payload_of p event_msg =
      if p.encryption_active then encrypt p.encrypt_key p.encrypt_iv event_msg else ok event_msg

  -- What is sent if nothing throws.
  sending : Publisher → String → String → ℤ → Outcome Sent
  unfolding payload_of
  sending p event_msg host port = do
    _ ← from_string host
    payload ← payload_of p event_msg
    ok (record { payload = payload; host = host; port = port })

  -- Exceptions are caught, and the event is lost.
  caught_sent : Outcome Sent → Outcome (List Sent)
  caught_sent (ok s) = ok (s ∷ [])
  caught_sent (throw e) = ok []
  caught_sent crash = crash

  unfoldable pub publish_event : Publisher → String → String → ℤ → Outcome (List Sent)
  unfolding sending caught_sent
  publish_event p event_msg host port = caught_sent (sending p event_msg host port)

-- A turn of the loop of `event_stream`: the options as they are read at its start, and what the socket
-- gives, with the error that makes the loop pass it over.
pub record Received : Type 0 where
  pub aes_enabled_opt : String
  pub aesin_key : String
  pub aesin_iv : String
  pub payload : String
  pub failed : Bool

prepended : Char → Option String → Option String
prepended c none = none
prepended c (some s) = some (text_cons c s)

-- `memcpy(event_msg, decrypted, decrypted.size())` over the text that was received. A longer text
-- takes the place of the final zero or runs past the memory.
unfoldable pub overwritten : String → String → Option String
unfolding prepended
overwritten empty_text s = some s
overwritten (text_cons c d) empty_text = none
overwritten (text_cons c d) (text_cons x s) = prepended c (overwritten d s)

module _ (decrypt : String → String → String → Outcome String) where
  -- The text of the event.
  event_text : Bool → Received → Outcome String
  unfolding overwritten
  event_text aes_enabled r =
      if aes_enabled
      then (do
        decrypted ← decrypt r.aesin_key r.aesin_iv r.payload
        or_crash (overwritten decrypted r.payload))
      else ok r.payload

  -- Once it is enabled, decryption stays enabled.
  aes_after : Bool → Received → Bool
  aes_after aes_enabled r = if r.aes_enabled_opt == "true" then true else aes_enabled

  heard : Outcome String → List String × Outcome (Unit {0}) → List String × Outcome (Unit {0})
  heard (ok e) (es, end) = (e ∷ es, end)
  heard (throw e) rest = ([], throw e)
  heard crash rest = ([], crash)

  -- The events that the loop hands on, and how it ends: an exception leaves it.
  unfoldable pub listen : Bool → List Received → List String × Outcome (Unit {0})
  unfolding event_text aes_after heard
  listen aes_enabled [] = ([], ok tt)
  listen aes_enabled (r ∷ rs) =
      let aes = aes_after aes_enabled r in
      let rest = listen aes rs in if r.failed then rest else heard (event_text aes r) rest
