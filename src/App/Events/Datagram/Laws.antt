-- ===== src/App/Events/Datagram/Laws.antt =====
-- What is heard of encrypted events.
use Prim.Native.String.{[] as empty_text, ◌∷◌ as text_cons}
use clyman.Prelude.{String, ◌≡◌, ap, Bool, true, false, List, [], ◌∷◌, ◌++◌, map, some, refl, arith}
use clyman.Outcome.{Outcome, ok, throw}
use clyman.App.Events.Datagram.{Received, overwritten, prepended, listen}

-- The first text over the start of the second, which is at least as long.
abbrev pub overlay : String → String → String
overlay empty_text s = s
overlay (text_cons c d) empty_text = text_cons c d
overlay (text_cons c d) (text_cons x s) = text_cons c (overlay d s)

abbrev pub has_room : String → String → Bool
has_room empty_text s = true
has_room (text_cons c d) empty_text = false
has_room (text_cons c d) (text_cons x s) = has_room d s

overwritten-overlay : (d s : String) → has_room d s ≡ true → overwritten d s ≡ some (overlay d s)
unfolding overwritten
overwritten-overlay empty_text s h = refl
overwritten-overlay (text_cons c d) empty_text h = ground arith
overwritten-overlay (text_cons c d) (text_cons x s) h = ap (prepended c) (overwritten-overlay d s h)

-- A datagram that comes while encryption is on.
abbrev pub secured : String → String → String → Received
secured key iv payload = record {
  aes_enabled_opt = "true";
  aesin_key = key;
  aesin_iv = iv;
  payload = payload;
  failed = false;
}

-- While encryption is on, the events that can be decrypted are handed on in their order, each as its
-- text over the start of its longer cipher text, whose end stays behind it; and the first datagram
-- that cannot be decrypted ends the stream with the exception: nothing behind it is read.
pub listen-stops :
    (decrypt : String → String → String → Outcome String) (key iv : String)
    (cipher : String → String) (msgs : List String) (bad e : String) (rest : List Received)
    (aes : Bool)
    → ((m : String) → decrypt key iv (cipher m) ≡ ok m)
    → ((m : String) → has_room m (cipher m) ≡ true)
    → decrypt key iv bad ≡ throw e
    → listen decrypt aes (map (λ m. secured key iv (cipher m)) msgs ++ secured key iv bad ∷ rest)
      ≡ (map (λ m. overlay m (cipher m)) msgs, throw e)
unfolding listen
listen-stops decrypt key iv cipher [] bad e rest aes h r hb = simp (hb)
listen-stops decrypt key iv cipher (m ∷ ms) bad e rest aes h r hb = simp (
  h m,
  overwritten-overlay m (cipher m) (r m),
  listen-stops decrypt key iv cipher ms bad e rest true h r hb,
)
