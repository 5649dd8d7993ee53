-- ===== src/App/Events/Datagram/Tests.antt =====
-- Tests of the datagrams.
use Prim.Native.Char.{Char}
use Prim.Native.String.{[] as empty_text, ◌∷◌ as text_cons}
use clyman.Prelude.{String, pos, ◌≡◌, refl, true, false, [], ◌∷◌, some}
use clyman.Outcome.{Outcome, ok, throw}
use clyman.App.Events.Datagram.{listen, publish_event, new_publisher}
use clyman.App.Events.Datagram.Laws.{secured, has_room, listen-stops}

-- A cipher that puts a mark in front.
abbrev encrypt : String → String → String → Outcome String
encrypt key iv m = ok (text_cons "*" m)

abbrev decrypt : String → String → String → Outcome String
decrypt key iv empty_text = throw "bad decrypt"
decrypt key iv (text_cons c m) = ok m

room_behind : (c : Char) (m : String) → has_room m (text_cons c m) ≡ true
room_behind c empty_text = refl
room_behind c (text_cons x m) = room_behind x m

listen-stops_example :
    listen decrypt false (
      secured "k" "iv" "*a"
      ∷ secured "k" "iv" "*b"
      ∷ secured "k" "iv" ""
      ∷ secured "k" "iv" "*c"
      ∷ [])
    ≡ ("aa" ∷ "bb" ∷ [], throw "bad decrypt")
listen-stops_example =
    listen-stops decrypt "k" "iv" (text_cons "*") ("a" ∷ "b" ∷ []) "" "bad decrypt"
      (secured "k" "iv" "*c" ∷ []) false (λ m. refl) (room_behind "*") refl

published :
    publish_event encrypt (λ h. ok tt) (new_publisher (some ("k", "iv"))) "a" "host" (pos 1)
    ≡ ok (record { payload = "*a"; host = "host"; port = pos 1 } ∷ [])
unfolding publish_event new_publisher
published = refl
