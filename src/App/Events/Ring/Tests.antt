-- ===== src/App/Events/Ring/Tests.antt =====
-- Tests of the ring of senders.
use clyman.Prelude.{ℕ, true, false, List, [], ◌∷◌, ◌++◌, replicate, ◌≡◌, refl}
use clyman.Outcome.{ok, crash}
use clyman.App.Events.Ring.{Happening, new_ring, message, thread_ends, event_stream}
use clyman.App.Events.Ring.Spec.{promised, event_stream-promised}

-- Three events, the second without a thread.
abbrev three : List (Happening ℕ)
three = message true 7 ∷ thread_ends 0 ∷ message false 8 ∷ message true 9 ∷ []

three_processed : event_stream three new_ring ≡ ok (7 ∷ 8 ∷ 9 ∷ [])
unfolding event_stream
three_processed = refl

-- Thirteen events in a row.
abbrev thirteen : List (Happening ℕ)
thirteen = replicate 12 (message true 7) ++ message true 8 ∷ []

event_stream-promised_example : event_stream thirteen new_ring ≡ promised 0 thirteen
event_stream-promised_example = event_stream-promised thirteen

thirteenth : promised 0 thirteen ≡ crash
thirteenth = refl
