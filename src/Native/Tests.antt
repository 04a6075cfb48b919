-- ===== src/Native/Tests.antt =====
-- companion/src/messaging.rs and lib.rs: the theorems at concrete inputs.
use not_another_ad_blocker.Prelude.{
  ℕ, ◌≡◌, ◌≢◌, ◌≤◌, refl, true, List, [], ◌∷◌, ◌++◌, none, some, length, Result, ok, arith,
}
use not_another_ad_blocker.Native.Framing.{
  IoError, Output, at_end, read_exact, from_ne_bytes, to_ne_bytes, read_body, read_frame, write_all,
  flush, write_frame,
}
use not_another_ad_blocker.Native.RoundTrip.{read_frame-write_frame}
use not_another_ad_blocker.Native.Serve.{
  AreAnswered, requests, responses, serve, serve_from, serve-responses,
}

program : Unit {0}
unfolding read_exact from_ne_bytes to_ne_bytes read_body read_frame write_all flush write_frame
    requests responses serve serve_from
program = tt

abbrev empty_output : Output
empty_output = record { written = []; room = 100; flushes = true }

abbrev message : List ℕ
message = 123 ∷ 125 ∷ []

abbrev framed : Output
framed = record { written = 2 ∷ 0 ∷ 0 ∷ 0 ∷ 123 ∷ 125 ∷ []; room = 94; flushes = true }

message-framed : write_frame true message empty_output ≡ ok framed
unfolding program
message-framed = refl

read_frame-write_frame_example :
    (sent : List ℕ) × (framed.written ≡ empty_output.written ++ sent)
    × (read_frame true (record { bytes = sent ++ (7 ∷ []); ending = at_end })
        ≡ ok (some message, record { bytes = 7 ∷ []; ending = at_end }))
read_frame-write_frame_example =
    read_frame-write_frame true message (7 ∷ []) empty_output framed at_end message-framed
      (omega arith)

-- A handler that sends each request back.
abbrev echo : List ℕ → Result IoError (List ℕ)
echo frame = ok frame

abbrev calls : List (List ℕ × List ℕ)
calls = (message, message) ∷ ([], []) ∷ []

calls-AreAnswered : AreAnswered true echo calls
calls-AreAnswered = (omega arith, omega arith, refl, (omega arith, omega arith, refl, tt))

room_for_calls : length (responses true echo calls) ≤ empty_output.room
unfolding program
room_for_calls = omega arith

serve-responses_example :
    (serve true echo (record { bytes = 5 ∷ []; ending = at_end }) empty_output ≢ none)
    × ((after : Output) × (serve true echo
            (record { bytes = requests true echo calls; ending = at_end })
            empty_output
          ≡ some (ok after))
        × (after.written ≡ empty_output.written ++ responses true echo calls))
serve-responses_example =
    serve-responses true echo (record { bytes = 5 ∷ []; ending = at_end }) empty_output calls
      calls-AreAnswered room_for_calls refl
