-- ===== src/Native/Serve.antt =====
-- companion/src/lib.rs, `serve`: a response for each frame, until the input ends. The handler and
-- the encoder of companion/src/protocol.rs are one parameter, `respond`.
use not_another_ad_blocker.Prelude.{
  ℕ, zero, suc, ◌+◌, ◌-◌, ◌%◌, ◌^◌, ◌≤◌, ◌<◌, ◌≡◌, ◌≢◌, refl, sym, ◌∙◌, Bool, true, List, [], ◌∷◌,
  ◌++◌, Option, none, some, arith, length, length-append, length-drop, Result, ok, err,
  append_assoc, append-nil, Result-cases, inl, inr,
}
use not_another_ad_blocker.Native.Framing.{
  IoError, max_incoming_bytes, max_outgoing_bytes, at_end, Input, Output, read_exact, read_body,
  read_frame, write_all, flush, write_frame, to_ne_bytes, from_ne_bytes,
}
use not_another_ad_blocker.Native.RoundTrip.{frame_bytes, read_frame-frame_bytes}

read_exact-shorter :
    (n : ℕ) (input : Input) {bytes : List ℕ} {rest : Input}
    → read_exact n input ≡ ok (bytes, rest)
    → length rest.bytes + n ≡ length input.bytes
unfolding read_exact
read_exact-shorter n input h = ground (arith, length-drop {0} n input.bytes)

read_body-shorter :
    (little : Bool) (header : List ℕ) (input : Input) {frame : List ℕ} {rest : Input}
    → read_body little header input ≡ ok (some frame, rest)
    → length rest.bytes ≤ length input.bytes
unfolding read_body
read_body-shorter little header input h =
    elim (Result-cases (read_exact (from_ne_bytes little header) input)) [
      | inr (e, bad) ↦ absurd (ground arith)
      | inl ((bytes, after), e) ↦
          ground (arith, read_exact-shorter (from_ne_bytes little header) input e)
    ]

-- A frame takes bytes from the input.
read_frame-shorter :
    (little : Bool) (input : Input) {frame : List ℕ} {rest : Input}
    → read_frame little input ≡ ok (some frame, rest)
    → length rest.bytes < length input.bytes
unfolding read_frame
read_frame-shorter little input {frame} {rest = final} h =
    elim (Result-cases (read_exact 1 input)) [
      | inr (e, bad) ↦ absurd (ground arith)
      | inl ((first, rest), e) ↦ elim (Result-cases (read_exact 3 rest)) [
        | inr (e', bad) ↦ absurd (ground arith)
        | inl ((others, after), e') ↦ omega (
          arith,
          read_body-shorter little (first ++ others) after {frame = frame} {rest = final}
              (ground arith),
          read_exact-shorter 1 input e,
          read_exact-shorter 3 rest e',
        )
      ]
    ]

module _ (little : Bool) (respond : List ℕ → Result IoError (List ℕ)) where
  -- `none` means that the fuel ran out.
  unfoldable pub serve_from : ℕ → Input → Output → Option (Result IoError Output)
  serve_from zero input output = none
  serve_from (suc fuel) input output = elim (read_frame little input) [
    | err error ↦ some (err error)
    | ok (none, rest) ↦ some (ok output)
    | ok (some frame, rest) ↦ elim (respond frame) [
      | err error ↦ some (err error)
      | ok bytes ↦ elim (write_frame little bytes output) [
        | err error ↦ some (err error)
        | ok after ↦ serve_from fuel rest after
      ]
    ]
  ]

  -- A frame takes four bytes at least, so that the length of the input is enough fuel.
  unfoldable pub serve : Input → Output → Option (Result IoError Output)
  serve input output = serve_from (suc (length input.bytes)) input output

  serve_from-total :
      (fuel : ℕ) (input : Input) (output : Output)
      → length input.bytes < fuel
      → serve_from fuel input output ≢ none
  unfolding serve_from
  serve_from-total zero input output h = absurd (omega arith)
  serve_from-total (suc fuel) input output h = elim (Result-cases (read_frame little input)) [
    | inr (e, bad) ↦ ground arith
    | inl ((none, rest), e) ↦ ground arith
    | inl ((some frame, rest), e) ↦ elim (Result-cases (respond frame)) [
      | inr (e', bad) ↦ ground arith
      | inl (bytes, e') ↦ elim (Result-cases (write_frame little bytes output)) [
        | inr (e'', bad) ↦ ground arith
        | inl (after, e'') ↦ ground (
          arith,
          read_frame-shorter little input e,
          serve_from-total fuel rest after (omega (arith, read_frame-shorter little input e)),
        )
      ]
    ]
  ]

  -- What a client sends, and what it is to get: requests with their responses, within the limits.
  abbrev pub AreAnswered : List (List ℕ × List ℕ) → Type 0
  AreAnswered [] = Unit
  AreAnswered ((request, response) ∷ rest) =
      (length request ≤ max_incoming_bytes)
      × (length response ≤ max_outgoing_bytes)
      × (respond request ≡ ok response)
      × AreAnswered rest

  unfoldable pub requests : List (List ℕ × List ℕ) → List ℕ
  requests [] = []
  requests ((request, response) ∷ rest) = frame_bytes little request ++ requests rest

  unfoldable pub responses : List (List ℕ × List ℕ) → List ℕ
  responses [] = []
  responses ((request, response) ∷ rest) = frame_bytes little response ++ responses rest

  write_frame-room :
      (bytes : List ℕ) (output : Output)
      → length bytes ≤ max_outgoing_bytes
      → length (frame_bytes little bytes) ≤ output.room
      → output.flushes ≡ true
      → write_frame little bytes output
        ≡ ok (record {
          written = output.written ++ frame_bytes little bytes;
          room = output.room - length (frame_bytes little bytes);
          flushes = output.flushes;
        })
  unfolding write_frame write_all flush
  write_frame-room bytes output small room flushed = ground (
    arith,
    append_assoc output.written (to_ne_bytes little (length bytes % 2 ^ 32)) bytes,
    length-append {0} (to_ne_bytes little (length bytes % 2 ^ 32)) bytes,
  )

  serve_step :
      (fuel : ℕ) (input rest : Input) (output after : Output) (frame bytes : List ℕ)
      → read_frame little input ≡ ok (some frame, rest)
      → respond frame ≡ ok bytes
      → write_frame little bytes output ≡ ok after
      → serve_from (suc fuel) input output ≡ serve_from fuel rest after
  unfolding serve_from
  serve_step fuel input rest output after frame bytes e e' e'' = ground arith

  serve_end :
      (fuel : ℕ) (output : Output)
      → serve_from (suc fuel) (record { bytes = []; ending = at_end }) output ≡ some (ok output)
  unfolding serve_from read_frame read_exact
  serve_end fuel output = refl

  serve_from-responses :
      (calls : List (List ℕ × List ℕ)) (fuel : ℕ) (output : Output)
      → AreAnswered calls
      → length (requests calls) < fuel
      → length (responses calls) ≤ output.room
      → output.flushes ≡ true
      → (after : Output) × (serve_from fuel
            (record { bytes = requests calls; ending = at_end })
            output
          ≡ some (ok after))
        × (after.written ≡ output.written ++ responses calls)
  unfolding requests responses
  serve_from-responses calls zero output a enough room flushed = absurd (omega arith)
  serve_from-responses [] (suc fuel) output a enough room flushed =
      (output, serve_end fuel output, sym (append-nil output.written))
  serve_from-responses ((request, response) ∷ rest) (suc fuel) output (small, fits, answered, a)
        enough room flushed =
      let sent = frame_bytes little response in
      let after : Output = record {
        written = output.written ++ sent;
        room = output.room - length sent;
        flushes = output.flushes;
      } in
      let read = read_frame-frame_bytes little request (requests rest) at_end small in
      let (final, done, wrote) =
        serve_from-responses rest fuel after a
          (omega (arith, enough, read_frame-shorter little _ read))
          (omega (arith, room, length-append {0} sent (responses rest))) flushed in
      (
        final,
        serve_step fuel _ _ output after request response read answered (
              write_frame-room response output fits
                (omega (arith, room, length-append {0} sent (responses rest))) flushed)
            ∙ done,
        wrote ∙ append_assoc output.written sent (responses rest),
      )

  -- The host ends for every input, and for a stream of requests that its handler answers within
  -- the limits it writes the responses, each as a frame and in their order, and ends without an
  -- error, if the output has room for them and flushes.
  pub serve-responses :
      (input : Input) (output : Output) (calls : List (List ℕ × List ℕ))
      → AreAnswered calls
      → length (responses calls) ≤ output.room
      → output.flushes ≡ true
      → (serve input output ≢ none)
        × ((after : Output) × (serve (record { bytes = requests calls; ending = at_end }) output
              ≡ some (ok after))
            × (after.written ≡ output.written ++ responses calls))
  unfolding serve
  serve-responses input output calls a room flushed = (
    serve_from-total (suc (length input.bytes)) input output (omega arith),
    serve_from-responses calls (suc (length (requests calls))) output a (omega arith) room flushed,
  )
