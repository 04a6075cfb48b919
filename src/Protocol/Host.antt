-- ===== src/Protocol/Host.antt =====
-- companion/src/protocol.rs and companion/src/lib.rs: the host with its handler and its encoder.
use not_another_ad_blocker.Prelude.{
  ℕ, ◌≤◌, ◌≡◌, refl, Bool, true, List, [], ◌∷◌, ◌++◌, Option, none, some, map, All, arith, leb,
  length, Result, ok, err, inl, inr, Bool-cases,
}
use not_another_ad_blocker.Text.{Str}
use not_another_ad_blocker.Native.Framing.{
  IoError, io_error, other_kind, max_incoming_bytes, max_outgoing_bytes, at_end, Output,
}
use not_another_ad_blocker.Native.Serve.{serve, AreAnswered, requests, responses, serve-responses}
use not_another_ad_blocker.Protocol.{Response, Parts, valid_id, handle, too_large, encode_response}
use not_another_ad_blocker.Protocol.Answers.{IsAnswer, handle-IsAnswer}

-- The handler and the encoder of the loop in `serve`. The handler has fuel enough for every message,
-- so that the error for a lack of it never happens.
unfoldable pub respond : Parts → List ℕ → Result IoError (List ℕ)
respond parts frame = elim (handle parts frame) [
  | none ↦ err (io_error (other_kind 0) "out of fuel")
  | some response ↦ encode_response parts response
]

-- What serde_json does with the responses: it writes every one, and the short one for too large a
-- response within the limit.
pub record IsWriter (parts : Parts) : Type 0 where
  pub writes : (r : Response parts.Listed) → (bytes : List ℕ) × (parts.to_vec r ≡ ok bytes)
  pub short :
      (id : Option Str) (bytes : List ℕ)
      → ((i : Str) → id ≡ some i → valid_id i ≡ true)
      → parts.to_vec (too_large parts id) ≡ ok bytes
      → length bytes ≤ max_outgoing_bytes

module _ (parts : Parts) where
  abbrev pub bytes_of : Result IoError (List ℕ) → List ℕ
  bytes_of (ok bytes) = bytes
  bytes_of (err error) = []

  -- The frames with their responses.
  abbrev pub exchanges : List (List ℕ) → List (List ℕ × List ℕ)
  exchanges frames = map (λ frame. (frame, bytes_of (respond parts frame))) frames

  encode_response-fits :
      (r : Response parts.Listed)
      → IsWriter parts
      → IsAnswer r
      → (bytes : List ℕ) × (encode_response parts r ≡ ok bytes)
        × (length bytes ≤ max_outgoing_bytes)
  unfolding encode_response
  encode_response-fits r w a =
      let (bytes, written) = w.writes r in
      elim (Bool-cases (leb (length bytes) max_outgoing_bytes)) [
        | inl e ↦ rw (encode_response, written, e) (bytes, refl, ground arith)
        | inr e ↦
            let (other, written') = w.writes (too_large parts r.id) in
            rw (encode_response, written, e) (other, written', w.short r.id other a.named written')
      ]

  respond-fits :
      (frame : List ℕ)
      → IsWriter parts
      → (respond parts frame ≡ ok (bytes_of (respond parts frame)))
        × (length (bytes_of (respond parts frame)) ≤ max_outgoing_bytes)
  unfolding respond
  respond-fits frame w =
      let (r, same, a) = handle-IsAnswer parts frame in
      let (bytes, e, fits) = encode_response-fits r w a in rw (respond, same, e) (refl, fits)

  exchanges-AreAnswered :
      (little : Bool) (frames : List (List ℕ))
      → IsWriter parts
      → All (λ frame. length frame ≤ max_incoming_bytes) frames
      → AreAnswered little (respond parts) (exchanges frames)
  exchanges-AreAnswered little [] w a = tt
  exchanges-AreAnswered little (frame ∷ frames) w (small, a) =
      let (same, fits) = respond-fits frame w in
      (small, fits, same, exchanges-AreAnswered little frames w a)

  -- The host answers every message of up to 256 KiB, whatever its bytes, and in their order: for a
  -- stream of such frames it writes the responses and ends without an error, if the output has room for
  -- them and flushes. No response is too large for a frame, where serde_json writes every response.
  pub serve-exchanges :
      (little : Bool) (frames : List (List ℕ)) (output : Output)
      → IsWriter parts
      → All (λ frame. length frame ≤ max_incoming_bytes) frames
      → length (responses little (respond parts) (exchanges frames)) ≤ output.room
      → output.flushes ≡ true
      → (after : Output) × (serve little
            (respond parts)
            (record { bytes = requests little (respond parts) (exchanges frames); ending = at_end })
            output
          ≡ some (ok after))
        × (after.written ≡ output.written ++ responses little (respond parts) (exchanges frames))
  serve-exchanges little frames output w a room flushed =
      (serve-responses little (respond parts) (record { bytes = []; ending = at_end }) output
        (exchanges frames) (exchanges-AreAnswered little frames w a) room flushed).1
