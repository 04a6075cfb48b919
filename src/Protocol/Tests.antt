-- ===== src/Protocol/Tests.antt =====
-- companion/src/protocol.rs: requests, and the theorems at them.
use not_another_ad_blocker.Prelude.{
  ℕ, ◌≡◌, ◌≤◌, refl, Bool, true, false, List, [], ◌∷◌, ◌++◌, Option, none, some, ok, ok_inj,
  if◌then◌else◌, ◌==◌, All, arith, length, subst,
}
use not_another_ad_blocker.Text.{codes}
use not_another_ad_blocker.Text.{
  encode_char, bytes, len, strip_prefix, starts_with, strip_suffix, ends_with, split_once, contains,
  find_split, split, join, trim_start, trim_end, trim_matches, trim, lines, to_ascii_lowercase,
}
use not_another_ad_blocker.Native.Framing.{
  read_exact, from_ne_bytes, to_ne_bytes, read_body, read_frame, write_all, write_frame,
}
use not_another_ad_blocker.Native.Serve.{serve_from, serve, requests, responses}
use not_another_ad_blocker.Protocol.{
  valid_id, keep_valid, handle_compile, dispatch, handle_request, handle_value, handle,
  encode_response,
}
use not_another_ad_blocker.Protocol.Host.{respond}
use not_another_ad_blocker.Native.Framing.{at_end, Output}
use not_another_ad_blocker.Protocol.{Request, Parts, success, status}
use not_another_ad_blocker.Protocol.Answers.{
  IsAnswered, IsAnswerTo, handle-IsAnswer, handle-IsAnswerTo,
}
use not_another_ad_blocker.Protocol.Host.{IsWriter, exchanges, serve-exchanges}

program : Unit {0}
unfolding encode_char bytes len strip_prefix starts_with strip_suffix ends_with split_once contains
    find_split split join trim_start trim_end trim_matches trim lines to_ascii_lowercase read_exact
    from_ne_bytes to_ne_bytes read_body read_frame write_all write_frame serve_from serve requests
    responses valid_id keep_valid handle_compile dispatch handle_request handle_value handle
    encode_response respond
program = tt

abbrev request : Request (List ℕ)
request = record { version = 1; id = codes "7"; kind = codes "status.get"; payload = [] }

-- A message of the byte 1 is a request for the status, and one of the byte 2 is no JSON.
abbrev parse_example : List ℕ → Option (List ℕ)
parse_example [] = some []
parse_example (b ∷ bytes) = if b == 2 then none else some (b ∷ bytes)

abbrev written : Bool → List ℕ
written true = 123 ∷ 125 ∷ []
written false = 91 ∷ 93 ∷ []

abbrev parts : Parts
parts = record {
  Value = List ℕ;
  Raw = List ℕ;
  Refresh = List ℕ;
  Page = List ℕ;
  Listed = List ℕ;
  from_slice = parse_example;
  id_of = λ value. some (codes "7");
  is_object = λ value. true;
  has_payload = λ value. true;
  to_request = λ bytes. some request;
  is_empty_payload = λ payload. true;
  to_compile = λ payload. none;
  to_refresh = λ payload. none;
  to_page = λ payload. none;
  refresh = λ payload. ok payload;
  page = λ payload. ok payload;
  to_vec = λ response. ok (written response.succeeded);
}

status_answered : handle parts (1 ∷ []) ≡ some (success (codes "7") status)
unfolding program
status_answered = refl

handle-IsAnswer_example : IsAnswered parts (handle parts (2 ∷ []))
handle-IsAnswer_example = handle-IsAnswer parts (2 ∷ [])

request_valid : valid_id request.id ≡ true
unfolding program
request_valid = refl

handle-IsAnswerTo_example : IsAnswerTo request.id (handle parts (1 ∷ []))
handle-IsAnswerTo_example =
    handle-IsAnswerTo parts (1 ∷ []) (1 ∷ []) request refl refl refl refl request_valid

written_short : (b : Bool) → length (written b) ≤ 1048576
written_short true = omega arith
written_short false = omega arith

parts-IsWriter : IsWriter parts
parts-IsWriter = record {
  writes = λ r. (written r.succeeded, refl);
  short = λ id bytes named e. subst (λ b. length b ≤ 1048576) (ok_inj e) (written_short false);
}

abbrev frames : List (List ℕ)
frames = (1 ∷ []) ∷ (2 ∷ []) ∷ []

abbrev output : Output
output = record { written = []; room = 100; flushes = true }

frames_short : All (λ frame. length frame ≤ 262144) frames
frames_short = (omega arith, (omega arith, tt))

room_for_frames : length (responses true (respond parts) (exchanges parts frames)) ≤ output.room
unfolding program
room_for_frames = omega arith

serve-exchanges_example :
    (after : Output) × (serve true
        (respond parts)
        (record { bytes = requests true (respond parts) (exchanges parts frames); ending = at_end })
        output
      ≡ some (ok after))
    × (after.written ≡ output.written ++ responses true (respond parts) (exchanges parts frames))
serve-exchanges_example =
    serve-exchanges parts true frames output parts-IsWriter frames_short room_for_frames refl
