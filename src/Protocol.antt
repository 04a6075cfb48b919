-- ===== src/Protocol.antt =====
-- companion/src/protocol.rs: the requests of the browser and their responses. The parser and the
-- writer of serde_json, and the operations of companion/src/lists.rs, are an interface, `Parts`.
pub mod Answers
pub mod Host
mod Tests
use mathlib.Core.Option
use not_another_ad_blocker.Prelude.{
  ℕ, Bool, true, false, ◌&&◌, ◌||◌, not, List, [], ◌∷◌, Option, none, some, String, ltb, leb, ◌==◌,
  length, if◌then◌else◌, Result, ok, err,
}
use not_another_ad_blocker.Text.{Str, codes, str_eq, len, is_empty}
use not_another_ad_blocker.Rules.Compile.{Compilation, compile}
use not_another_ad_blocker.Native.Framing.{IoError, max_outgoing_bytes}

-- A request, whose payload is not parsed yet.
pub record Request (Raw : Type 0) : Type 0 where
  pub version : ℕ
  pub id : Str
  pub kind : Str
  pub payload : Raw

pub record CompilePayload : Type 0 where
  pub text : Str
  pub source : Str

abbrev pub default_source : Str
default_source = codes "Local import"

pub record ProtocolError : Type 0 where
  pub code : Str
  pub message : Str

-- The payloads of the responses: the status, a compilation, or what the lists return.
pub data Payload (Listed : Type 0) : Type 0 where
  status : Payload Listed
  compilation : Compilation → Payload Listed
  listed : Listed → Payload Listed

pub record Response (Listed : Type 0) : Type 0 where
  pub version : ℕ
  pub id : Option Str
  pub succeeded : Bool
  pub payload : Option (Payload Listed)
  pub error : Option ProtocolError

-- What the source calls: `serde_json` with the fields of a value, the parsers of the payloads, and
-- the writer; and the operations on the lists, with their effects left out.
pub record Parts : Type 1 where
  pub Value : Type 0
  pub Raw : Type 0
  pub Refresh : Type 0
  pub Page : Type 0
  pub Listed : Type 0
  pub from_slice : List ℕ → Option Value
  pub id_of : Value → Option Str
  pub is_object : Value → Bool
  pub has_payload : Value → Bool
  pub to_request : List ℕ → Option (Request Raw)
  pub is_empty_payload : Raw → Bool
  pub to_compile : Raw → Option CompilePayload
  pub to_refresh : Raw → Option Refresh
  pub to_page : Raw → Option Page
  pub refresh : Refresh → Result ProtocolError Listed
  pub page : Page → Result ProtocolError Listed
  pub to_vec : Response Listed → Result IoError (List ℕ)

unfoldable pub valid_id : Str → Bool
valid_id id = not (is_empty id) && leb (len id) 128

module _ {Listed : Type 0} where
  abbrev pub success : Str → Payload Listed → Response Listed
  success id payload = record {
    version = 1;
    id = some id;
    succeeded = true;
    payload = some payload;
    error = none;
  }

  abbrev pub failure : Option Str → String → Str → Response Listed
  failure id code message = record {
    version = 1;
    id = id;
    succeeded = false;
    payload = none;
    error = some (record { code = codes code; message = message });
  }

  abbrev pub answer : Str → Result ProtocolError Listed → Response Listed
  answer id (ok value) = success id (listed value)
  answer id (err error) = record {
    version = 1;
    id = some id;
    succeeded = false;
    payload = none;
    error = some error;
  }

-- `filter`.
unfoldable pub keep_valid : Option Str → Option Str
keep_valid none = none
keep_valid (some id) = if valid_id id then some id else none

module _ (parts : Parts) where
  -- `none` means that the compilation ran out of fuel.
  unfoldable pub handle_compile : Str → CompilePayload → Option (Response parts.Listed)
  handle_compile id payload =
      if ltb 128 (len payload.source)
      then some
          (failure (some id) "INVALID_REQUEST" (codes "source must not exceed 128 UTF-8 bytes"))
      else elim (compile payload.text payload.source) [
        | none ↦ none
        | some (ok result) ↦ some (success id (compilation result))
        | some (err error) ↦ some (failure (some id) "LIMIT_EXCEEDED" (codes error))
      ]

  -- The match on the type of the request.
  unfoldable pub dispatch : Request parts.Raw → Option (Response parts.Listed)
  dispatch r =
      if str_eq r.kind (codes "status.get")
      then (if parts.is_empty_payload r.payload
          then some (success r.id status)
          else some (
              failure (some r.id) "INVALID_REQUEST"
                (codes "status.get payload must be an empty object")))
      else if str_eq r.kind (codes "rules.compile")
      then elim (parts.to_compile r.payload) [
        | none ↦ some (
            failure (some r.id) "INVALID_REQUEST"
              (codes "rules.compile requires text and optional source strings only"))
        | some payload ↦ handle_compile r.id payload
      ]
      else if str_eq r.kind (codes "lists.refresh")
      then elim (parts.to_refresh r.payload) [
        | none ↦ some (
            failure (some r.id) "INVALID_REQUEST"
              (codes "lists.refresh requires only ids and networkBudget"))
        | some payload ↦ some (answer r.id (parts.refresh payload))
      ]
      else if str_eq r.kind (codes "lists.page")
      then elim (parts.to_page r.payload) [
        | none ↦ some (
            failure (some r.id) "INVALID_REQUEST"
              (codes "lists.page requires only snapshotId, kind, and offset"))
        | some payload ↦ some (answer r.id (parts.page payload))
      ]
      else some (failure (some r.id) "UNKNOWN_MESSAGE_TYPE" (codes "Unknown message type"))

  unfoldable pub handle_request : Request parts.Raw → Option (Response parts.Listed)
  handle_request r =
      if not (valid_id r.id)
      then some (failure none "INVALID_REQUEST" (codes "id must contain 1 to 128 UTF-8 bytes"))
      else if not (r.version == 1)
      then some
          (failure (some r.id) "UNSUPPORTED_VERSION" (codes "Only protocol version 1 is supported"))
      else dispatch r

  unfoldable pub handle_value : List ℕ → parts.Value → Option (Response parts.Listed)
  handle_value bytes value =
      if not (parts.is_object value) || not (parts.has_payload value)
      then some (
          failure (keep_valid (parts.id_of value)) "INVALID_REQUEST"
            (codes "Request and payload must be JSON objects"))
      else elim (parts.to_request bytes) [
        | none ↦ some (
            failure (keep_valid (parts.id_of value)) "INVALID_REQUEST"
              (codes "Expected exactly version, id, type, and payload fields"))
        | some request ↦ handle_request request
      ]

  unfoldable pub handle : List ℕ → Option (Response parts.Listed)
  handle bytes = elim (parts.from_slice bytes) [
    | none ↦ some (failure none "INVALID_JSON" (codes "Message must be valid UTF-8 JSON"))
    | some value ↦ handle_value bytes value
  ]

  abbrev pub too_large : Option Str → Response parts.Listed
  too_large id =
      failure id "OUTPUT_TOO_LARGE"
        (codes "Compilation exceeds the 1 MiB response limit; import a smaller list")

  unfoldable pub encode_response : Response parts.Listed → Result IoError (List ℕ)
  encode_response response = elim (parts.to_vec response) [
    | err error ↦ err error
    | ok bytes ↦
        if leb (length bytes) max_outgoing_bytes
        then ok bytes
        else parts.to_vec (too_large response.id)
  ]
