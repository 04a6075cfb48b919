-- ===== src/Native/Framing.antt =====
-- companion/src/messaging.rs: frames with a length of four bytes in front. The streams are generic
-- in the source: an input is the bytes that it still gives and how it ends, an output the bytes
-- written so far, how many more it takes before it fails, and whether a flush of it succeeds. The
-- byte order is the machine's.
use not_another_ad_blocker.Prelude.{
  ℕ, ◌+◌, ◌-◌, ◌*◌, ◌/◌, ◌%◌, ◌^◌, Bool, true, false, List, [], ◌∷◌, ◌++◌, Option, none, some,
  String, leb, ltb, take, drop, length, if◌then◌else◌, Result, ok, err, reverse,
}

abbrev pub max_incoming_bytes : ℕ
max_incoming_bytes = 262144

abbrev pub max_outgoing_bytes : ℕ
max_outgoing_bytes = 1048576

-- `io::ErrorKind`, with a number for the kinds that the source does not name.
pub data ErrorKind : Type 0 where
  unexpected_eof invalid_data : ErrorKind
  other_kind : ℕ → ErrorKind

pub record IoError : Type 0 where
  pub kind : ErrorKind
  pub message : String

abbrev pub io_error : ErrorKind → String → IoError
io_error kind message = record { kind = kind; message = message }

-- How an input ends: no more bytes, or an error of the system.
pub data Ending : Type 0 where
  at_end : Ending
  fails : ℕ → Ending

pub record Input : Type 0 where
  pub bytes : List ℕ
  pub ending : Ending

abbrev pub end_error : Ending → IoError
end_error at_end = io_error unexpected_eof "failed to fill whole buffer"
end_error (fails code) = io_error (other_kind code) "system error"

-- `Read::read_exact`: the bytes and the input after them, or the error that the input ends with.
unfoldable pub read_exact : ℕ → Input → Result IoError (List ℕ × Input)
read_exact n input =
    if leb n (length input.bytes)
    then ok (take n input.bytes, record input { bytes = drop n input.bytes })
    else err (end_error input.ending)

abbrev pub is_eof : ErrorKind → Bool
is_eof unexpected_eof = true
is_eof invalid_data = false
is_eof (other_kind code) = false

-- The `map_err` of the source: an early end gets its own message.
abbrev pub truncated : String → IoError → IoError
truncated message error = if is_eof error.kind then io_error unexpected_eof message else error

abbrev pub from_le : List ℕ → ℕ
from_le [] = 0
from_le (b ∷ bs) = b + 256 * from_le bs

-- The value of four bytes in the machine's order.
unfoldable pub from_ne_bytes : Bool → List ℕ → ℕ
from_ne_bytes little bytes = if little then from_le bytes else from_le (reverse bytes)

unfoldable pub to_ne_bytes : Bool → ℕ → List ℕ
to_ne_bytes little n =
    let b0 = n % 256 in
    let b1 = n / 256 % 256 in
    let b2 = n / 65536 % 256 in
    let b3 = n / 16777216 % 256 in if little then b0 ∷ b1 ∷ b2 ∷ b3 ∷ [] else b3 ∷ b2 ∷ b1 ∷ b0 ∷ []

-- A frame's bytes, and the input after it; or nothing, at a clean end.
abbrev pub Frame : Type 0
Frame = Result IoError (Option (List ℕ) × Input)

unfoldable pub read_body : Bool → List ℕ → Input → Frame
read_body little header input =
    let size = from_ne_bytes little header in
    if ltb max_incoming_bytes size
    then err (io_error invalid_data "native message exceeds 256 KiB input limit")
    else elim (read_exact size input) [
      | ok (bytes, rest) ↦ ok (some bytes, rest)
      | err error ↦ err (truncated "truncated native message body" error)
    ]

unfoldable pub read_frame : Bool → Input → Frame
read_frame little input = elim (read_exact 1 input) [
  | err error ↦ if is_eof error.kind then ok (none, input) else err error
  | ok (first, rest) ↦ elim (read_exact 3 rest) [
    | err error ↦ err (truncated "truncated native message header" error)
    | ok (others, after) ↦ read_body little (first ++ others) after
  ]
]

pub record Output : Type 0 where
  pub written : List ℕ
  pub room : ℕ
  pub flushes : Bool

-- `Write::write_all`.
unfoldable pub write_all : List ℕ → Output → Result IoError Output
write_all bytes output =
    if leb (length bytes) output.room
    then ok (record output { written = output.written ++ bytes; room = output.room - length bytes })
    else err (io_error (other_kind 0) "write error")

-- `Write::flush`.
unfoldable pub flush : Output → Result IoError Output
flush output = if output.flushes then ok output else err (io_error (other_kind 1) "flush error")

unfoldable pub write_frame : Bool → List ℕ → Output → Result IoError Output
write_frame little bytes output =
    if ltb max_outgoing_bytes (length bytes)
    then err (io_error invalid_data "native response exceeds 1 MiB output limit")
    else elim (write_all (to_ne_bytes little (length bytes % 2 ^ 32)) output) [
      | err error ↦ err error
      | ok after ↦ elim (write_all bytes after) [ err error ↦ err error | ok all ↦ flush all ]
    ]
