-- ===== src/Native/RoundTrip.antt =====
-- companion/src/messaging.rs: what is written as a frame is read back as that frame.
use not_another_ad_blocker.Prelude.{
  ℕ, ◌%◌, ◌^◌, ◌≤◌, ◌<◌, ◌≡◌, refl, ap, sym, ◌∙◌, Bool, true, false, List, [], ◌∷◌, ◌++◌, some,
  arith, take, drop, length, length-append, ok, append_assoc,
}
use not_another_ad_blocker.Native.Framing.{
  max_incoming_bytes, max_outgoing_bytes, Ending, Output, from_ne_bytes, to_ne_bytes, read_exact,
  read_body, read_frame, write_all, flush, write_frame,
}

to_ne_bytes_shape :
    (little : Bool) (n : ℕ)
    → (a : ℕ) × (b : ℕ) × (c : ℕ) × (d : ℕ) × (to_ne_bytes little n ≡ a ∷ b ∷ c ∷ d ∷ [])
unfolding to_ne_bytes
to_ne_bytes_shape true n = (_, _, _, _, refl)
to_ne_bytes_shape false n = (_, _, _, _, refl)

from-to_ne_bytes :
    (little : Bool) (n : ℕ) → n < 2 ^ 32 → from_ne_bytes little (to_ne_bytes little n) ≡ n
unfolding from_ne_bytes to_ne_bytes
from-to_ne_bytes true n h = omega arith
from-to_ne_bytes false n h = omega arith

take-append : (xs ys : List ℕ) → take (length xs) (xs ++ ys) ≡ xs
take-append [] ys = refl
take-append (x ∷ xs) ys = ap (λ t. x ∷ t) (take-append xs ys)

drop-append : (xs ys : List ℕ) → drop (length xs) (xs ++ ys) ≡ ys
drop-append [] ys = refl
drop-append (x ∷ xs) ys = drop-append xs ys

pub read_exact-append :
    (xs ys : List ℕ) (ending : Ending)
    → read_exact (length xs) (record { bytes = xs ++ ys; ending = ending })
      ≡ ok (xs, record { bytes = ys; ending = ending })
unfolding read_exact
read_exact-append xs ys ending =
    ground (arith, take-append xs ys, drop-append xs ys, length-append {0} xs ys)

-- The bytes that a frame takes in a stream.
abbrev pub frame_bytes : Bool → List ℕ → List ℕ
frame_bytes little bytes = to_ne_bytes little (length bytes % 2 ^ 32) ++ bytes

write_frame-frame_bytes :
    (little : Bool) (bytes : List ℕ) (output : Output) {after : Output}
    → write_frame little bytes output ≡ ok after
    → (after.written ≡ output.written ++ frame_bytes little bytes)
      × (length bytes ≤ max_outgoing_bytes)
unfolding write_frame write_all flush
write_frame-frame_bytes little bytes output {after} h = (
  ground (arith, append_assoc output.written (to_ne_bytes little (length bytes % 2 ^ 32)) bytes),
  ground arith,
)

pub read_frame-frame_bytes :
    (little : Bool) (bytes rest : List ℕ) (ending : Ending)
    → length bytes ≤ max_incoming_bytes
    → read_frame little (record { bytes = frame_bytes little bytes ++ rest; ending = ending })
      ≡ ok (some bytes, record { bytes = rest; ending = ending })
unfolding read_frame read_body
read_frame-frame_bytes little bytes rest ending small =
    let (a, b, c, d, shape) = to_ne_bytes_shape little (length bytes % 2 ^ 32) in
    let size : from_ne_bytes little (a ∷ b ∷ c ∷ d ∷ []) ≡ length bytes =
      ap (from_ne_bytes little) (sym shape)
      ∙ from-to_ne_bytes little (length bytes % 2 ^ 32) (omega arith)
      ∙ (omega arith) in
    rw shape (
      ground (
        arith,
        size,
        read_exact-append (a ∷ []) (b ∷ c ∷ d ∷ (bytes ++ rest)) ending,
        read_exact-append (b ∷ c ∷ d ∷ []) (bytes ++ rest) ending,
        read_exact-append bytes rest ending,
      ))

-- A frame that was written, with up to 256 KiB in it, is read back from the stream as it was
-- written, whatever follows it and in either byte order.
pub read_frame-write_frame :
    (little : Bool) (bytes rest : List ℕ) (output after : Output) (ending : Ending)
    → write_frame little bytes output ≡ ok after
    → length bytes ≤ max_incoming_bytes
    → (sent : List ℕ) × (after.written ≡ output.written ++ sent)
      × (read_frame little (record { bytes = sent ++ rest; ending = ending })
          ≡ ok (some bytes, record { bytes = rest; ending = ending }))
read_frame-write_frame little bytes rest output after ending h small = (
  frame_bytes little bytes,
  (write_frame-frame_bytes little bytes output h).0,
  read_frame-frame_bytes little bytes rest ending small,
)
