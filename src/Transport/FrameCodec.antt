-- ===== src/Transport/FrameCodec.antt =====
-- src/transport/frame-codec.ts: length-prefixed frames and their incremental decoder.
-- A buffer that is filled from the left is the list of the bytes written so far: `headerBytes` and
-- `bodyBytes` are the lengths of these lists. The texts of the errors are left out.
pub mod Bytes
pub mod Stream
pub mod Failure
mod Tests
use pi_to_pi.Prelude.{
  ℕ, zero, suc, ◌+◌, ◌-◌, ◌*◌, ◌/◌, ◌%◌, ◌^◌, min, ltb, leb, ◌==◌, if◌then◌else◌, ◌||◌, not, Option,
  none, some, List, [], ◌∷◌, ◌++◌, length, take, drop, Num, int, pos, Result, ok, err, ◌>>=◌,
}

abbrev pub frame_header_bytes : ℕ
frame_header_bytes = 4

abbrev pub max_uint32 : ℕ
max_uint32 = 0xffffffff

-- `DEFAULT_MAX_PAYLOAD_BYTES` of src/transport/transport.ts.
abbrev pub default_max_payload_bytes : ℕ
default_max_payload_bytes = 1024 * 1024

pub data FrameCodecErrorCode : Type 0 where
  invalid_max_payload invalid_payload invalid_chunk oversized_frame truncated_frame trailing_data :
      FrameCodecErrorCode

pub record FrameCodecError : Type 0 where
  pub code : FrameCodecErrorCode
  pub declared_length : Option ℕ
  pub max_payload_bytes : Option ℕ
  pub received_bytes : Option ℕ

-- An error with no details.
abbrev pub plain_error : FrameCodecErrorCode → FrameCodecError
plain_error c = record {
  code = c;
  declared_length = none;
  max_payload_bytes = none;
  received_bytes = none;
}

-- `FrameCodecOptions | number | undefined`
pub data CodecOptions : Type 0 where
  absent : CodecOptions
  number : Num → CodecOptions
  object : Option Num → CodecOptions

-- An argument that may be no `Uint8Array`.
pub data Input : Type 0 where
  bytes : List ℕ → Input
  not_bytes : Input

abbrev configured : CodecOptions → Num
configured absent = int (pos default_max_payload_bytes)
configured (number n) = n
configured (object none) = int (pos default_max_payload_bytes)
configured (object (some n)) = n

abbrev max_safe_integer : ℕ
max_safe_integer = 2 ^ 53 - 1

checked_max : Num → Result FrameCodecError ℕ
checked_max (int (pos n)) =
    if not (leb n max_safe_integer) || ltb max_uint32 n
    then err (plain_error invalid_max_payload)
    else ok n
checked_max _ = err (plain_error invalid_max_payload)

pub normalize_max_payload_bytes : CodecOptions → Result FrameCodecError ℕ
unfolding checked_max
normalize_max_payload_bytes options = checked_max (configured options)

abbrev pub as_bytes : Input → FrameCodecErrorCode → Result FrameCodecError (List ℕ)
as_bytes (bytes bs) code = ok bs
as_bytes not_bytes code = err (plain_error code)

-- `writeUInt32BE`
pub write_uint32_be : ℕ → List ℕ
write_uint32_be n = n / 2 ^ 24 % 256 ∷ n / 2 ^ 16 % 256 ∷ n / 2 ^ 8 % 256 ∷ n % 256 ∷ []

-- `readUInt32BE`
pub read_uint32_be : List ℕ → ℕ
read_uint32_be (a ∷ b ∷ c ∷ d ∷ _) = a * 2 ^ 24 + b * 2 ^ 16 + c * 2 ^ 8 + d
read_uint32_be _ = 0

abbrev pub oversized_error : ℕ → ℕ → FrameCodecError
oversized_error declared m = record {
  code = oversized_frame;
  declared_length = some declared;
  max_payload_bytes = some m;
  received_bytes = none;
}

encode_bytes : List ℕ → ℕ → Result FrameCodecError (List ℕ)
encode_bytes payload m =
    if ltb m (length payload)
    then err (oversized_error (length payload) m)
    else ok (write_uint32_be (length payload) ++ payload)

pub encode_frame : Input → CodecOptions → Result FrameCodecError (List ℕ)
unfolding encode_bytes
encode_frame input options = do
  payload ← as_bytes input invalid_payload
  m ← normalize_max_payload_bytes options
  encode_bytes payload m

pub record FrameDecoder : Type 0 where
  pub max_payload_bytes : ℕ
  pub header : List ℕ
  pub body : Option (List ℕ)
  pub declared_length : Option ℕ
  pub completed_payload : Option (List ℕ)
  pub failure : Option FrameCodecError

-- The constructor, after its check of the maximum.
abbrev pub new_decoder : ℕ → FrameDecoder
new_decoder m = record {
  max_payload_bytes = m;
  header = [];
  body = none;
  declared_length = none;
  completed_payload = none;
  failure = none;
}

pub create_decoder : CodecOptions → Result FrameCodecError FrameDecoder
create_decoder options = do m ← normalize_max_payload_bytes options; ok (new_decoder m)

abbrev body_bytes : Option (List ℕ) → ℕ
body_bytes none = 0
body_bytes (some b) = length b

abbrev pub received : FrameDecoder → ℕ
received d = length d.header + body_bytes d.body

-- The new state of the decoder, with what the call returns or throws.
abbrev pub Outcome : Type 0
Outcome = FrameDecoder × Result FrameCodecError (Option (List ℕ))

abbrev pub fail : FrameDecoder → FrameCodecError → Outcome
fail d e = (record d { failure = some e }, err e)

abbrev pub trailing_error : FrameDecoder → FrameCodecError
trailing_error d = record {
  code = trailing_data;
  declared_length = none;
  max_payload_bytes = none;
  received_bytes = some (received d);
}

-- `completedPayload` is set; bytes left in the chunk are refused.
complete : FrameDecoder → List ℕ → List ℕ → Outcome
complete d payload rest =
    let d' = record d { completed_payload = some payload } in
    if ltb 0 (length rest) then fail d' (trailing_error d') else (d', ok (some payload))

-- One round of the `while` loop: it leaves `push`, or goes on with the rest of the chunk.
pub data Round : Type 0 where
  leave : Outcome → Round
  continue : FrameDecoder → List ℕ → Round

pub copy_body : FrameDecoder → List ℕ → ℕ → List ℕ → Round
copy_body d body declared rest =
    let count = min (declared - length body) (length rest) in
    let body' = body ++ take count rest in
    let d' = record d { body = some body' } in
    if length body' == declared
    then leave (complete d' body' (drop count rest))
    else continue d' (drop count rest)

read_body : FrameDecoder → Option (List ℕ) → Option ℕ → List ℕ → Round
read_body d (some body) (some declared) rest = copy_body d body declared rest
read_body d _ _ rest = leave (fail d (plain_error truncated_frame))

-- The four header bytes are there.
pub open_body : FrameDecoder → List ℕ → Round
open_body d rest =
    let declared = read_uint32_be d.header in
    let d' = record d { declared_length = some declared } in
    if ltb d.max_payload_bytes declared
    then leave (fail d' (oversized_error declared d.max_payload_bytes))
    else (let d'' = record d' { body = some [] } in
        if declared == 0
        then leave (complete d'' [] rest)
        else read_body d'' (some []) (some declared) rest)

pub round : FrameDecoder → List ℕ → Round
round d rest =
    if ltb (length d.header) frame_header_bytes
    then (let count = min (frame_header_bytes - length d.header) (length rest) in
        let d' = record d { header = d.header ++ take count rest } in
        if ltb (length d'.header) frame_header_bytes
        then leave (d', ok none)
        else open_body d' (drop count rest))
    else read_body d d.body d.declared_length rest

-- The `while` loop. Each round but the last takes a byte, so as many rounds as bytes suffice.
pub push_loop : ℕ → FrameDecoder → List ℕ → Outcome
push_loop fuel d [] = (d, ok none)
push_loop zero d (b ∷ rest) = (d, ok none)
push_loop (suc fuel) d (b ∷ rest) = elim (round d (b ∷ rest)) [
  | leave r ↦ r
  | continue d' rest' ↦ push_loop fuel d' rest'
]

push_bytes : FrameDecoder → Option (List ℕ) → List ℕ → Outcome
push_bytes d (some payload) chunk =
    if not (length chunk == 0) then fail d (trailing_error d) else (d, ok none)
push_bytes d none chunk = push_loop (length chunk) d chunk

push_open : FrameDecoder → Option FrameCodecError → Input → Outcome
unfolding push_bytes
push_open d (some e) chunk = (d, err e)
push_open d none (bytes chunk) = push_bytes d d.completed_payload chunk
push_open d none not_bytes = (d, err (plain_error invalid_chunk))

pub push : FrameDecoder → Input → Outcome
unfolding push_open
push d chunk = push_open d d.failure chunk

finish_open :
    FrameDecoder
    → Option FrameCodecError
    → Option (List ℕ)
    → FrameDecoder × Result FrameCodecError (List ℕ)
finish_open d (some e) completed = (d, err e)
finish_open d none (some payload) = (d, ok payload)
finish_open d none none =
    let e : FrameCodecError = record {
      code = truncated_frame;
      declared_length = none;
      max_payload_bytes = none;
      received_bytes = some (received d);
    } in
    (record d { failure = some e }, err e)

pub finish : FrameDecoder → FrameDecoder × Result FrameCodecError (List ℕ)
unfolding finish_open
finish d = finish_open d d.failure d.completed_payload

pub finish_after : Outcome → Result FrameCodecError (List ℕ)
finish_after (d, err e) = err e
finish_after (d, ok _) = (finish d).1

pub decode_frame : Input → CodecOptions → Result FrameCodecError (List ℕ)
unfolding finish_after push finish
decode_frame encoded options = do
  decoder ← create_decoder options
  finish_after (push decoder encoded)
