-- ===== src/Transport/FrameCodec/Stream.antt =====
-- What the decoder must hold after a stream of bytes, whatever the chunks: the specification that
-- `push` of src/transport/frame-codec.ts refines.
pub mod Body
pub mod Header
pub mod Refinement
pub mod RoundTrip
pub mod Memory
use native.Mathlib.Decide.{dec_lt, ℕ_discrete}
use mathlib.Core.Logic.{◌⊎◌}
use pi_to_pi.Prelude.{
  ℕ, zero, suc, ◌+◌, ◌-◌, ◌≤◌, ◌<◌, ◌≡◌, refl, sym, ap, ◌∙◌, inl, inr, min, ltb, ◌==◌,
  if◌then◌else◌, true, false, Bool-cases, Option, none, some, List, [], ◌∷◌, ◌++◌, length, take,
  drop, length-append, length-take, length-drop, take-of_le, drop-of_le, take-append, drop-append,
  take-append_le, drop-append_le, Result, ok, err, arith, ltb→lt,
}
use pi_to_pi.Transport.FrameCodec.{
  FrameDecoder, Outcome, Round, FrameCodecError, fail, leave, continue, trailing_error,
  trailing_data, oversized_error, read_uint32_be, new_decoder, bytes, push, push_loop, round,
  read_body, copy_body, open_body, complete, push_bytes, push_open,
}

-- The header's first bytes.
abbrev pub waiting : ℕ → List ℕ → FrameDecoder
waiting m bs = record {
  max_payload_bytes = m;
  header = bs;
  body = none;
  declared_length = none;
  completed_payload = none;
  failure = none;
}

abbrev pub refused : ℕ → List ℕ → FrameDecoder
refused m h = record {
  max_payload_bytes = m;
  header = h;
  body = none;
  declared_length = some (read_uint32_be h);
  completed_payload = none;
  failure = some (oversized_error (read_uint32_be h) m);
}

abbrev pub partial : ℕ → List ℕ → List ℕ → FrameDecoder
partial m h b = record {
  max_payload_bytes = m;
  header = h;
  body = some b;
  declared_length = some (read_uint32_be h);
  completed_payload = none;
  failure = none;
}

abbrev pub completed : ℕ → List ℕ → List ℕ → FrameDecoder
completed m h b = record {
  max_payload_bytes = m;
  header = h;
  body = some b;
  declared_length = some (read_uint32_be h);
  completed_payload = some b;
  failure = none;
}

abbrev pub overrun : ℕ → List ℕ → List ℕ → FrameDecoder
overrun m h b = record {
  max_payload_bytes = m;
  header = h;
  body = some b;
  declared_length = some (read_uint32_be h);
  completed_payload = some b;
  failure = some (record {
    code = trailing_data;
    declared_length = none;
    max_payload_bytes = none;
    received_bytes = some (length h + length b);
  });
}

-- The payload bytes `p` behind a header that declares `n`.
pub in_body : ℕ → List ℕ → ℕ → List ℕ → FrameDecoder
in_body m h n p =
    if ltb (length p) n
    then partial m h p
    else if length p == n
    then completed m h p
    else overrun m h (take n p)

pub behind_header : ℕ → List ℕ → List ℕ → FrameDecoder
unfolding in_body
behind_header m h p =
    if ltb m (read_uint32_be h) then refused m h else in_body m h (read_uint32_be h) p

pub stream : ℕ → List ℕ → FrameDecoder
unfolding behind_header
stream m bs = if ltb (length bs) 4 then waiting m bs else behind_header m (take 4 bs) (drop 4 bs)
