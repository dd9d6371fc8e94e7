-- ===== src/Gitd/Frames.antt =====
-- crates/bullet-gitd/src/protocol.rs: the bounded reader of line-delimited frames. A `BufRead` is
-- the chunks that its calls of `fill_buf` will return.
pub mod Lines
pub mod Chunks
use bullet_git.Prelude.{
  ℕ, zero, suc, ◌+◌, ◌*◌, Bool, true, false, ◌&&◌, ◌||◌, not, Option, none, some, List, [], ◌∷◌,
  ◌++◌, Bytes, Text, codes, length, is_empty, ltb, leb, ◌==◌, nat_eq, if◌then◌else◌, Result, ok,
  err, checked_add,
}
use bullet_git.Types.Proposal.{max_aggregate_content_bytes}

abbrev pub frame_envelope_bytes : ℕ
frame_envelope_bytes = 1048576

abbrev pub max_frame_bytes : ℕ
max_frame_bytes = 2 * max_aggregate_content_bytes + frame_envelope_bytes

pub data FrameReadError : Type 0 where
  io too_large invalid_utf8 : FrameReadError

unfoldable pub reason_code : FrameReadError → Text
reason_code io = codes "PROTOCOL_IO_FAILED"
reason_code too_large = codes "FRAME_TOO_LARGE"
reason_code invalid_utf8 = codes "INVALID_UTF8"

-- What `fill_buf` returns: an error, or the bytes at hand; no bytes is the end of the input.
pub data Chunk : Type 0 where
  failed : Chunk
  available : Bytes → Chunk

abbrev pub Reader : Type 0
Reader = List Chunk

-- The standard library's test of UTF-8. `more` continuation bytes are due, the first of them
-- between `lo` and `hi`: the state is `(more, lo, hi)`.
-- What a leading byte lets follow; `none` for a byte that cannot lead.
unfoldable pub utf8_lead : ℕ → Option (ℕ × ℕ × ℕ)
utf8_lead b =
    if ltb b 0x80
    then some (0, 0x80, 0xbf)
    else if ltb b 0xc2
    then none
    else if ltb b 0xe0
    then some (1, 0x80, 0xbf)
    else if b == 0xe0
    then some (2, 0xa0, 0xbf)
    else if b == 0xed
    then some (2, 0x80, 0x9f)
    else if ltb b 0xf0
    then some (2, 0x80, 0xbf)
    else if b == 0xf0
    then some (3, 0x90, 0xbf)
    else if ltb b 0xf4
    then some (3, 0x80, 0xbf)
    else if b == 0xf4
    then some (3, 0x80, 0x8f)
    else none

unfoldable pub utf8_step : ℕ × ℕ × ℕ → ℕ → Option (ℕ × ℕ × ℕ)
unfolding utf8_lead
utf8_step (zero, lo, hi) b = utf8_lead b
utf8_step (suc more, lo, hi) b = if leb lo b && leb b hi then some (more, 0x80, 0xbf) else none

unfoldable pub utf8_from : Option (ℕ × ℕ × ℕ) → Bytes → Bool
unfolding utf8_step
utf8_from none bs = false
utf8_from (some (more, lo, hi)) [] = more == 0
utf8_from (some e) (b ∷ bs) = utf8_from (utf8_step e b) bs

unfoldable pub is_utf8 : Bytes → Bool
unfolding utf8_from
is_utf8 bs = utf8_from (some (0, 0x80, 0xbf)) bs

-- `available.iter().position(|byte| *byte == b'\n')`, as the bytes before the newline and, if there
-- is one, the bytes behind it.
unfoldable pub split_newline : Bytes → Bytes × Option Bytes
split_newline [] = ([], none)
split_newline (b ∷ bs) =
    let (payload, after) = split_newline bs in
    if b == 10 then ([], some bs) else (b ∷ payload, after)

unfoldable pub decode_utf8 : Bytes → Result FrameReadError (Option Text)
unfolding is_utf8
decode_utf8 bytes = if is_utf8 bytes then ok (some bytes) else err invalid_utf8

-- At the end of the input.
unfoldable pub at_end : Bytes → Result FrameReadError (Option Text)
unfolding decode_utf8
at_end bytes = if is_empty bytes then ok none else decode_utf8 bytes

-- `bytes.len().checked_add(payload_len)` and the bound.
unfoldable pub over_bound : ℕ → ℕ → Bool
over_bound have more = elim (checked_add have more) [
  | none ↦ true
  | some next_len ↦ ltb max_frame_bytes next_len
]

-- `reader.consume`: a buffer that is used up is filled again by the next `fill_buf`.
unfoldable pub consume : Bytes → Reader → Reader
consume left rest = if is_empty left then rest else available left ∷ rest

-- The loop of `read_frame`: the bytes so far and the reader; the reader that is left comes back.
unfoldable pub read_loop : Bytes → Reader → Result FrameReadError (Option Text) × Reader
unfolding split_newline at_end over_bound consume
read_loop bytes [] = (at_end bytes, [])
read_loop bytes (failed ∷ rest) = (err io, rest)
read_loop bytes (available [] ∷ rest) = (at_end bytes, rest)
read_loop bytes (available (b ∷ bs) ∷ rest) =
    let split = split_newline (b ∷ bs) in
    let more = read_loop (bytes ++ split.0) rest in
    if over_bound (length bytes) (length split.0)
    then (err too_large, available (b ∷ bs) ∷ rest)
    else elim split.1 [
      | some after ↦ (decode_utf8 (bytes ++ split.0), consume after rest)
      | none ↦ more
    ]

unfoldable pub read_frame : Reader → Result FrameReadError (Option Text) × Reader
unfolding read_loop
read_frame reader = read_loop [] reader
