-- ===== src/Fmu/Stream.antt =====
-- The stream interface for binary signals of dse/fmu/ncodec.c: a codec reads and writes the buffer
-- of one binary variable as a file.
pub mod File
pub mod Reads
pub mod Refine
use dse_fmi.Common.{
  ℕ, ◌+◌, ◌-◌, ◌%◌, ◌^◌, ◌≤◌, ◌<◌, ◌≡◌, Bool, true, false, Option, none, some, List, [], ◌∷◌, ◌++◌,
  length, take, drop, Bytes, ltb, leb, if◌then◌else◌,
}

-- One binary variable of a FmuSignalVector: binary[i], length[i] and buffer_size[i].
pub record BinarySignal : Type 0 where
  pub binary : Option Bytes
  pub length : ℕ
  pub buffer_size : ℕ

abbrev pub bytes_of : Option Bytes → Bytes
bytes_of none = []
bytes_of (some b) = b

-- The bytes that the variable holds: as many of the buffer as its length says.
abbrev pub content : BinarySignal → Bytes
content s = take s.length (bytes_of s.binary)

-- dse_buffer_append of dse.clib: the data is appended at the length, and the buffer is made larger
-- when it has to be. `IsBuffer` is what the callers keep: the length lies within the buffer. The
-- length is a uint32_t: nothing is said of a sum that does not fit.
abbrev pub IsBuffer : BinarySignal → Type 0
IsBuffer s = s.length ≤ length (bytes_of s.binary)

abbrev pub Appendable : BinarySignal → Bytes → Type 0
Appendable s d = IsBuffer s × (s.length + length d < 2 ^ 32)

pub record BufferApi : Type 0 where
  pub buffer_append : BinarySignal → Bytes → BinarySignal
  pub append_IsBuffer :
      (s : BinarySignal) (d : Bytes) → Appendable s d → IsBuffer (buffer_append s d)
  pub append_length :
      (s : BinarySignal) (d : Bytes)
      → Appendable s d
      → (buffer_append s d).length ≡ s.length + length d
  pub append_content :
      (s : BinarySignal) (d : Bytes) → Appendable s d → content (buffer_append s d) ≡ content s ++ d

-- struct __BinarySignalStream, with the variable that `sv` and `idx` point to.
pub record Stream : Type 0 where
  pub pos : ℕ
  pub signal : BinarySignal

-- NCODEC_SEEK_SET, NCODEC_SEEK_CUR, NCODEC_SEEK_END, NCODEC_SEEK_RESET, and any other value.
pub data SeekOp : Type 0 where
  seek_set seek_cur seek_end seek_reset seek_other : SeekOp

-- What the calls return: the slice of the buffer with its length, a number, or an error.
pub data Out : Type 0 where
  slice : Bytes → Out
  number : ℕ → Out
  enostr einval : Out

unfoldable pub stream_create : BinarySignal → Stream
stream_create s = record { pos = 0; signal = s }

-- The part of `stream_read` behind the NULL test of the buffer.
unfoldable pub read_from : Bool → Stream → Option Bytes → Out × Stream
read_from update s none = (slice [], s)
read_from update s (some buffer) = if leb s.signal.length s.pos then (slice [], s) else (
  slice (take (s.signal.length - s.pos) (drop s.pos buffer)),
  if update then record s { pos = s.signal.length } else s,
)

-- `update` is pos_op == NCODEC_POS_UPDATE.
unfoldable pub stream_read : Bool → Stream → Out × Stream
unfolding read_from
stream_read update s = read_from update s s.signal.binary

-- A position behind the end is moved to the end; what lies behind the position is cut off.
unfoldable pub stream_write : BufferApi → Bytes → Stream → Out × Stream
stream_write a d s =
    let p = (if ltb s.signal.length s.pos then s.signal.length else s.pos) in
    (
      number (length d),
      record {
        pos = (p + length d) % 2 ^ 32;
        signal = a.buffer_append (record s.signal { length = p }) d;
      },
    )

-- pos > s_len ? s_len : pos
abbrev move_to : ℕ → Stream → Out × Stream
move_to p s =
    let q = (if ltb s.signal.length p then s.signal.length else p) in
    (number q, record s { pos = q })

unfoldable pub stream_seek : ℕ → SeekOp → Stream → Out × Stream
stream_seek p seek_set s = move_to p s
stream_seek p seek_cur s = move_to ((s.pos + p) % 2 ^ 64) s
stream_seek p seek_end s = (number s.signal.length, record s { pos = s.signal.length })
stream_seek p seek_reset s = (number 0, record { pos = 0; signal = record s.signal { length = 0 } })
stream_seek p seek_other s = (einval, s)

unfoldable pub stream_tell : Stream → Out × Stream
stream_tell s = (number s.pos, s)

unfoldable pub stream_eof : Stream → Out × Stream
stream_eof s = (number (if ltb s.pos s.signal.length then 0 else 1), s)

-- The calls of the table NCodecStreamVTable. `pointers` of a read: neither `data` nor `len` is NULL.
pub data StreamOp : Type 0 where
  read : Bool → Bool → StreamOp
  write : Bytes → StreamOp
  seek : ℕ → SeekOp → StreamOp
  tell eof close : StreamOp

-- A call on an open stream.
unfoldable pub stream_call : BufferApi → StreamOp → Stream → Out × Option Stream
unfolding stream_read stream_write stream_seek stream_tell stream_eof
stream_call a (read false update) s = (einval, some s)
stream_call a (read true update) s = let (o, t) = stream_read update s in (o, some t)
stream_call a (write d) s = let (o, t) = stream_write a d s in (o, some t)
stream_call a (seek p op) s = let (o, t) = stream_seek p op s in (o, some t)
stream_call a tell s = let (o, t) = stream_tell s in (o, some t)
stream_call a eof s = let (o, t) = stream_eof s in (o, some t)
stream_call a close s = (number 0, none)

-- A call where `nc` or its stream is NULL.
unfoldable pub null_call : StreamOp → Out
null_call eof = number 1
null_call close = number 0
null_call _ = enostr

-- A call through the codec; `close` frees the stream and makes the pointer NULL.
unfoldable pub stream_op : BufferApi → StreamOp → Option Stream → Out × Option Stream
unfolding stream_call null_call
stream_op a op none = (null_call op, none)
stream_op a op (some s) = stream_call a op s

unfoldable pub stream_run : BufferApi → List StreamOp → Option Stream → List Out × Option Stream
unfolding stream_op
stream_run a [] s = ([], s)
stream_run a (op ∷ ops) s =
    let (o, t) = stream_op a op s in let (os, u) = stream_run a ops t in (o ∷ os, u)
