-- ===== src/Fmu/Stream/Reads.antt =====
-- What a read of a stream yields, and sound streams.
use Prim.Native.Nat.{min}
use mathlib.Core.Path.{subst}
use dse_fmi.Common.{
  ℕ, ◌+◌, ◌^◌, ◌≤◌, ◌<◌, ◌≡◌, refl, sym, ap, Bool, true, false, Bool-cases, inl, inr, Option, none,
  some, List, [], ◌∷◌, length, take, drop, Bytes, ltb, leb, if◌then◌else◌, length-take, take-drop,
  drop_all, arith,
}
use dse_fmi.Fmu.Stream.{BinarySignal, bytes_of, content, read_from, IsBuffer, Stream, Out, StreamOp}
use dse_fmi.Fmu.Stream.File.{file_of}

-- The position lies in the variable's bytes, and these in its buffer.
pub record IsStream (s : Stream) : Type 0 where
  pub at_most : s.pos ≤ s.signal.length
  pub buffer : IsBuffer s.signal

-- The bytes that the writes of the calls add.
abbrev pub written : List StreamOp → ℕ
written [] = 0
written (StreamOp.write d ∷ ops) = length d + written ops
written (op ∷ ops) = written ops

-- The offsets of the seeks are below 2^63.
abbrev pub OffsetsFit : List StreamOp → Type 0
OffsetsFit [] = Unit
OffsetsFit (StreamOp.seek p op ∷ ops) = (p < 2 ^ 63) × OffsetsFit ops
OffsetsFit (op ∷ ops) = OffsetsFit ops

-- The stream is sound, and after `more` further bytes its length is still a uint32.
abbrev pub Fits : ℕ → Option Stream → Type 0
Fits more none = Unit
Fits more (some s) = IsStream s × (s.signal.length + more < 2 ^ 32)

pub length-content : (s : BinarySignal) → IsBuffer s → length (content s) ≡ s.length
length-content s h = omega (arith, length-take s.length (bytes_of s.binary))

-- The larger of two is cut to the bound.
pub clip : (p n : ℕ) → (if ltb n p then n else p) ≡ min p n
clip p n = ground arith

pub clip-eq : (p n : ℕ) → p ≤ n → (if ltb n p then n else p) ≡ p
clip-eq p n h = ground arith

-- What a read of the stream with the buffer `o` yields.
pub record ReadYields (u : Bool) (s : Stream) (o : Option Bytes) : Type 0 where
  pub out : (read_from u s o).0 ≡ Out.slice (drop s.pos (take s.signal.length (bytes_of o)))
  pub state :
      file_of (read_from u s o).1
      ≡ (if u then record { bytes = content s.signal; at = s.signal.length } else file_of s)
  pub signal : (read_from u s o).1.signal ≡ s.signal
  pub at_most : (read_from u s o).1.pos ≤ (read_from u s o).1.signal.length

at_end :
    (u : Bool) (s : Stream)
    → s.pos ≡ s.signal.length
    → file_of s
      ≡ (if u then record { bytes = content s.signal; at = s.signal.length } else file_of s)
at_end true s e = λ i. record { bytes = content s.signal; at = e i }
at_end false s e = refl

pub read_from-ReadYields :
    (u : Bool) (s : Stream) (o : Option Bytes) → s.signal.binary ≡ o → IsStream s → ReadYields u s o
unfolding read_from
read_from-ReadYields u s none e h =
    let empty : s.signal.length ≤ 0 =
      subst (λ x. s.signal.length ≤ length (bytes_of x)) e h.buffer in
    record {
      out = ap Out.slice (
          sym (
            drop_all s.pos (take s.signal.length [])
              (omega (arith, length-take {A = ℕ} s.signal.length []))));
      state = at_end u s (omega (arith, h.at_most));
      signal = refl;
      at_most = h.at_most;
    }
read_from-ReadYields u s (some b) e h = elim (Bool-cases (leb s.signal.length s.pos)) [
  | inl t ↦ record {
    out = rw t (
        ap Out.slice (
          sym (
            drop_all s.pos (take s.signal.length b)
              (ground (arith, length-take s.signal.length b)))));
    state = rw t (at_end u s (ground arith));
    signal = rw t;
    at_most = rw t h.at_most;
  }
  | inr t ↦ record {
    out = rw t (ap Out.slice (take-drop s.pos s.signal.length b));
    state = rw t (moved u);
    signal = rw t (kept u);
    at_most = rw t (bound u);
  }
]
  where
    moved :
        (v : Bool)
        → file_of (if v then record s { pos = s.signal.length } else s)
          ≡ (if v then record { bytes = content s.signal; at = s.signal.length } else file_of s)
    moved true = refl
    moved false = refl

    kept : (v : Bool) → (if v then record s { pos = s.signal.length } else s).signal ≡ s.signal
    kept true = refl
    kept false = refl

    bound :
        (v : Bool)
        → (if v then record s { pos = s.signal.length } else s).pos
          ≤ (if v then record s { pos = s.signal.length } else s).signal.length
    bound true = omega arith
    bound false = h.at_most

pub written-cons :
    (op : StreamOp) (ops : List StreamOp) → written (op ∷ ops) ≡ written (op ∷ []) + written ops
written-cons (StreamOp.write d) ops = omega arith
written-cons StreamOp.tell ops = omega arith
written-cons _ ops = omega arith

pub OffsetsFit-cons :
    (op : StreamOp) (ops : List StreamOp)
    → OffsetsFit (op ∷ ops)
    → OffsetsFit (op ∷ []) × OffsetsFit ops
OffsetsFit-cons (StreamOp.seek p op) ops h = ((h.0, tt), h.1)
OffsetsFit-cons StreamOp.tell ops h = (tt, h)
OffsetsFit-cons _ ops h = (tt, h)
