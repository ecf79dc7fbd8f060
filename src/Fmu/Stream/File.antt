-- ===== src/Fmu/Stream/File.antt =====
-- A file: a sequence of bytes and a position in it, without buffers and lengths.
use Prim.Native.Nat.{min}
use dse_fmi.Common.{
  ℕ, ◌+◌, true, false, Option, none, some, List, [], ◌∷◌, ◌++◌, length, take, drop, Bytes, ltb,
  if◌then◌else◌,
}
use dse_fmi.Fmu.Stream.{content, Stream, SeekOp, Out, StreamOp}

pub record File : Type 0 where
  pub bytes : Bytes
  pub at : ℕ

-- The file that a stream stands for.
abbrev pub file_of : Stream → File
file_of s = record { bytes = content s.signal; at = s.pos }

abbrev pub file : Option Stream → Option File
file none = none
file (some s) = some (file_of s)

unfoldable pub file_seek : ℕ → SeekOp → File → Out × File
file_seek p SeekOp.seek_set f =
    let q = min p (length f.bytes) in (Out.number q, record f { at = q })
file_seek p SeekOp.seek_cur f =
    let q = min (f.at + p) (length f.bytes) in (Out.number q, record f { at = q })
file_seek p SeekOp.seek_end f = (Out.number (length f.bytes), record f { at = length f.bytes })
file_seek p SeekOp.seek_reset f = (Out.number 0, record { bytes = []; at = 0 })
file_seek p SeekOp.seek_other f = (Out.einval, f)

-- A read takes what lies behind the position; a write replaces it.
unfoldable pub file_op : StreamOp → Option File → Out × Option File
unfolding file_seek
file_op (StreamOp.read b u) none = (Out.enostr, none)
file_op (StreamOp.write d) none = (Out.enostr, none)
file_op (StreamOp.seek p op) none = (Out.enostr, none)
file_op StreamOp.tell none = (Out.enostr, none)
file_op StreamOp.eof none = (Out.number 1, none)
file_op StreamOp.close f = (Out.number 0, none)
file_op (StreamOp.read false u) (some f) = (Out.einval, some f)
file_op (StreamOp.read true u) (some f) =
    (Out.slice (drop f.at f.bytes), some (if u then record f { at = length f.bytes } else f))
file_op (StreamOp.write d) (some f) =
    let bytes = take f.at f.bytes ++ d in
    (Out.number (length d), some (record { bytes = bytes; at = length bytes }))
file_op (StreamOp.seek p op) (some f) = let (o, g) = file_seek p op f in (o, some g)
file_op StreamOp.tell (some f) = (Out.number f.at, some f)
file_op StreamOp.eof (some f) = (Out.number (if ltb f.at (length f.bytes) then 0 else 1), some f)

unfoldable pub file_run : List StreamOp → Option File → List Out × Option File
unfolding file_op
file_run [] f = ([], f)
file_run (op ∷ ops) f = let (o, g) = file_op op f in let (os, h) = file_run ops g in (o ∷ os, h)
