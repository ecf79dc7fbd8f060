-- ===== src/Fmu/Stream/Refine.antt =====
-- The stream does what the file does, call by call, as long as lengths stay below 2^32.
use Prim.Native.Nat.{min}
use mathlib.Core.Path.{subst}
use dse_fmi.Common.{
  ℕ, ◌+◌, ◌%◌, ◌^◌, ◌≤◌, ◌≡◌, refl, sym, ◌∙◌, ap, Bool, true, false, Option, none, some, List, [],
  ◌∷◌, ◌++◌, length, take, Bytes, ltb, if◌then◌else◌, length-take, length-append, take-take, arith,
}
use dse_fmi.Fmu.Stream.{
  BinarySignal, bytes_of, content, Appendable, BufferApi, Stream, SeekOp, Out, StreamOp, stream_op,
  stream_run,
}
use dse_fmi.Fmu.Stream.File.{File, file, file_op, file_run}
use dse_fmi.Fmu.Stream.Reads.{
  written, OffsetsFit, Fits, length-content, clip, clip-eq, read_from-ReadYields, written-cons,
  OffsetsFit-cons,
}

module _ (a : BufferApi) where
  -- A call on the stream does what the call on its file does.
  record Refines (more : ℕ) (op : StreamOp) (s : Option Stream) : Type 0 where
    out : (stream_op a op s).0 ≡ (file_op op (file s)).0
    state : file (stream_op a op s).1 ≡ (file_op op (file s)).1
    fits : Fits more (stream_op a op s).1

  move-Refines :
      (more p : ℕ) (op : StreamOp) (s : Stream)
      → Fits more (some s)
      → stream_op a op (some s) ≡ (Out.number p, some (record s { pos = p }))
      → file_op op (file (some s))
        ≡ (Out.number p, some (record { bytes = content s.signal; at = p }))
      → p ≤ s.signal.length
      → Refines more op (some s)
  move-Refines more p op s f e e' h = record {
    out = rw (e, e');
    state = rw (e, e');
    fits = rw e (record { at_most = h; buffer = f.0.buffer }, f.1);
  }

  write-Refines :
      (more : ℕ) (d : Bytes) (s : Stream)
      → Fits (length d + more) (some s)
      → Refines more (StreamOp.write d) (some s)
  unfolding stream_op file_op
  write-Refines more d s f =
      let kept : (if ltb s.signal.length s.pos then s.signal.length else s.pos) ≡ s.pos =
        clip-eq s.pos s.signal.length f.0.at_most in
      let cut : BinarySignal = record s.signal { length = s.pos } in
      let inside : Appendable cut d = omega (arith, f.0.buffer, f.0.at_most, f.1) in
      let added = a.append_length cut d inside in
      let end : (s.pos + length d) % 2 ^ 32 ≡ s.pos + length d = omega (arith, f.0.at_most, f.1) in
      let bytes : content (a.buffer_append cut d) ≡ take s.pos (content s.signal) ++ d =
        a.append_content cut d inside
        ∙ ap (λ (l : Bytes). l ++ d)
            (sym (take-take s.pos s.signal.length (bytes_of s.signal.binary) f.0.at_most)) in
      let size : s.pos + length d ≡ length (take s.pos (content s.signal) ++ d) = omega (
        arith,
        length-append (take s.pos (content s.signal)) d,
        length-take s.pos (content s.signal),
        length-content s.signal f.0.buffer,
        f.0.at_most,
      ) in
      record {
        out = refl;
        state = rw (kept, end) (λ i. some (record { bytes = bytes i; at = size i }));
        fits =
            rw (kept, end)
              (
                record { at_most = omega (arith, added); buffer = a.append_IsBuffer cut d inside },
                omega (arith, added, f.0.at_most, f.1),
              );
      }

  read-Refines :
      (more : ℕ) (u : Bool) (s : Stream)
      → Fits more (some s)
      → Refines more (StreamOp.read true u) (some s)
  unfolding stream_op file_op
  read-Refines more u s f =
      let r = read_from-ReadYields u s s.signal.binary refl f.0 in
      record {
        out = r.out;
        state = ap (λ (g : File). some g) (rw (length-content s.signal f.0.buffer) r.state);
        fits = (record { at_most = r.at_most; buffer = rw r.signal f.0.buffer }, rw r.signal f.1);
      }

  op-Refines :
      (more : ℕ) (op : StreamOp) (s : Option Stream)
      → Fits (written (op ∷ []) + more) s
      → OffsetsFit (op ∷ [])
      → Refines more op s
  unfolding stream_op file_op
  op-Refines more (StreamOp.read b u) none f o = record { out = refl; state = refl; fits = tt }
  op-Refines more (StreamOp.write d) none f o = record { out = refl; state = refl; fits = tt }
  op-Refines more (StreamOp.seek p op) none f o = record { out = refl; state = refl; fits = tt }
  op-Refines more StreamOp.tell none f o = record { out = refl; state = refl; fits = tt }
  op-Refines more StreamOp.eof none f o = record { out = refl; state = refl; fits = tt }
  op-Refines more StreamOp.close none f o = record { out = refl; state = refl; fits = tt }
  op-Refines more StreamOp.close (some s) f o = record { out = refl; state = refl; fits = tt }
  op-Refines more StreamOp.tell (some s) f o = record {
    out = refl;
    state = refl;
    fits = (f.0, omega (arith, f.1));
  }
  op-Refines more StreamOp.eof (some s) f o = record {
    out = rw (length-content s.signal f.0.buffer);
    state = refl;
    fits = (f.0, omega (arith, f.1));
  }
  op-Refines more (StreamOp.read false u) (some s) f o = record {
    out = refl;
    state = refl;
    fits = (f.0, omega (arith, f.1));
  }
  op-Refines more (StreamOp.read true u) (some s) f o =
      read-Refines more u s (f.0, omega (arith, f.1))
  op-Refines more (StreamOp.write d) (some s) f o = write-Refines more d s (f.0, omega (arith, f.1))
  op-Refines more (StreamOp.seek p SeekOp.seek_set) (some s) f o =
      move-Refines more (min p s.signal.length) (StreamOp.seek p SeekOp.seek_set) s
        (f.0, omega (arith, f.1)) (rw (clip p s.signal.length))
        (rw (length-content s.signal f.0.buffer)) (omega arith)
  op-Refines more (StreamOp.seek p SeekOp.seek_cur) (some s) f o =
      let sum : (s.pos + p) % 2 ^ 64 ≡ s.pos + p = omega (arith, f.0.at_most, f.1, o.0) in
      move-Refines more (min (s.pos + p) s.signal.length) (StreamOp.seek p SeekOp.seek_cur) s
        (f.0, omega (arith, f.1)) (rw (sum, clip (s.pos + p) s.signal.length))
        (rw (length-content s.signal f.0.buffer)) (omega arith)
  op-Refines more (StreamOp.seek p SeekOp.seek_end) (some s) f o =
      move-Refines more s.signal.length (StreamOp.seek p SeekOp.seek_end) s
        (f.0, omega (arith, f.1)) refl (rw (length-content s.signal f.0.buffer)) (omega arith)
  op-Refines more (StreamOp.seek p SeekOp.seek_reset) (some s) f o = record {
    out = refl;
    state = refl;
    fits = (record { at_most = omega arith; buffer = omega arith }, omega (arith, f.1));
  }
  op-Refines more (StreamOp.seek p SeekOp.seek_other) (some s) f o = record {
    out = refl;
    state = refl;
    fits = (f.0, omega (arith, f.1));
  }

  -- A sequence of calls on a sound stream, whose writes keep the length below 2^32 and whose seeks
  -- have offsets below 2^63, gives the results that the same calls have on the file of the stream,
  -- leaves the file that they leave, and leaves a sound stream: a read takes what lies behind the
  -- position, a write replaces it, and a seek moves the position, at most to the end.
  pub stream_run-file_run :
      (ops : List StreamOp) (s : Option Stream)
      → Fits (written ops) s
      → OffsetsFit ops
      → ((stream_run a ops s).0 ≡ (file_run ops (file s)).0)
        × (file (stream_run a ops s).1 ≡ (file_run ops (file s)).1)
        × Fits 0 (stream_run a ops s).1
  unfolding stream_run file_run
  stream_run-file_run [] s f o = (refl, refl, f)
  stream_run-file_run (op ∷ ops) s f o =
      let (first, later) = OffsetsFit-cons op ops o in
      let r = op-Refines (written ops) op s (subst (λ n. Fits n s) (written-cons op ops) f) first in
      let ih = stream_run-file_run ops (stream_op a op s).1 r.fits later in
      (cc (r.out, r.state, ih.0), cc (r.state, ih.1), ih.2)
