-- ===== src/Fmu/Trace/Lines.antt =====
-- What a sequence of CAN messages adds to the log of the FMU.
use dse_fmi.Common.{
  ℕ, ◌+◌, ◌≡◌, refl, sym, ◌∙◌, ap, subst, Bool, true, false, ◌&&◌, Option, some, List, [], ◌∷◌,
  ◌++◌, length, All, append_assoc, append-nil, Bytes, codes, HashMap, hashmap_get, if◌then◌else◌,
  Returns, Returns-bind, Returns-map, ◌>>=◌, arith,
}
use dse_fmi.Fmu.Instance.{FmuInstanceData, LogMessage, log_passes}
use dse_fmi.Fmu.Trace.{TraceApi, TraceKind, NCodecInstance, CanMessage, Direction, trace_can_log}
use dse_fmi.Fmu.Trace.Configure.{trace_kind, env_name, trace_configure}
use dse_fmi.Fmu.Trace.Filter.{
  FitsUint32, lined, wanted, Logs, CanLogged, trace_configure-Logs, trace_can_log-Logs,
}

abbrev pub count_passing : (ℕ → Bool) → List (CanMessage × Direction) → ℕ
count_passing passes [] = 0
count_passing passes ((msg, direction) ∷ rest) =
    (if passes msg.frame_id then 1 else 0) + count_passing passes rest

abbrev IsDebug : LogMessage → Type 0
IsDebug m = m.category ≡ codes "Debug"

-- So many lines of the category Debug are added, if c says that it is logged at all.
abbrev pub Adds : Bool → ℕ → FmuInstanceData → FmuInstanceData → Type 0
Adds c n fmu after =
    (lines : List LogMessage) × (after ≡ record fmu { logged = fmu.logged ++ lines })
    × All (λ m. m.category ≡ codes "Debug") lines
    × (length lines ≡ (if c then n else 0))

Adds-more :
    (fmu after : FmuInstanceData) (m : LogMessage) (n : ℕ) (b c : Bool)
    → IsDebug m
    → Adds c n (lined fmu (b && c) m) after
    → Adds c ((if b then 1 else 0) + n) fmu after
Adds-more fmu after m n true true k (lines, same, debug, count) = (
  m ∷ lines,
  same ∙ ap (λ l. record fmu { logged = l }) (append_assoc fmu.logged (m ∷ []) lines),
  (k, debug),
  omega (arith, count),
)
Adds-more fmu after m n true false k (lines, same, debug, count) = (lines, same, debug, count)
Adds-more fmu after m n false true k (lines, same, debug, count) =
    (lines, same, debug, omega (arith, count))
Adds-more fmu after m n false false k (lines, same, debug, count) = (lines, same, debug, count)

log_passes-lined :
    (fmu : FmuInstanceData) (b : Bool) (m : LogMessage)
    → log_passes (lined fmu b m) (some (codes "Debug")) ≡ log_passes fmu (some (codes "Debug"))
unfolding log_passes
log_passes-lined fmu true m = refl
log_passes-lined fmu false m = refl

module _ (api : TraceApi) where
  -- The codec reads and writes messages, one after the other.
  unfoldable pub log_all :
      NCodecInstance
      → FmuInstanceData
      → List (CanMessage × Direction)
      → Option (NCodecInstance × FmuInstanceData)
  unfolding trace_can_log
  log_all nc fmu [] = some (nc, fmu)
  log_all nc fmu ((msg, direction) ∷ rest) = do
    (codec, after) ← trace_can_log api nc fmu msg direction
    log_all codec after rest

  log_all-Adds :
      (msgs : List (CanMessage × Direction)) (nc : NCodecInstance) (fmu : FmuInstanceData)
      (passes : ℕ → Bool) (c : Bool)
      → All (λ m. FitsUint32 m.0) msgs
      → log_passes fmu (some (codes "Debug")) ≡ c
      → Logs api nc TraceKind.can passes
      → Returns (log_all nc fmu msgs) (λ r. Adds c (count_passing passes msgs) fmu r.1)
  unfolding log_all
  log_all-Adds [] nc fmu passes c h e l =
      ([], ap (λ x. record fmu { logged = x }) (sym (append-nil fmu.logged)), tt, none_of c)
    where
      none_of : (b : Bool) → length {A = LogMessage} [] ≡ (if b then 0 else 0)
      none_of true = refl
      none_of false = refl
  log_all-Adds ((msg, direction) ∷ rest) nc fmu passes c h e l =
      Returns-bind (trace_can_log api nc fmu msg direction) _ (CanLogged api passes fmu msg)
        (λ r. Adds c (count_passing passes ((msg, direction) ∷ rest)) fmu r.1)
        (trace_can_log-Logs api nc fmu msg direction passes h.0 l)
        (λ r (m, debug, same, logs).
          let b = passes msg.frame_id in
          let next : r.1 ≡ lined fmu (b && c) m = same ∙ ap (λ d. lined fmu (b && d) m) e in
          Returns-map (log_all r.0 r.1 rest) (λ q. Adds c (count_passing passes rest) r.1 q.1) _
            (log_all-Adds rest r.0 r.1 passes c h.1
              (ap (λ g. log_passes g (some (codes "Debug"))) next
                ∙ log_passes-lined fmu (b && c) m
                ∙ e)
              logs)
            (λ q adds.
              Adds-more fmu q.1 m (count_passing passes rest) b c debug
                (subst (λ g. Adds c (count_passing passes rest) g q.1) next adds)))

  -- After trace_configure of a codec for frames, with a filter in the environment, the log functions
  -- find their trace data; and of a sequence of CAN messages read or written, each with an identifier
  -- and a length below 2^32, the log functions return, and those messages add a line of the
  -- category Debug to the log of the FMU that the filter names (by "*" or by a number that as a
  -- uint32 is the message's identifier), one each if the FMU logs Debug; nothing else changes there.
  pub trace_can_log-wanted :
      (env : HashMap Bytes) (nc : NCodecInstance) (fmu g : FmuInstanceData) (filter : Bytes)
      (msgs : List (CanMessage × Direction))
      → trace_kind nc ≡ some TraceKind.can
      → hashmap_get env (env_name api nc TraceKind.can) ≡ some filter
      → All (λ m. FitsUint32 m.0) msgs
      → Returns (log_all (trace_configure api env nc fmu).0 g msgs) (λ r.
        Adds (log_passes g (some (codes "Debug"))) (count_passing (wanted api filter) msgs) g r.1)
  trace_can_log-wanted env nc fmu g filter msgs k e h =
      log_all-Adds msgs (trace_configure api env nc fmu).0 g (wanted api filter)
        (log_passes g (some (codes "Debug"))) h refl
        (trace_configure-Logs api env nc fmu TraceKind.can filter k e)
