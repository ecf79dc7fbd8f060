-- ===== src/Fmu/Trace/Quiet.antt =====
-- Opening a codec changes nothing of the instance but its log.
use dse_fmi.Common.{
  refl, true, Option, none, some, List, [], ◌∷◌, foldl, Bytes, codes, HashMap, str_eq, hashmap_get,
  if_elim,
}
use dse_fmi.Fmu.Instance.{FmuInstanceData}
use dse_fmi.Fmu.Binary.Takes.{OnlyLog, OnlyLog-trans, fmu_log-OnlyLog}
use dse_fmi.Fmu.Trace.{TraceApi, TraceData, TraceKind, NCodecInstance, log, tokens}
use dse_fmi.Fmu.Trace.Configure.{
  trace_kind, ncodec_open, env_name, log_id, install, configure_kind, trace_configure, configured,
  fmu_ncodec_open,
}

module _ (api : TraceApi) where
  OnlyLog-refl : (fmu : FmuInstanceData) → OnlyLog fmu fmu
  unfolding OnlyLog
  OnlyLog-refl fmu = refl

  log-OnlyLog :
      (td : Option TraceData) (fmu : FmuInstanceData) (message : Bytes)
      → OnlyLog fmu (log api td fmu message)
  unfolding log
  log-OnlyLog none fmu message = OnlyLog-refl fmu
  log-OnlyLog (some td) fmu message = fmu_log-OnlyLog fmu _ _ _

  log_ids-OnlyLog :
      (td : Option TraceData) (fmu : FmuInstanceData) (ids : List Bytes)
      → OnlyLog fmu (foldl (log_id api td) fmu ids)
  log_ids-OnlyLog td fmu [] = OnlyLog-refl fmu
  log_ids-OnlyLog td fmu (id ∷ ids) =
      OnlyLog-trans fmu _ _ (if_elim (OnlyLog fmu) _ _ _ (log-OnlyLog td fmu _) (OnlyLog-refl fmu))
        (log_ids-OnlyLog td (log_id api td fmu id) ids)

  install-OnlyLog :
      (nc : NCodecInstance) (fmu : FmuInstanceData) (kind : TraceKind) (filter : Option Bytes)
      → OnlyLog fmu (install api nc fmu kind filter).1
  unfolding install
  install-OnlyLog nc fmu kind none = OnlyLog-refl fmu
  install-OnlyLog nc fmu kind (some filter) =
      if_elim (OnlyLog fmu) (str_eq filter (codes "*")) _ _ (log-OnlyLog nc.trace_data fmu _)
        (log_ids-OnlyLog nc.trace_data fmu (tokens filter))

  configure_kind-OnlyLog :
      (env : HashMap Bytes) (nc : NCodecInstance) (fmu : FmuInstanceData) (kind : Option TraceKind)
      → OnlyLog fmu (configure_kind api env nc fmu kind).1
  unfolding configure_kind
  configure_kind-OnlyLog env nc fmu none = OnlyLog-refl fmu
  configure_kind-OnlyLog env nc fmu (some kind) =
      install-OnlyLog nc fmu kind (hashmap_get env (env_name api nc kind))

  configured-OnlyLog :
      (env : HashMap Bytes) (fmu : FmuInstanceData) (o : Option NCodecInstance)
      → OnlyLog fmu (configured api env fmu o).1
  unfolding trace_configure
  configured-OnlyLog env fmu none = OnlyLog-refl fmu
  configured-OnlyLog env fmu (some nc) = configure_kind-OnlyLog env nc fmu (trace_kind nc)

  pub fmu_ncodec_open-OnlyLog :
      (create : Bytes → Option NCodecInstance) (env : HashMap Bytes) (fmu : FmuInstanceData)
      (mime_type : Option Bytes)
      → OnlyLog fmu (fmu_ncodec_open api create env fmu mime_type).1
  unfolding fmu_ncodec_open
  fmu_ncodec_open-OnlyLog create env fmu mime_type =
      configured-OnlyLog env fmu (ncodec_open create mime_type true)
