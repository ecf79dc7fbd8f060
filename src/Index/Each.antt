-- ===== src/Index/Each.antt =====
-- The three loops that the functions on binary signals have, in dse/fmigateway/index.c and in
-- dse/fmimodelc/runtime.c: over the instances, their binary vectors and the signals of those, with the
-- body of the innermost one as an argument.
pub mod Found
use dse_fmi.Common.{ℕ, suc, Option, some, List, [], ◌∷◌, Bytes, if◌then◌else◌, ◌>>=◌}
use dse_fmi.Fmu.Instance.{FmuInstanceData}
use dse_fmi.Index.Vectors.{SignalVector, ModelInstance}

module _
    (body : FmuInstanceData
      → ModelInstance
      → SignalVector
      → ℕ
      → Bytes
      → Option FmuInstanceData) where
  unfoldable pub each_signal :
      FmuInstanceData → ModelInstance → SignalVector → ℕ → List Bytes → Option FmuInstanceData
  each_signal fmu mi sv i [] = some fmu
  each_signal fmu mi sv i (signal ∷ rest) = do
    next ← body fmu mi sv i signal
    each_signal next mi sv (suc i) rest

  unfoldable pub each_vector :
      FmuInstanceData → ModelInstance → List SignalVector → Option FmuInstanceData
  unfolding each_signal
  each_vector fmu mi [] = some fmu
  each_vector fmu mi (sv ∷ rest) = do
    next ← if sv.is_binary then each_signal fmu mi sv 0 sv.signal else some fmu
    each_vector next mi rest

  unfoldable pub each_instance : FmuInstanceData → List ModelInstance → Option FmuInstanceData
  unfolding each_vector
  each_instance fmu [] = some fmu
  each_instance fmu (mi ∷ rest) = do next ← each_vector fmu mi mi.sv; each_instance next rest
