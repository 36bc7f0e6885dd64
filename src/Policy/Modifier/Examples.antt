-- ===== src/Policy/Modifier/Examples.antt =====
-- A compressed surface that both sides can take.
use lin_de_x.Base.{true, false}
use lin_de_x.Policy.Modifier.{ModifierSurface, qcom_modifier}

abbrev compressed : ModifierSurface
compressed = record {
  modifier = qcom_modifier;
  descriptor_valid = true;
  broker_qcom_capable = true;
  qcom_validated = true;
  gpu_repack_available = false;
}
