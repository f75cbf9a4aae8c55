-- ===== src/NodeAgent/Hardware.antt =====
-- node_agent/__main__.py: `detect_gpu` and the settings that `main` reads. The GPUs that GPUtil
-- lists, where it is installed, and `str.lower` are parameters; memory is in bytes.
use fleet_lm.Base.{
  ℕ, ◌*◌, ◌/◌, String, code, Bool, Option, none, some, List, [], ◌∷◌, ◌==◌, if◌then◌else◌, concat,
}

pub record Gpu : Type 0 where
  pub name : String
  pub memory_mb : ℕ

-- `name.replace(" ", "-")`
unfoldable pub dashed : String → String
dashed String.[] = String.[]
dashed (String.◌∷◌ c s) =
    let rest = dashed s in if code c == 32 then String.◌∷◌ "-" rest else String.◌∷◌ c rest

first_gpu : (String → String) → Option (List Gpu) → String × ℕ
first_gpu lower none = ("cpu-only", 0)
first_gpu lower (some []) = ("cpu-only", 0)
first_gpu lower (some (gpu ∷ gpus)) = (concat "nvidia-" (dashed (lower gpu.name)), gpu.memory_mb)

unfoldable pub detect_gpu : (String → String) → Bool → ℕ → Option (List Gpu) → String × ℕ
unfolding first_gpu
detect_gpu lower is_darwin ram gpus =
    if is_darwin then ("apple-silicon", ram / 1_048_576 * 3 / 4) else first_gpu lower gpus
