-- ===== src/Engine/Choice.antt =====
-- node_agent/engine.py: `create_engine`. What is installed or running, and `str.lower`, are
-- parameters.
use fleet_lm.Base.{String, Bool, not, some, if◌then◌else◌, same_text, non_empty, concat}
use fleet_lm.Engine.{Attempt, raises, gives}

pub data EngineKind : Type 0 where
  ollama mlx llama_cpp mock : EngineKind

-- What the machine offers.
pub record Machine : Type 0 where
  pub ollama_is_running : Bool
  pub has_mlx : Bool
  pub has_llama_cpp : Bool

unfoldable pub detect : Machine → EngineKind
detect m =
    if m.ollama_is_running
    then ollama
    else if m.has_mlx
    then mlx
    else if m.has_llama_cpp
    then llama_cpp
    else mock

is : String → String → Bool
is kind name = same_text (some kind) (some name)

unfoldable pub choose : Machine → String → Attempt EngineKind
unfolding is
choose m kind =
    if is kind "ollama"
    then gives ollama
    else if is kind "mlx"
    then gives mlx
    else if is kind "llama_cpp"
    then gives llama_cpp
    else if is kind "mock"
    then gives mock
    else if not (is kind "auto")
    then raises (concat "Unknown engine '" (concat kind "' (use auto|ollama|mlx|llama_cpp|mock)"))
    else gives (detect m)

unfoldable pub create_engine : (String → String) → Machine → String → Attempt EngineKind
create_engine lower m kind = choose m (lower (if non_empty kind then kind else "auto"))
