-- ===== src/CommandLine/Machine.antt =====
-- node_agent/cli.py: `cmd_doctor`, `cmd_up` with `_run_up`, `cmd_join` and the options of `main`.
-- What the machine and the environment offer is an argument; a sum says what the user is told.
use fleet_lm.Base.{
  ℕ, zero, suc, ◌-◌, ◌*◌, String, Bool, true, false, not, Option, none, some, List, [], ◌∷◌, ◌++◌,
  leb, if◌then◌else◌, or_else, or_text,
}
use fleet_lm.Engine.{Attempt, raises, gives}
use fleet_lm.Engine.Choice.{EngineKind, ollama, mlx, llama_cpp}

abbrev pub default_model : String
default_model = "mlx-community/Llama-3.2-1B-Instruct-4bit"

-- What `cmd_doctor` finds: the models that Ollama has pulled, where it answers.
pub record Found : Type 0 where
  pub ram : ℕ
  pub ollama_models : Attempt (List String)
  pub has_mlx : Bool
  pub has_llama_cpp : Bool

pub data Advice : Type 0 where
  pull_a_model install_an_engine : Advice
  large_model medium_model small_model tight_memory : Advice

ollama_engines : Attempt (List String) → List EngineKind
ollama_engines (raises message) = []
ollama_engines (gives models) = ollama ∷ []

unfoldable pub engines_of : Found → List EngineKind
unfolding ollama_engines
engines_of f =
    ollama_engines f.ollama_models
    ++ (if f.has_mlx then mlx ∷ [] else [])
    ++ (if f.has_llama_cpp then llama_cpp ∷ [] else [])

gigabyte : ℕ
gigabyte = 1_073_741_824

-- The suggestion for the memory that is left over the system's.
unfoldable pub suggest : ℕ → Advice
unfolding gigabyte
suggest ram =
    let usable = ram - 6 * gigabyte in
    if leb (18 * gigabyte) usable
    then large_model
    else if leb (6 * gigabyte) usable
    then medium_model
    else if leb (2 * gigabyte) usable
    then small_model
    else tight_memory

-- Whether Ollama answers and has no model.
nothing_pulled : Attempt (List String) → Bool
nothing_pulled (gives []) = true
nothing_pulled _ = false

unfoldable pub advise : List EngineKind → Bool → ℕ → ℕ × Advice
advise [] unpulled ram = (1, install_an_engine)
advise (ollama ∷ []) unpulled ram = if unpulled then (1, pull_a_model) else (0, suggest ram)
advise (e ∷ es) unpulled ram = (0, suggest ram)

-- The exit code and the last advice.
unfoldable pub cmd_doctor : Found → ℕ × Advice
unfolding nothing_pulled
cmd_doctor f = advise (engines_of f) (nothing_pulled f.ollama_models) f.ram

default_for : EngineKind → String
default_for ollama = "llama3.2"
default_for _ = default_model

-- `args.model or os.environ.get("NODE_MODEL")`, and the engine's default where that is `None`.
model_from : Option String → EngineKind → String
unfolding default_for
model_from none engine = default_for engine
model_from (some model) engine = model

unfoldable pub model_to_serve : Option String → Option String → EngineKind → String
unfolding model_from
model_to_serve asked env engine = model_from (or_else asked env) engine

-- `args.model or os.environ.get("NODE_MODEL", DEFAULT_MODEL)`
env_or : String → Option String → String
env_or default none = default
env_or default (some t) = t

unfoldable pub model_to_join : Option String → Option String → String
unfolding env_or
model_to_join asked env = or_text asked (env_or default_model env)

-- `args.token or os.environ.get("FLEETLM_JOIN_TOKEN", "")`
unfoldable pub token_to_send : Option String → Option String → String
unfolding env_or
token_to_send asked env = or_text asked (env_or "" env)

-- One look at the fleet while the node loads its model.
pub data Look : Type 0 where
  node_stopped : Look
  health : (ready_nodes : ℕ) → Look
  no_answer : Look

pub data Startup : Type 0 where
  stopped ready loading : Startup

-- The loop of at most so many looks.
unfoldable pub await_ready : ℕ → List Look → Startup
await_ready zero looks = loading
await_ready (suc n) [] = loading
await_ready (suc n) (node_stopped ∷ looks) = stopped
await_ready (suc n) (health ready_nodes ∷ looks) =
    let rest = await_ready n looks in if leb 1 ready_nodes then ready else rest
await_ready (suc n) (no_answer ∷ looks) = await_ready n looks

-- What `cmd_up` meets. `stopped_after` is the look at the node behind the loop.
pub record Launch : Type 0 where
  pub port_is_free : Bool
  pub server_started : Bool
  pub no_node : Bool
  pub looks : List Look
  pub stopped_after : Bool

pub data Up : Type 0 where
  port_in_use startup_failed node_failed : Up
  serving : (status : Option Startup) → Up

node_up : Startup → Bool → Up
node_up status true = node_failed
node_up stopped false = node_failed
node_up ready false = serving (some ready)
node_up loading false = serving (some loading)

unfoldable pub cmd_up : Launch → Up
unfolding node_up
cmd_up l =
    if not l.port_is_free
    then port_in_use
    else if not l.server_started
    then startup_failed
    else if l.no_node
    then serving none
    else node_up (await_ready 1200 l.looks) l.stopped_after

-- The exit code, once the server has been stopped where it serves.
unfoldable pub up_code : Up → ℕ
up_code port_in_use = 1
up_code startup_failed = 1
up_code node_failed = 1
up_code (serving status) = 0

-- The environment that the defaults of the options read.
pub record Environment : Type 0 where
  pub engine : Option String
  pub batch_size : Option ℕ
  pub url : Option String

pub record UpOptions : Type 0 where
  pub port : ℕ
  pub host : String
  pub model : Option String
  pub token : Option String
  pub engine : String
  pub batch_size : ℕ
  pub no_node : Bool

number_or : ℕ → Option ℕ → ℕ
number_or default none = default
number_or default (some n) = n

unfoldable pub up_defaults : Environment → UpOptions
unfolding env_or number_or
up_defaults env = record {
  port = 8080;
  host = "0.0.0.0";
  model = none;
  token = none;
  engine = env_or "auto" env.engine;
  batch_size = number_or 4 env.batch_size;
  no_node = false;
}

-- Times are microseconds and temperatures millionths.
pub record BatchOptions : Type 0 where
  pub output : String
  pub url : String
  pub model : Option String
  pub max_tokens : ℕ
  pub temperature : ℕ
  pub poll : ℕ

unfoldable pub batch_defaults : Environment → BatchOptions
unfolding env_or
batch_defaults env = record {
  output = "results.jsonl";
  url = env_or "http://localhost:8080" env.url;
  model = none;
  max_tokens = 256;
  temperature = 700_000;
  poll = 1_000_000;
}

pub record BenchOptions : Type 0 where
  pub n : ℕ
  pub replicates : ℕ
  pub url : String
  pub model : Option String
  pub max_tokens : ℕ
  pub poll : ℕ
  pub output : Option String

unfoldable pub bench_defaults : Environment → BenchOptions
unfolding env_or
bench_defaults env = record {
  n = 500;
  replicates = 3;
  url = env_or "http://localhost:8080" env.url;
  model = none;
  max_tokens = 48;
  poll = 1_000_000;
  output = none;
}

pub record JoinOptions : Type 0 where
  pub token : Option String
  pub model : Option String
  pub engine : String
  pub batch_size : ℕ

unfoldable pub join_defaults : Environment → JoinOptions
unfolding env_or number_or
join_defaults env = record {
  token = none;
  model = none;
  engine = env_or "auto" env.engine;
  batch_size = number_or 4 env.batch_size;
}
