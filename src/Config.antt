-- ===== src/Config.antt =====
-- orchestrator/app/config.py: the settings, read from the environment.
pub mod Names
pub mod Settings
pub mod Tests
use Prim.Native.String.{String}
use sui_ctf_infrastructure.Base.{if◌then◌else◌, ℤ, pos, Option, none, some, List, [], ◌∷◌, ◌++◌}
use sui_ctf_infrastructure.Text.{Text, codes, is_empty, or_text, strip, split}
use sui_ctf_infrastructure.Python.Errors.{value_error, Result, ok, raise}
use sui_ctf_infrastructure.Text.Numbers.{int_of_text, text_of_int}

-- `os.environ`
abbrev pub Environ : Type 0
Environ = Text → Option Text

-- `os.environ.get(name, "").strip()`
unfoldable pub env_text : Environ → String → Text
env_text env name = elim (env (codes name)) [ none ↦ [] | some s ↦ strip s ]

-- `int(s or default)`, where the default of a ValueError is the same
abbrev pub parsed_or : Text → ℤ → ℤ
parsed_or [] default = default
parsed_or (c ∷ s) default = elim (int_of_text (c ∷ s)) [ none ↦ default | some n ↦ n ]

unfoldable pub env_int : Environ → String → ℤ → ℤ
env_int env name default = parsed_or (env_text env name) default

unfoldable pub env_str : Environ → String → String → Text
env_str env name default = or_text (env_text env name) (codes default)

-- `int(os.environ.get(name, "").strip() or default)`, read at import: a ValueError is raised there.
unfoldable pub limit_from_env : Environ → String → ℤ → Result ℤ
limit_from_env env name default = elim (env_text env name) [
  | [] ↦ ok default
  | c ∷ s ↦ elim (int_of_text (c ∷ s)) [
    | none ↦ raise value_error "invalid literal for int() with base 10"
    | some n ↦ ok n
  ]
]

pub record Config : Type 0 where
  pub nc_port : ℤ
  pub proxy_port : ℤ
  pub public_host : Text
  pub public_proxy_port : ℤ
  pub instance_image : Text
  pub docker_network : Text
  pub instance_name_prefix : Text
  pub instance_rpc_port : ℤ
  pub instance_mem : Text
  pub instance_nano_cpus : ℤ
  pub instance_boot_timeout : ℤ
  pub instance_dns : Text
  pub ttl_seconds : ℤ
  pub max_instances_per_ip : ℤ
  pub max_total_instances : ℤ
  pub reaper_interval : ℤ
  pub pow_difficulty_bits : ℤ
  pub pow_timeout : ℤ
  pub challenges_dir : Text
  pub active_challenge : Text
  pub db_path : Text
  pub nc_read_timeout : ℤ

-- `CONFIG = Config()`
unfoldable pub config_of : Environ → Config
config_of env = record {
  nc_port = env_int env "NC_PORT" (pos 1337);
  proxy_port = env_int env "PROXY_PORT" (pos 8080);
  public_host = env_str env "PUBLIC_HOST" "localhost";
  public_proxy_port = env_int env "PUBLIC_PROXY_PORT" (env_int env "PROXY_PORT" (pos 8080));
  instance_image = env_str env "INSTANCE_IMAGE" "sui-ctf-instance:latest";
  docker_network = env_str env "DOCKER_NETWORK" "suictf_net";
  instance_name_prefix = env_str env "INSTANCE_NAME_PREFIX" "sui-inst";
  instance_rpc_port = env_int env "INSTANCE_RPC_PORT" (pos 9000);
  instance_mem = env_str env "INSTANCE_MEM" "2g";
  instance_nano_cpus = env_int env "INSTANCE_NANO_CPUS" (pos 1_000_000_000);
  instance_boot_timeout = env_int env "INSTANCE_BOOT_TIMEOUT" (pos 360);
  instance_dns = env_str env "INSTANCE_DNS" "8.8.8.8,1.1.1.1";
  ttl_seconds = env_int env "INSTANCE_TTL_SECONDS" (pos 900);
  max_instances_per_ip = env_int env "MAX_INSTANCES_PER_IP" (pos 1);
  max_total_instances = env_int env "MAX_TOTAL_INSTANCES" (pos 20);
  reaper_interval = env_int env "REAPER_INTERVAL" (pos 15);
  pow_difficulty_bits = env_int env "POW_DIFFICULTY_BITS" (pos 20);
  pow_timeout = env_int env "POW_TIMEOUT" (pos 180);
  challenges_dir = env_str env "CHALLENGES_DIR" "/challenges";
  active_challenge = env_str env "CHALLENGE" "placeholder-flashpool";
  db_path = env_str env "DB_PATH" "/data/registry.sqlite";
  nc_read_timeout = env_int env "NC_READ_TIMEOUT" (pos 300);
}

abbrev strip_all : List Text → List Text
strip_all [] = []
strip_all (s ∷ ss) = let rest = strip_all ss in if is_empty (strip s) then rest else strip s ∷ rest

unfoldable pub dns_list : Config → List Text
dns_list cfg = strip_all (split b',' cfg.instance_dns)

-- Everything before the path of the public URL.
abbrev pub public_base : Config → Text
public_base cfg = codes "http://" ++ cfg.public_host ++ b':' ∷ text_of_int cfg.public_proxy_port

unfoldable pub rpc_url_for : Config → Text → Text
rpc_url_for cfg uuid = public_base cfg ++ b'/' ∷ uuid

unfoldable pub container_name_for : Config → Text → Text
container_name_for cfg uuid = cfg.instance_name_prefix ++ b'-' ∷ uuid
