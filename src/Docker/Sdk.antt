-- ===== src/Docker/Sdk.antt =====
-- The calls that the program makes of the Docker SDK and of the event loop.
use sui_ctf_infrastructure.Base.{ℤ, ℕ, Bool, true, false, Option, List}
use sui_ctf_infrastructure.Text.{Text}
use sui_ctf_infrastructure.Python.Errors.{ExceptionKind, not_found, docker_exception, Result}
use sui_ctf_infrastructure.Python.Values.{Value}
use sui_ctf_infrastructure.Registry.{Registry}

abbrev pub Dict : Type 0
Dict = List (Text × Text)

-- The environment of a container.
abbrev pub Environment : Type 0
Environment = List (Text × Value)

pub record Container : Type 0 where
  pub id : Text
  pub name : Text
  pub labels : Dict
  pub status : Text

-- The keyword arguments of `containers.run`.
pub record RunOptions : Type 0 where
  pub image : Text
  pub name : Text
  pub detach : Bool
  pub environment : Environment
  pub network : Text
  pub mem_limit : Text
  pub nano_cpus : ℤ
  pub labels : Dict
  pub restart_policy : Dict
  pub dns : Option (List Text)
  pub cap_drop : List Text
  pub security_opt : List Text
  pub pids_limit : ℤ

-- The output of a command, by what `json.loads(output.decode())` makes of it.
pub data Output : Type 0 where
  empty_output : Output
  json_output : Value → Output
  other_output : Output

-- What the program sees of the world `W` outside it.
pub record Host (W : Type 0) : Type 0 where
  -- `time.time()`, in microseconds
  pub time : W → ℤ
  -- what passes while `asyncio.sleep` of so many seconds waits
  pub sleep : ℕ → W → W
  -- what the other tasks of the event loop do to the table during one `await`
  pub others : Registry → W → Registry
  pub uuid4 : W → Text × W
  -- `secrets.token_hex(n)`
  pub token_hex : ℕ → W → Text × W
  pub ping : W → Result (Unit {0}) × W
  pub images_get : Text → W → Result (Unit {0}) × W
  pub containers_run : RunOptions → W → Result Container × W
  pub containers_get : Text → W → Result Container × W
  pub exec_run : Container → List Text → W → Result (ℤ × Output) × W
  pub logs : Container → ℕ → W → Result Text × W
  pub remove : Container → Bool → W → Result (Unit {0}) × W
  pub containers_list : Bool → Text → W → Result (List Container) × W

-- `except NotFound`
abbrev pub is_not_found : ExceptionKind → Bool
is_not_found not_found = true
is_not_found _ = false

-- `except DockerException`: NotFound is one.
abbrev pub is_docker_error : ExceptionKind → Bool
is_docker_error not_found = true
is_docker_error docker_exception = true
is_docker_error _ = false
