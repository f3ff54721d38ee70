-- ===== src/Docker/Manager.antt =====
-- The methods of `DockerManager`.
use sui_ctf_infrastructure.Base.{
  if◌then◌else◌, ℤ, pos, ℕ, zero, Bool, true, false, Option, none, some, List, [], ◌∷◌, map,
}
use sui_ctf_infrastructure.Text.{Text, codes, text_eq, or_text}
use sui_ctf_infrastructure.Python.Errors.{ExceptionKind, Result, ok, raised, ◌>>=◌}
use sui_ctf_infrastructure.Python.Values.{Value, null}
use sui_ctf_infrastructure.Docker.Sdk.{
  Dict, Environment, Container, RunOptions, Output, json_output, Host, is_not_found,
  is_docker_error,
}

pub record DockerManager : Type 0 where
  pub image : Text
  pub network : Text
  pub mem_limit : Text
  pub nano_cpus : ℤ
  pub rpc_port : ℤ
  pub dns : Option (List Text)

-- `dns or None`
abbrev pub dns_or_none : Option (List Text) → Option (List Text)
dns_or_none (some []) = none
dns_or_none dns = dns

-- The client comes last.
abbrev pub with_client :
    {W : Type 0} → DockerManager → Result (Unit {0}) × W → Result DockerManager × W
with_client docker (raised e, w) = (raised e, w)
with_client docker (ok _, w) = (ok docker, w)

-- `DockerManager.__init__`. `from_env` is `docker.from_env()`, which asks the daemon for its version
-- and may raise.
unfoldable pub new_manager :
    {W : Type 0}
    → (W → Result (Unit {0}) × W)
    → Text
    → Text
    → Text
    → ℤ
    → ℤ
    → Option (List Text)
    → W
    → Result DockerManager × W
new_manager from_env image network mem_limit nano_cpus rpc_port dns w =
    with_client
      (record {
        image = image;
        network = network;
        mem_limit = mem_limit;
        nano_cpus = nano_cpus;
        rpc_port = rpc_port;
        dns = dns_or_none dns;
      })
      (from_env w)

abbrev pub label_key : Text
label_key = codes "suictf"

abbrev pub label_uuid : Text
label_uuid = codes "suictf.uuid"

abbrev pub ready_path : Text
ready_path = codes "/instance/ready.json"

-- A result whose exceptions of some kinds are replaced.
abbrev pub recover {ℓ} : {A : Type ℓ} → (ExceptionKind → Bool) → A → Result A → Result A
recover caught a (ok b) = ok b
recover caught a (raised e) = if caught e.kind then ok a else raised e

-- `labels.get(key)`
unfoldable pub label : Text → Dict → Option Text
label k [] = none
label k ((j, v) ∷ d) = if text_eq j k then some v else label k d

-- `a or b` on optional texts, as a test of the result: `none` where both are missing or empty
unfoldable pub first_ref : Option Text → Option Text → Option Text
first_ref none none = none
first_ref none (some []) = none
first_ref none (some (c ∷ s)) = some (c ∷ s)
first_ref (some []) none = none
first_ref (some []) (some []) = none
first_ref (some []) (some (c ∷ s)) = some (c ∷ s)
first_ref (some (c ∷ s)) name = some (c ∷ s)

-- What `list_managed` tells of a container.
pub record Managed : Type 0 where
  pub id : Text
  pub name : Text
  pub uuid : Option Text
  pub status : Text

abbrev pub managed_of : Container → Managed
managed_of c = record {
  id = c.id;
  name = c.name;
  uuid = label label_uuid c.labels;
  status = c.status;
}

-- `code != 0 or not output`, then `json.loads(output.decode())` with ValueError caught
abbrev pub parse_ready : ℤ × Output → Value
parse_ready (pos zero, json_output v) = v
parse_ready (code, out) = null

module _ {W : Type 0} (host : Host W) where
  open host use {
    ping as sdk_ping, images_get, containers_run, containers_get, exec_run, logs, remove,
    containers_list,
  }

  unfoldable pub ping : W → Result (Unit {0}) × W
  ping = sdk_ping

  -- `image or self.image`
  unfoldable pub image_exists : DockerManager → Option Text → W → Result Bool × W
  image_exists m image w =
      let (r, w') = images_get (elim image [ none ↦ m.image | some i ↦ or_text i m.image ]) w in
      (recover is_docker_error false (r >>= λ _. ok true), w')

  abbrev pub run_options : DockerManager → Text → Text → Environment → RunOptions
  run_options m uuid container_name environment = record {
    image = m.image;
    name = container_name;
    detach = true;
    environment = environment;
    network = m.network;
    mem_limit = m.mem_limit;
    nano_cpus = m.nano_cpus;
    labels = (label_key, codes "1") ∷ (label_uuid, uuid) ∷ [];
    restart_policy = (codes "Name", codes "no") ∷ [];
    dns = m.dns;
    cap_drop = codes "ALL" ∷ [];
    security_opt = codes "no-new-privileges" ∷ [];
    pids_limit = pos 2048;
  }

  unfoldable pub run_instance : DockerManager → Text → Text → Environment → W → Result Text × W
  run_instance m uuid container_name environment w =
      let (r, w') = containers_run (run_options m uuid container_name environment) w in
      (r >>= λ c. ok c.id, w')

  abbrev pub read_file : Result Container → W → Result Value × W
  read_file (raised e) w = (if is_not_found e.kind then ok null else raised e, w)
  read_file (ok c) w =
      let (r, w') = exec_run c (codes "cat" ∷ ready_path ∷ []) w in
      (recover is_docker_error null (r >>= λ out. ok (parse_ready out)), w')

  -- `None` is `null`.
  unfoldable pub read_ready : Text → W → Result Value × W
  read_ready container_id w = let (r, w') = containers_get container_id w in read_file r w'

  unfoldable pub container_status : Text → W → Result (Option Text) × W
  container_status container_id w =
      let (r, w') = containers_get container_id w in
      (recover is_docker_error none (r >>= λ c. ok (some c.status)), w')

  abbrev pub read_logs : ℕ → Result Container → W → Result Text × W
  read_logs lines (raised e) w = (recover is_docker_error [] (raised e), w)
  read_logs lines (ok c) w = let (r, w') = logs c lines w in (recover is_docker_error [] r, w')

  unfoldable pub get_logs : Text → ℕ → W → Result Text × W
  get_logs container_id lines w =
      let (r, w') = containers_get container_id w in read_logs lines r w'

  abbrev pub remove_found : Result Container → W → Result (Unit {0}) × W
  remove_found (raised e) w = (recover is_docker_error tt (raised e), w)
  remove_found (ok c) w = let (r, w') = remove c true w in (recover is_docker_error tt r, w')

  abbrev pub remove_ref : Option Text → W → Result (Unit {0}) × W
  remove_ref none w = (ok tt, w)
  remove_ref (some ref) w = let (r, w') = containers_get ref w in remove_found r w'

  unfoldable pub stop_and_remove : Option Text → Option Text → W → Result (Unit {0}) × W
  unfolding first_ref
  stop_and_remove container_id container_name w =
      remove_ref (first_ref container_id container_name) w

  unfoldable pub list_managed : W → Result (List Managed) × W
  unfolding label
  list_managed w =
      let (r, w') = containers_list true label_key w in
      (recover is_docker_error [] (r >>= λ cs. ok (map managed_of cs)), w')
