-- ===== src/Docker/Tests.antt =====
-- A small host: its world is a clock in microseconds, and one container answers every call.
use sui_ctf_infrastructure.Docker.Cleanup.{HasOwnErrors, stop_and_remove-ok}
use sui_ctf_infrastructure.Base.{pos, ℕ, ◌+◌, ◌*◌, ◌≡◌, refl, none, some, [], ◌∷◌, arith}
use sui_ctf_infrastructure.Text.{Text, codes}
use sui_ctf_infrastructure.Python.Errors.{not_found, ok, raise}
use sui_ctf_infrastructure.Python.Values.{Value, str, obj, end, field}
use sui_ctf_infrastructure.Docker.Sdk.{Container, json_output, Host}
use sui_ctf_infrastructure.Docker.Manager.{first_ref, get_logs, stop_and_remove}

abbrev pub small_container : Container
small_container = record {
  id = codes "c1";
  name = codes "sui-inst-u1";
  labels = (codes "suictf", codes "1") ∷ (codes "suictf.uuid", codes "u1") ∷ [];
  status = codes "running";
}

abbrev pub small_ready : Value
small_ready = obj (
    field (codes "package_id") (str (codes "0xp"))
      (field (codes "player_private_key") (str (codes "key")) end))

-- A call takes a millisecond, and a draw of randomness none.
abbrev pub small_host : Host ℕ
small_host = record {
  time = λ w. pos w;
  sleep = λ n w. w + n * 1_000_000;
  others = λ reg w. reg;
  uuid4 = λ w. (codes "u9", w);
  token_hex = λ n w. (codes "ab", w);
  ping = λ w. (ok tt, w + 1000);
  images_get = λ name w. (ok tt, w + 1000);
  containers_run = λ options w. (ok small_container, w + 1000);
  containers_get = λ ref w. (ok small_container, w + 1000);
  exec_run = λ c cmd w. (ok (pos 0, json_output small_ready), w + 1000);
  logs = λ c n w. (ok [], w + 1000);
  remove = λ c force w. (ok tt, w + 1000);
  containers_list = λ every filter w. (ok (small_container ∷ []), w + 1000);
}

removal : (stop_and_remove small_host (some (codes "c1")) none 0).0 ≡ ok tt
unfolding stop_and_remove first_ref
removal = refl

-- A daemon that knows no container.
abbrev empty_host : Host ℕ
empty_host = record small_host {
  containers_get = λ ref w. (raise not_found "No such container", w);
}

empty_host-HasOwnErrors : HasOwnErrors empty_host
empty_host-HasOwnErrors = record {
  get_errors = λ ref w e h. ground (arith, h);
  remove_errors = λ c force w e h. cc;
  logs_errors = λ c n w e h. cc;
}

stop_and_remove-ok_example :
    ((stop_and_remove empty_host (some (codes "c1")) none 0).0 ≡ ok tt)
    × ((t : Text) × ((get_logs empty_host (codes "c1") 80 0).0 ≡ ok t))
stop_and_remove-ok_example =
    stop_and_remove-ok empty_host empty_host-HasOwnErrors (some (codes "c1")) none (codes "c1") 80 0
