-- ===== src/Docker/Cleanup.antt =====
-- What `stop_and_remove` and `get_logs` raise.
use sui_ctf_infrastructure.Base.{ℕ, ◌≡◌, refl, Bool, true, Option, none, some, []}
use sui_ctf_infrastructure.Text.{Text}
use sui_ctf_infrastructure.Python.Errors.{Exception, Result, ok, raised}
use sui_ctf_infrastructure.Docker.Sdk.{Container, Host, is_docker_error}
use sui_ctf_infrastructure.Docker.Manager.{
  recover, first_ref, read_logs, get_logs, remove_found, remove_ref, stop_and_remove,
}

-- The exceptions of a result are those of the SDK.
abbrev pub IsDockerOnly : {A : Type 0} → Result A → Type 0
IsDockerOnly r = (e : Exception) → r ≡ raised e → is_docker_error e.kind ≡ true

-- What the daemon's client documents: its calls raise exceptions of its own.
pub record HasOwnErrors {W : Type 0} (host : Host W) : Type 0 where
  pub get_errors : (ref : Text) (w : W) → IsDockerOnly (host.containers_get ref w).0
  pub remove_errors :
      (c : Container) (force : Bool) (w : W) → IsDockerOnly (host.remove c force w).0
  pub logs_errors : (c : Container) (n : ℕ) (w : W) → IsDockerOnly (host.logs c n w).0

recover-ok :
    {A : Type 0} (a : A) (r : Result A)
    → IsDockerOnly r
    → (b : A) × (recover is_docker_error a r ≡ ok b)
recover-ok a (ok b) h = (b, refl)
recover-ok a (raised e) h = (a, rw (h e refl) refl)

module _ {W : Type 0} (host : Host W) (own : HasOwnErrors host) where
  remove_found-ok :
      (r : Result Container) (w : W) → IsDockerOnly r → (remove_found host r w).0 ≡ ok tt
  remove_found-ok (raised e) w h = rw (h e refl) refl
  remove_found-ok (ok c) w h =
      (recover-ok tt (host.remove c true w).0 (own.remove_errors c true w)).1

  remove_ref-ok : (o : Option Text) (w : W) → (remove_ref host o w).0 ≡ ok tt
  remove_ref-ok none w = refl
  remove_ref-ok (some ref) w =
      remove_found-ok (host.containers_get ref w).0 _ (own.get_errors ref w)

  read_logs-ok :
      (n : ℕ) (r : Result Container) (w : W)
      → IsDockerOnly r
      → (t : Text) × ((read_logs host n r w).0 ≡ ok t)
  read_logs-ok n (raised e) w h = ([], rw (h e refl) refl)
  read_logs-ok n (ok c) w h = recover-ok [] (host.logs c n w).0 (own.logs_errors c n w)

  -- Where the SDK's calls raise only its own exceptions, a removal never raises, whether the container
  -- is there, gone or refused, and neither does a read of the logs.
  pub stop_and_remove-ok :
      (id name : Option Text) (cid : Text) (n : ℕ) (w : W)
      → ((stop_and_remove host id name w).0 ≡ ok tt)
        × ((t : Text) × ((get_logs host cid n w).0 ≡ ok t))
  unfolding stop_and_remove get_logs
  stop_and_remove-ok id name cid n w =
      (remove_ref-ok (first_ref id name) w, read_logs-ok n _ _ (own.get_errors cid w))
