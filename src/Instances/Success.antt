-- ===== src/Instances/Success.antt =====
-- A spawn whose container publishes its document in time.
use sui_ctf_infrastructure.Instances.Slots.{IsNewRow, reserve-IsNewRow}
use sui_ctf_infrastructure.Instances.Killing.{OthersLeave}
use sui_ctf_infrastructure.Instances.Frames.{to_thread-keeps, boot_loop-keeps}
use sui_ctf_infrastructure.Registry.Keys.{fetch-update}
use sui_ctf_infrastructure.Challenge.Manifest.{Challenge}
use sui_ctf_infrastructure.Instances.Booting.{HasClock, boot_loop-rounds}
use sui_ctf_infrastructure.Instances.Polling.{Polls, boot_loop-polled, Polls-complete}
use sui_ctf_infrastructure.Docker.Manager.{DockerManager, run_instance}
use sui_ctf_infrastructure.Base.{
  any_of, ℤ, ◌+ℤ◌, ◌≡◌, refl, sym, ap, ◌∙◌, subst, true, false, some, [], arith,
}
use sui_ctf_infrastructure.Text.{Text, codes}
use sui_ctf_infrastructure.Python.Errors.{Result, ok}
use sui_ctf_infrastructure.Python.Values.{Value, null, str, arr, nil, get, get_default}
use sui_ctf_infrastructure.Python.Operators.{index_value}
use sui_ctf_infrastructure.Config.{Config, rpc_url_for}
use sui_ctf_infrastructure.Registry.{
  Row, Registry, is_surrogate, column_text, update, set_container, with_running, set_running,
  row_to_dict, fetch, get_record,
}
use sui_ctf_infrastructure.Docker.Sdk.{Host}
use sui_ctf_infrastructure.Instances.Tasks.{State, seconds, whole_seconds, to_thread}
use sui_ctf_infrastructure.Instances.Values.{
  PlayerView, player_view, ttl_or, instance_env, is_complete, has_package, boot_rounds,
}
use sui_ctf_infrastructure.Instances.Spawn.{
  boot_loop, after_boot, running_with, publish, finish_boot, boot_container, reserve, boot,
  after_reserve, spawn,
}

-- The texts of a document that the entrypoint of an instance writes, which UTF-8 can encode, and its
-- objects.
pub record IsDocument (ready : Value) (address key deployer pkg : Text) (objects : Value)
    : Type 0 where
  pub address_is : get_default ready (codes "player_address") (str []) ≡ ok (str address)
  pub key_is : get_default ready (codes "player_private_key") (str []) ≡ ok (str key)
  pub deployer_is : get_default ready (codes "deployer_address") (str []) ≡ ok (str deployer)
  pub package_is : index_value ready (str (codes "package_id")) ≡ ok (str pkg)
  pub objects_are : get_default ready (codes "objects") (arr nil) ≡ ok objects
  pub address_encodes : any_of is_surrogate address ≡ false
  pub key_encodes : any_of is_surrogate key ≡ false
  pub deployer_encodes : any_of is_surrogate deployer ≡ false
  pub package_encodes : any_of is_surrogate pkg ≡ false

-- A spawn that has returned what a player needs for the instance.
pub record Welcomes (cfg : Config) (ch : Challenge) (u address key pkg : Text) (objects : Value)
    (reserved : ℤ) (r : Result PlayerView) : Type 0 where
  pub view : PlayerView
  pub returned : r ≡ ok view
  pub uuid_is : view.uuid ≡ u
  pub url_is : view.rpc_url ≡ some (rpc_url_for cfg u)
  pub key_is : view.private_key ≡ some key
  pub address_is : view.player_address ≡ some address
  pub package_is : view.package_id ≡ some pkg
  pub objects_are : view.objects ≡ objects
  pub ttl : ℤ
  pub ttl_is : ttl_or ch.ttl_seconds cfg.ttl_seconds ≡ ok ttl
  pub expires_is : view.expires_at ≡ whole_seconds (reserved +ℤ ttl)

is_complete-has_package : (v : Value) → is_complete v ≡ ok true → has_package v ≡ ok true
unfolding is_complete has_package get
is_complete-has_package v e = ground arith

module _ {W : Type 0} (host : Host W) (cfg : Config) where
  running_with-document :
      (u a k d p : Text) (ready o : Value) (rows : Registry)
      → IsDocument ready a k d p o
      → running_with host cfg u ready rows
        ≡ ok
            (update u (with_running (rpc_url_for cfg u) (some a) (some k) (some d) (some p) o) rows)
  unfolding running_with set_running column_text
  running_with-document u a k d p ready o rows doc =
      rw
        (
          doc.address_is, doc.key_is, doc.deployer_is, doc.package_is, doc.objects_are,
          doc.address_encodes, doc.key_encodes, doc.deployer_encodes, doc.package_encodes,
        )
        refl

  -- The table with the document of an instance in its row.
  abbrev published : Text → Text → Text → Text → Text → Value → State W → State W
  published u a k d p o s = record s {
    reg = update u (with_running (rpc_url_for cfg u) (some a) (some k) (some d) (some p) o) s.reg;
  }

  finish_boot-document :
      (u cid a k d p : Text) (ready o : Value) (s : State W)
      → is_complete ready ≡ ok true
      → IsDocument ready a k d p o
      → finish_boot host cfg u cid (ok ready) s ≡ (ok tt, published u a k d p o s)
  unfolding finish_boot publish
  finish_boot-document u cid a k d p ready o s complete doc =
      rw (is_complete-has_package ready complete, running_with-document u a k d p ready o s.reg doc)
        refl

  boot_loop-document :
      (clock : HasClock host) (cid : Text) (v : Value) (t s : State W)
      → Polls host cid (host.time s.world +ℤ seconds cfg.instance_boot_timeout) v t s
      → boot_loop host
          (boot_rounds cfg)
          cid
          (host.time s.world +ℤ seconds cfg.instance_boot_timeout)
          null
          s
        ≡ (ok v, t)
  boot_loop-document clock cid v t s polls =
      let (k, ends) = boot_loop-polled host cid _ v t s polls in
      sym (boot_loop-rounds host clock cfg cid k null s) ∙ ends (boot_rounds cfg) null

  boot_container-document :
      (u cid a k d p : Text) (v o : Value) (t s : State W)
      → HasClock host
      → let s1 : State W = record s { reg = set_container u cid s.reg } in
        Polls host cid (host.time s1.world +ℤ seconds cfg.instance_boot_timeout) v t s1
        → IsDocument v a k d p o
        → boot_container host cfg u (ok cid) s ≡ (ok tt, published u a k d p o t)
  boot_container-document u cid a k d p v o t s clock polls doc =
      let s1 : State W = record s { reg = set_container u cid s.reg } in
      let deadline = host.time s1.world +ℤ seconds cfg.instance_boot_timeout in
      ap (λ x. finish_boot host cfg u cid x.0 x.1) (boot_loop-document clock cid v t s1 polls)
      ∙ finish_boot-document u cid a k d p v o t (Polls-complete host cid deadline v t s1 polls) doc

module _ {W : Type 0} (host : Host W) (cfg : Config) (docker : DockerManager) (ch : Challenge) where
  after_boot-view :
      (u a k d p : Text) (o : Value) (now : ℤ) (s : State W) (q r : Row)
      → fetch u s.reg ≡ some r
      → IsNewRow cfg ch u now q
      → r.uuid ≡ q.uuid
      → r.expires_at ≡ q.expires_at
      → Welcomes cfg ch u a k p o now
          (after_boot host u (ok tt, published host cfg u a k d p o s)).0
  unfolding get_record player_view
  after_boot-view u a k d p o now s q r found fields same_uuid same_time =
      let f = with_running (rpc_url_for cfg u) (some a) (some k) (some d) (some p) o in
      let there : fetch u (update u f s.reg) ≡ some (f r) =
        ground (arith, fetch-update u u f s.reg (λ x. refl), found) in
      record {
        view = player_view (row_to_dict (f r)) (host.time s.world);
        returned = rw there refl;
        uuid_is = same_uuid ∙ fields.uuid_is;
        url_is = refl;
        key_is = refl;
        address_is = refl;
        package_is = refl;
        objects_are = refl;
        ttl = fields.ttl;
        ttl_is = fields.ttl_is;
        expires_is = ap whole_seconds (same_time ∙ fields.expires_is);
      }

  -- The other tasks leaving the row of this spawn alone, with a clock that does not run back and pauses
  -- that last as long as asked: where the reservation goes through, the container is created, and a
  -- poll that starts before the deadline finds the document with all its texts, which UTF-8 can encode,
  -- the spawn returns, and the player gets the uuid, the URL of that instance, the key, the address, the
  -- package and the objects of the document, and as its end the time of the reservation and a lifetime,
  -- the challenge's or the configured one.
  pub spawn-Welcomes :
      (ip u name cid a k d p : Text) (v o : Value) (s t t1 t2 : State W)
      → HasClock host
      → OthersLeave host u
      → reserve host cfg docker ch ip s ≡ (ok (u, name), t)
      → to_thread host (run_instance host docker u name (instance_env cfg ch)) t ≡ (ok cid, t1)
      → Polls host cid
          (host.time t1.world +ℤ seconds cfg.instance_boot_timeout)
          v
          t2
          (record t1 { reg = set_container u cid t1.reg })
      → IsDocument v a k d p o
      → Welcomes cfg ch u a k p o (host.time t.world) (spawn host cfg docker ch ip s).0
  unfolding spawn boot set_container
  spawn-Welcomes ip u name cid a k d p v o s t t1 t2 clock left placed created polls doc =
      let (r, found, fields) = reserve-IsNewRow host cfg docker ch ip u name s t placed in
      let noted = λ (x : Row). record x { container_id = some cid } in
      let op = run_instance host docker u name (instance_env cfg ch) in
      let kept : fetch u t1.reg ≡ some r =
        subst (λ x. fetch u x.1.reg ≡ some r) created
          (to_thread-keeps host (λ reg. fetch u reg ≡ some r) (λ reg w h. left reg w ∙ h) Text op t
            found) in
      let container_there : fetch u (set_container u cid t1.reg) ≡ some (noted r) =
        ground (arith, fetch-update u u noted t1.reg (λ x. refl), kept) in
      let waited : fetch u t2.reg ≡ some (noted r) =
        subst (λ x. fetch u x.1.reg ≡ some (noted r))
          (boot_loop-document host cfg clock cid v t2 _ polls)
          (boot_loop-keeps host (λ reg. fetch u reg ≡ some (noted r)) (λ reg w h. left reg w ∙ h)
            (boot_rounds cfg) cid _ null _ container_there) in
      let booted : boot host cfg docker ch u name t ≡ (ok tt, published host cfg u a k d p o t2) =
        ap (λ x. boot_container host cfg u x.0 x.1) created
        ∙ boot_container-document host cfg u cid a k d p v o t2 t1 clock polls doc in
      subst
        (λ x. Welcomes cfg ch u a k p o (host.time t.world) (after_reserve host cfg docker ch x).0)
        (sym placed)
        (subst (λ x. Welcomes cfg ch u a k p o (host.time t.world) (after_boot host u x).0)
          (sym booted)
          (after_boot-view u a k d p o (host.time t.world) t2 r (noted r) waited fields refl refl))
