-- ===== src/Probe/Checked.antt =====
-- What an exit code of zero says.
use sui_ctf_infrastructure.Config.{Environ}
use Prim.Native.String.{String}
use sui_ctf_infrastructure.Base.{
  Member, ◌≡◌, refl, sym, ap, ◌∙◌, subst, inl, inr, Bool, true, false, some, List, [], ◌∷◌, arith,
}
use sui_ctf_infrastructure.Text.{Text, codes, text_discrete}
use sui_ctf_infrastructure.Python.Errors.{Result, ok, raised, bind-ok}
use sui_ctf_infrastructure.Python.Values.{Value, str, arr, nil, cons, get, get_default}
use sui_ctf_infrastructure.Python.Operators.{value_eq, index_value, iterate}
use sui_ctf_infrastructure.Registry.{Record}
use sui_ctf_infrastructure.SuiRpc.Client.{HttpClient, SuiRpc, get_object_content}
use sui_ctf_infrastructure.Challenge.Manifest.{Challenge, path_join, load_challenge}
use sui_ctf_infrastructure.Challenge.Solve.{type_matches, check_state, check_solved}
use sui_ctf_infrastructure.Challenge.Field.{FieldHolds, IsMet, check_state-IsMet}
use sui_ctf_infrastructure.Probe.Run.{
  require, object_of, instance_of, Setup, setup_of, Report, report, after_fresh, after_drained,
  run_checks, probe_main,
}

result_inj : {A : Type 0} {a b : A} → ◌≡◌ {A = Result A} (ok a) (ok b) → a ≡ b
result_inj e = cc

-- The one object of a probe's instance is what a condition is read from.
the_object :
    (id otype : Text) (suffix target : Value) (os : List Value) (t : Value)
    → iterate (arr (cons (object_of id otype) nil)) ≡ ok os
    → Member target os
    → object_of id otype ≡ target
unfolding iterate
the_object id otype suffix target os t listed member =
    let one : Member target (object_of id otype ∷ []) =
      subst (Member target) (sym (result_inj listed)) member in
    elim one [ inl same ↦ same | inr no_more ↦ absurd no_more ]

its_type : (id otype : Text) → get (object_of id otype) (codes "type") ≡ ok (str otype)
unfolding get text_discrete
its_type id otype = refl

its_id : (id otype : Text) → index_value (object_of id otype) (str (codes "objectId")) ≡ ok (str id)
unfolding index_value text_discrete
its_id id otype = refl

require-some :
    (env : Environ) (name : String) (t : Text) → require env name ≡ ok t → env (codes name) ≡ some t
unfolding require
require-some env name t h = ground (arith, h)

-- Where the drained object comes from.
setup_of-drained :
    (loaded : Result Challenge) (env : Environ) (s : Setup)
    → setup_of loaded env ≡ ok s
    → (pkg : Text) × (id : Text) × (otype : Text) × (env (codes "DRAINED_POOL_ID") ≡ some id)
      × (env (codes "DRAINED_POOL_TYPE") ≡ some otype)
      × (s.drained ≡ instance_of pkg id otype)
unfolding setup_of
setup_of-drained loaded env s h =
    let (ch, h1, _) = bind-ok _ loaded h in
    let (url, h2, _) = bind-ok _ (require env "RPC_URL") h1 in
    let (pkg, h3, _) = bind-ok _ (require env "PACKAGE_ID") h2 in
    let (id, h4, id_there) = bind-ok _ (require env "DRAINED_POOL_ID") h3 in
    let (otype, h5, type_there) = bind-ok _ (require env "DRAINED_POOL_TYPE") h4 in
    let (fid, h6, _) = bind-ok _ (require env "FRESH_POOL_ID") h5 in
    let (ftype, h7, _) = bind-ok _ (require env "FRESH_POOL_TYPE") h6 in
    (
      pkg,
      id,
      otype,
      require-some env "DRAINED_POOL_ID" id id_there,
      require-some env "DRAINED_POOL_TYPE" otype type_there,
      sym (ap (λ (x : Setup). x.drained) (result_inj h7)),
    )

module _ {W : Type 0} (http : HttpClient W) where
  -- The network has given the content of this object, the object's type fits the condition, and the
  -- condition holds of the content.
  abbrev pub ObjectMeets : SuiRpc → Value → Text → Text → W → Type 0
  ObjectMeets rpc spec id otype w =
      (suffix : Value) × (content : Value) × (index_value spec (str (codes "object_type"))
        ≡ ok suffix)
      × (type_matches (str otype) suffix ≡ ok true)
      × ((get_object_content http rpc (str id) w).0 ≡ ok content)
      × FieldHolds spec content

  IsMet-object :
      (rpc : SuiRpc) (spec : Value) (pkg id otype : Text) (w : W)
      → IsMet http rpc spec (instance_of pkg id otype) w
      → ObjectMeets rpc spec id otype w
  IsMet-object rpc spec pkg id otype w
        (
          suffix,
          target,
          oid,
          content,
          asked,
          (os, t, listed, member, typed, matched),
          named,
          read,
          holds,
        ) =
      let same = the_object id otype suffix target os t listed member in
      let t_is =
        result_inj
          (sym (subst (λ x. get x (codes "type") ≡ ok t) (sym same) typed) ∙ its_type id otype) in
      let id_is = result_inj (
        sym (subst (λ x. index_value x (str (codes "objectId")) ≡ ok oid) (sym same) named)
        ∙ its_id id otype) in
      (
        suffix,
        content,
        asked,
        subst (λ x. type_matches x suffix ≡ ok true) t_is matched,
        subst (λ x. (get_object_content http rpc x w).0 ≡ ok content) id_is read,
        holds,
      )

  check_solved-state :
      (ch : Challenge) (rpc : SuiRpc) (row : Record) (w : W)
      → get_default ch.solve (codes "type") (str (codes "state")) ≡ ok (str (codes "state"))
      → check_solved http ch rpc row w ≡ check_state http rpc ch.solve row w
  unfolding check_solved value_eq text_discrete
  check_solved-state ch rpc row w kind = rw kind refl

  after_fresh-zero :
      (d : Bool) (a : Result Bool × W) (rep : Report)
      → (after_fresh http d a).0 ≡ ok rep
      → rep.exit_code ≡ 0
      → (d ≡ true) × (a.0 ≡ ok false)
  unfolding report
  after_fresh-zero d (raised e, w) rep h zero_code = cc
  after_fresh-zero d (ok f, w) rep h zero_code =
      let zero_here : (report d f).exit_code ≡ 0 =
        ap (λ (r : Report). r.exit_code) (result_inj h) ∙ zero_code in
      ground arith

  after_drained-zero :
      (s : Setup) (a : Result Bool × W) (rep : Report)
      → (after_drained http s a).0 ≡ ok rep
      → rep.exit_code ≡ 0
      → (a.0 ≡ ok true) × ((check_solved http s.challenge s.rpc s.fresh a.1).0 ≡ ok false)
  after_drained-zero s (raised e, w) rep h zero_code = cc
  after_drained-zero s (ok d, w) rep h zero_code =
      let (met, fails) =
        after_fresh-zero d (check_solved http s.challenge s.rpc s.fresh w) rep h zero_code in
      (ap ok met, fails)

  run_checks-zero :
      (s : Setup) (pkg id otype : Text) (w : W) (rep : Report)
      → s.drained ≡ instance_of pkg id otype
      → get_default s.challenge.solve (codes "type") (str (codes "state"))
        ≡ ok (str (codes "state"))
      → (run_checks http (ok s) w).0 ≡ ok rep
      → rep.exit_code ≡ 0
      → ObjectMeets s.rpc s.challenge.solve id otype w
        × ((check_solved http s.challenge s.rpc s.fresh
              (check_solved http s.challenge s.rpc s.drained w).1).0
            ≡ ok false)
  run_checks-zero s pkg id otype w rep made kind h zero_code =
      let (met, fails) =
        after_drained-zero s (check_solved http s.challenge s.rpc s.drained w) rep h zero_code in
      let state_met =
        ap (λ (x : Result Bool × W). x.0)
          (sym (check_solved-state s.challenge s.rpc s.drained w kind))
        ∙ met in
      (
        IsMet-object s.rpc s.challenge.solve pkg id otype w (
            check_state-IsMet http s.rpc s.challenge.solve (instance_of pkg id otype) w (
              subst (λ r. (check_state http s.rpc s.challenge.solve r w).0 ≡ ok true) made
                state_met)),
        fails,
      )

  -- With a challenge whose condition is on a state, an exit code of zero means that the network has
  -- given the content of the object that the environment names as drained, that this object is of the
  -- type asked for and meets the condition, in what the operator that the condition names means, and
  -- that the check then denied the fresh one.
  pub probe_main-zero :
      (is_file : Text → Bool) (load_yaml : Text → Result Value) (repo : Text) (env : Environ)
      (w : W) (s : Setup) (rep : Report)
      → setup_of
          (load_challenge is_file load_yaml
            (path_join repo (codes "challenges"))
            (codes "placeholder-flashpool"))
          env
        ≡ ok s
      → get_default s.challenge.solve (codes "type") (str (codes "state"))
        ≡ ok (str (codes "state"))
      → (probe_main http is_file load_yaml repo env w).0 ≡ ok rep
      → rep.exit_code ≡ 0
      → (id : Text) × (otype : Text) × (env (codes "DRAINED_POOL_ID") ≡ some id)
        × (env (codes "DRAINED_POOL_TYPE") ≡ some otype)
        × ObjectMeets s.rpc s.challenge.solve id otype w
        × ((check_solved http s.challenge s.rpc s.fresh
              (check_solved http s.challenge s.rpc s.drained w).1).0
            ≡ ok false)
  unfolding probe_main
  probe_main-zero is_file load_yaml repo env w s rep read kind h zero_code =
      let (pkg, id, otype, e1, e2, made) = setup_of-drained _ env s read in
      let (meets, fails) =
        run_checks-zero s pkg id otype w rep made kind
          (subst (λ x. (run_checks http x w).0 ≡ ok rep) read h) zero_code in
      (id, otype, e1, e2, meets, fails)
