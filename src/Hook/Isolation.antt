-- ===== src/Hook/Isolation.antt =====
-- A request reads the items of one run.
use lambda_ciactions.Common.{ℕ, ◌≡◌, refl, ap}
use lambda_ciactions.Common.Text.{Text}
use lambda_ciactions.Shared.RunStore.{run_pk, run_sk, jit_config_ref}
use lambda_ciactions.Hook.{
  HookAction, jitconfig, terminate, HookBrokerRequest, ParsedHookRequest, parsed,
  parse_hook_request,
}
use lambda_ciactions.Hook.Keys.{keys_from_ref-jit_config_ref}
use lambda_ciactions.Hook.Broker.{Crypto, BrokerDeps, handle_jitconfig, serve, handle}

-- Two worlds in which the JIT config and the row of one run are the same.
pub record SameRun (deps deps' : BrokerDeps) (repo_id run_id job_id : ℕ) : Type 0 where
  pub same_jit :
      deps.get_jit_config_by_ref (jit_config_ref repo_id run_id job_id)
      ≡ deps'.get_jit_config_by_ref (jit_config_ref repo_id run_id job_id)
  pub same_row :
      deps.get_run_fields_by_key (run_pk repo_id run_id job_id) run_sk
      ≡ deps'.get_run_fields_by_key (run_pk repo_id run_id job_id) run_sk
  pub same_control : deps.termination ≡ deps'.termination

module _ (crypto : Crypto) (deps deps' : BrokerDeps) where
  serve_own :
      (action : HookAction) (token : Text) (a b c : ℕ)
      → SameRun deps deps' a b c
      → serve crypto deps action (jit_config_ref a b c) token
        ≡ serve crypto deps' action (jit_config_ref a b c) token
  unfolding serve
  serve_own jitconfig token a b c s = ap (handle_jitconfig crypto token) s.same_jit
  serve_own terminate token a b c s =
      rw (keys_from_ref-jit_config_ref a b c, s.same_jit, s.same_control, s.same_row) refl

  -- The answer to a request that names a run, and the VMs it terminates, depend on nothing that is
  -- stored of the other runs.
  pub handle-SameRun :
      (event : HookBrokerRequest) (req : ParsedHookRequest) (repo_id run_id job_id : ℕ)
      → parse_hook_request event ≡ parsed req
      → req.ref ≡ jit_config_ref repo_id run_id job_id
      → SameRun deps deps' repo_id run_id job_id
      → handle crypto deps event ≡ handle crypto deps' event
  unfolding handle
  handle-SameRun event req a b c h named s = rw (h, named) (serve_own req.action req.token a b c s)
