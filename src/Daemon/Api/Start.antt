-- ===== src/Daemon/Api/Start.antt =====
-- A request that starts a workflow (src/daemon/argo_daemon_workflow_api.c).
use argo.Base.{
  ℕ, ◌+◌, ◌≤◌, ◌<◌, ◌≡◌, refl, ◌∙◌, ap, true, List, [], ◌∷◌, none, some, arith, if◌then◌else◌,
  Bytes, codes, length, length-append, map, str_eq,
}
use argo.Error.{success}
use argo.Json.{extract_string_field}
use argo.WorkflowRegistry.{running, Registry, find, with_state}
use argo.WorkflowRegistry.Valid.{IsValid}
use argo.Daemon.Execute.{validate_script_path, all_safe, new_entry, System, with_process}
use argo.Daemon.Execute.Start.{execute_bash_workflow_lem}
use argo.Daemon.Helpers.{
  EnvVar, highest, id_prefix, with_suffix, two_digits, parse_args_from_json, parse_env_from_json,
  generate_workflow_id,
}
use argo.Daemon.Helpers.Fresh.{length-two_digits, generate_workflow_id_fresh}
use argo.Daemon.Api.{
  Alloc, Started, status_of, key_of, start_with, start_script, api_workflow_start,
}

-- What the body of a request for a new instance spells: the script, the name of the template, no
-- name of an instance, and the variables.
pub record Spells (alloc : Alloc) (body script name : Bytes) (vars : List EnvVar) : Type 0 where
  pub script_field : (extract_string_field body (codes "script") alloc.script).0 ≡ some script
  pub template_field : (extract_string_field body (codes "template") alloc.template).0 ≡ some name
  pub no_instance : (extract_string_field body (codes "instance") alloc.instance_name).0 ≡ none
  pub args_read : (parse_args_from_json body alloc.arrays alloc.item).1 ≡ success
  pub env_read : parse_env_from_json body alloc.arrays alloc.item ≡ some (vars, success)
  pub listed : alloc.listing ≡ true

-- The ID of the new instance.
abbrev pub new_id : Registry → Bytes → Bytes
new_id r name = with_suffix name (two_digits (highest (id_prefix name) r.head 0 + 1))

start_made :
    (r : Registry) (sys : System) (alloc : Alloc) (body script name : Bytes) (vars : List EnvVar)
    → IsValid r
    → Spells alloc body script name vars
    → length name ≤ 60
    → highest (id_prefix name) r.head 0 < 99
    → api_workflow_start r sys alloc (some body)
      ≡ some (start_with r sys script vars (some (new_id r name), success))
unfolding api_workflow_start start_script
start_made r sys alloc body script name vars h s short below =
    let made : generate_workflow_id r (some name) none 128 alloc.usec alloc.listing
        ≡ (some (new_id r name), success) =
      ap (generate_workflow_id r (some name) none 128 alloc.usec) s.listed
      ∙ (generate_workflow_id_fresh r name alloc.usec 128 h (omega arith) (omega arith) below).0 in
    rw (s.script_field, api_workflow_start)
      (rw (s.args_read, start_script)
        (rw (s.env_read, start_script)
          (rw (s.template_field, s.no_instance)
            (ap (λ x. some (start_with r sys script vars x)) made))))

-- A request for a new instance whose body spells a valid script path, a template's name of at most
-- 60 bytes, no instance name and safe variables is answered with 200, in a valid registry whose
-- highest number for the template is below 99: the workflow is then registered under an ID that was
-- free, as RUNNING with the child's PID and the pipe, and no other workflow changes. Memory, the
-- pipe and the fork are given.
pub api_workflow_start_new :
    (r : Registry) (sys : System) (alloc : Alloc) (body script name : Bytes) (vars : List EnvVar)
    (fd pid : ℕ) (j : Bytes)
    → IsValid r
    → Spells alloc body script name vars
    → length name ≤ 60
    → highest (id_prefix name) r.head 0 < 99
    → validate_script_path sys.stat (some script) ≡ true
    → all_safe (map key_of vars) ≡ true
    → sys.mem ≡ true
    → sys.pipe ≡ some fd
    → sys.fork ≡ some pid
    → (find r (new_id r name) ≡ none)
      × ((s : Started) × (api_workflow_start r sys alloc (some body) ≡ some s)
          × (s.status ≡ 200)
          × (s.code ≡ success)
          × (find s.registry j ≡ (
              if str_eq (new_id r name) j
              then some (
                  with_process pid fd
                    (with_state running sys.now (new_entry (new_id r name) script sys.now)))
              else find r j)))
unfolding start_with
api_workflow_start_new r sys alloc body script name vars fd pid j h s short below good safe mem
      piped forked =
    let id = new_id r name in
    let fresh = (generate_workflow_id_fresh r name [] 128 h (omega arith) (omega arith) below).2 in
    let long : length id ≡ length name + 3 = omega (
      arith,
      length-append name (b'_' ∷ two_digits (highest (id_prefix name) r.head 0 + 1)),
      length-two_digits (highest (id_prefix name) r.head 0 + 1) (omega arith),
    ) in
    let done =
      execute_bash_workflow_lem r sys script (map key_of vars) id j h good safe
        (omega (arith, long)) (omega (arith, long)) in
    let code = done.1 ∙ rw (fresh) (rw (mem) (rw (piped) (rw forked refl))) in
    (
      fresh,
      (
        start_with r sys script vars (some id, success),
        start_made r sys alloc body script name vars h s short below,
        ap status_of code,
        code,
        done.0 ∙ rw (fresh) (rw (mem) (rw (piped) (rw forked refl))),
      ),
    )
