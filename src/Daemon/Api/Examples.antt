-- ===== src/Daemon/Api/Examples.antt =====
-- Requests that start a workflow and send it input.
use argo.Base.{
  ◌≡◌, refl, arith, true, List, [], ◌∷◌, none, some, Bytes, codes, str_eq, if◌then◌else◌,
}
use argo.Error.{success, e_input_null}
use argo.Json.{extract_string_field}
use argo.Json.Extract.{object}
use argo.WorkflowRegistry.{running, Entry, Registry, create, find, with_state}
use argo.WorkflowRegistry.Valid.{create-IsValid}
use argo.Daemon.Control.{workflow_id}
use argo.Daemon.Execute.{
  validate_script_path, has_dots, has_any, all_safe, is_safe_env_var, is_blocked, is_name, System,
  new_entry, with_process,
}
use argo.Daemon.Helpers.{highest, EnvVar, parse_args_from_json, parse_env_from_json}
use argo.Daemon.Api.{Alloc, Started, api_workflow_start, api_workflow_input}
use argo.Daemon.Api.Start.{Spells, new_id, api_workflow_start_new}
use argo.Daemon.Api.Input.{api_workflow_input-escaped}

abbrev sys : System
sys = record {
  stat = λ path. record { exists = true; regular = true };
  mem = true;
  pipe = some 5;
  fork = some 41;
  now = 10;
}

abbrev alloc : Alloc
alloc = record {
  script = true;
  template = true;
  instance_name = true;
  arrays = true;
  item = λ s. true;
  listing = true;
  usec = codes "7";
}

abbrev body : Bytes
body = codes "{\"script\":\"b.sh\",\"template\":\"build\",\"env\":{\"CI\":\"1\"}}"

abbrev vars : List EnvVar
vars = (some (codes "CI"), codes "1") ∷ []

body-Spells : Spells alloc body (codes "b.sh") (codes "build") vars
unfolding extract_string_field parse_args_from_json parse_env_from_json
body-Spells = record {
  script_field = refl;
  template_field = refl;
  no_instance = refl;
  args_read = refl;
  env_read = refl;
  listed = refl;
}

api_workflow_start_new_example :
    (find create (new_id create (codes "build")) ≡ none)
    × ((s : Started) × (api_workflow_start create sys alloc (some body) ≡ some s)
        × (s.status ≡ 200)
        × (s.code ≡ success)
        × (find s.registry (codes "build_01") ≡ (
            if str_eq (new_id create (codes "build")) (codes "build_01")
            then some (
                with_process 41 5 (
                  with_state running 10
                    (new_entry (new_id create (codes "build")) (codes "b.sh") 10)))
            else find create (codes "build_01"))))
unfolding highest create validate_script_path has_dots has_any all_safe is_safe_env_var is_blocked
    is_name str_eq
api_workflow_start_new_example =
    api_workflow_start_new create sys alloc body (codes "b.sh") (codes "build") vars 5 41
      (codes "build_01") create-IsValid body-Spells (omega arith) (omega arith) refl refl refl refl
      refl

abbrev live : Entry
live = with_process 41 5 (with_state running 10 (new_entry (codes "build_01") (codes "b.sh") 10))

abbrev busy : Registry
busy = record { head = live ∷ []; count = 1 }

api_workflow_input-escaped_example :
    api_workflow_input busy
      (codes "/api/workflow/input/build_01")
      (some (object (codes "input") (codes "say \"hi\"") (codes "}")))
      true
      (some 3)
    ≡ record {
      written = some (5, codes "say");
      bytes_written = some 3;
      status = 200;
      code = success;
    }
unfolding workflow_id find with_process with_state new_entry str_eq
api_workflow_input-escaped_example =
    api_workflow_input-escaped busy (codes "/api/workflow/input/build_01") (codes "build_01")
      (codes "say \"hi\"") (codes "}") live (some 3) refl refl refl (omega arith) (omega arith)

-- Without a template no ID can be made.
no_template :
    api_workflow_start create sys alloc (some (codes "{\"script\":\"b.sh\"}"))
    ≡ some (record { registry = create; status = 500; code = e_input_null })
unfolding api_workflow_start create
no_template = refl
