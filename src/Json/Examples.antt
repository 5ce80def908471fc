-- ===== src/Json/Examples.antt =====
-- Runs of the JSON helpers of src/foundation/argo_json.c.
use argo.Base.{◌≢◌, arith, none, codes, replicate}
use argo.Json.{escape_string}
use argo.Json.Buffer.{escape_string_fits}

escape_string_fits_example : escape_string (replicate 8 0) 8 0 (codes "say \"hi\"") ≢ none
escape_string_fits_example =
    escape_string_fits (replicate 8 0) 0 (codes "say \"hi\"") (omega arith) (omega arith)
      (omega arith)
