-- ===== src/CiRegistry/Persistence/Examples.antt =====
-- Two CIs that are saved and loaded (src/daemon/argo_registry_persistence.c), one of which is named like
-- a field of the file.
use argo.Base.{ℕ, ◌≡◌, refl, true, false, [], ◌∷◌, none, some, arith, Bytes, codes, map, str_eq}
use argo.Base.Nodes.{find_node}
use argo.CiRegistry.{Status, ready, busy, Entry, Registry, create}
use argo.CiRegistry.Persistence.{load_state, save_state, get_stats}
use argo.CiRegistry.Persistence.Fields.{IsPlain, restored}
use argo.CiRegistry.Persistence.RoundTrip.{reversed, load_state-save_state}

abbrev ci : Bytes → ℕ → Status → Entry
ci name port status = record {
  name = name;
  role = codes "builder";
  model = codes "claude";
  host = codes "localhost";
  port = port;
  socket_fd = none;
  status = status;
  last_heartbeat = 5;
  registered_at = 5;
  context_size = 0;
  supports_streaming = false;
  supports_memory = false;
  messages_sent = 3;
  messages_received = 1;
  errors_count = 0;
  last_error = 0;
}

abbrev two : Registry
two = record create {
  entries = ci (codes "status") 9001 busy ∷ ci (codes "argo") 9000 ready ∷ [];
  count = 2;
}

status-IsPlain : IsPlain (ci (codes "status") 9001 busy)
status-IsPlain = record {
  name = record {
    filled = refl;
    bound = omega arith;
    quoteless = ground arith;
    braceless = ground arith;
    nulless = ground arith;
  };
  role = record {
    filled = refl;
    bound = omega arith;
    quoteless = ground arith;
    braceless = ground arith;
    nulless = ground arith;
  };
  model = record {
    filled = refl;
    bound = omega arith;
    quoteless = ground arith;
    braceless = ground arith;
    nulless = ground arith;
  };
  host = record {
    filled = refl;
    bound = omega arith;
    quoteless = ground arith;
    braceless = ground arith;
    nulless = ground arith;
  };
  port_pos = omega arith;
  port_bound = omega arith;
}

argo-IsPlain : IsPlain (ci (codes "argo") 9000 ready)
argo-IsPlain = record {
  name = record {
    filled = refl;
    bound = omega arith;
    quoteless = ground arith;
    braceless = ground arith;
    nulless = ground arith;
  };
  role = status-IsPlain.role;
  model = status-IsPlain.model;
  host = status-IsPlain.host;
  port_pos = omega arith;
  port_bound = omega arith;
}

load_state-save_state_example :
    (r' : Registry) × (load_state create (save_state two true).0 true 7 ≡ some r')
    × (r'.entries ≡ reversed (map (restored 7) two.entries) [])
    × (r'.count ≡ 2)
unfolding create find_node str_eq
load_state-save_state_example =
    load_state-save_state two 7 (omega arith) (status-IsPlain, (argo-IsPlain, tt))
      (refl, (refl, tt))

get_stats_test :
    get_stats two true
    ≡ some (record {
      total_cis = 2;
      online_cis = 2;
      busy_cis = 1;
      total_messages = 8;
      total_errors = 0;
      uptime = 0;
    })
unfolding get_stats
get_stats_test = refl
