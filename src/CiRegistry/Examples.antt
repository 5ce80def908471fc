-- ===== src/CiRegistry/Examples.antt =====
-- Runs of the CI registry of src/daemon/argo_registry.c.
use argo.Base.{List, [], ◌∷◌, arith, some, true, Bytes, codes, replicate}
use argo.CiRegistry.{ready, create, allocate_port}
use argo.CiRegistry.Valid.{create-IsValid}
use argo.CiRegistry.Ports.{Allocates, allocate_port_lem}
use argo.CiRegistry.Runs.{Op, enlist_op, remove_op, status_op, IsSound, run, run-IsSound}

allocate_port_lem_example :
    Allocates create (codes "coordinator") (allocate_port create (some (codes "coordinator")))
unfolding create
allocate_port_lem_example = allocate_port_lem create (codes "coordinator") create-IsValid tt

abbrev long_name : Bytes
long_name = replicate 40 b'a'

abbrev script : List Op
script =
    enlist_op (codes "Argo") (codes "builder") (codes "m") true 1
    ∷ status_op (some (codes "Argo")) ready
    ∷ enlist_op (codes "Io") (codes "builder") (codes "m") true 2
    ∷ remove_op (some (codes "Argo"))
    ∷ enlist_op (codes "Maia") (codes "builder") (codes "m") true 3
    ∷ []

run-IsSound_example : IsSound (run create script)
run-IsSound_example = run-IsSound script (omega arith, (tt, (omega arith, (tt, (omega arith, tt)))))
