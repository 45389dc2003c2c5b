-- ===== src/Examples/Server.antt =====
-- The server of pkg/router/router.go at concrete inputs.
use sprut.Router.Server.{Reachable}
use sprut.Router.Server.Orphan.{doubly_served, doubly_served-Reachable}
use sprut.Router.Server.Invariant.{Sound, Reachable-Sound}

doubly_served-Reachable_example : Reachable 2 (doubly_served 0 77 1 2 3)
doubly_served-Reachable_example = doubly_served-Reachable 0 77 1 2 3

Reachable-Sound_example : Sound 2 (doubly_served 0 77 1 2 3)
Reachable-Sound_example =
    Reachable-Sound 2 (doubly_served 0 77 1 2 3) (doubly_served-Reachable 0 77 1 2 3)
