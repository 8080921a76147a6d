-- ===== src/Tests/Detectors.antt =====
-- The detectors (liveness/fd.go, liveness/mon_ld.go) in a group of three, in which a node falls silent.
use goxos.Base.{◌≡◌, refl, Bool, false, List, [], ◌∷◌}
use goxos.Base.Outcome.{done}
use goxos.Liveness.Fd.{
  Fd, Event, tick, heartbeat, resend_suspected, new_fd, step, timeout_procedure, set_alive,
}
use goxos.Liveness.IdSet.{has}
use goxos.Liveness.Ld.{MonarchicalLd, new_monarchical_ld, paxos_trust, handle_fd_msgs}
use goxos.Liveness.Nodes.{suspects}
use goxos.Liveness.Timeout.{Timeout, set_alive-quiet}
use goxos.Liveness.Detection.{detect}
use goxos.Tests.{replica, manager}

-- Replica 2 is silent for one period, then back.
abbrev events : List Event
events = heartbeat (replica 0) ∷ tick ∷ resend_suspected ∷ heartbeat (replica 2) ∷ tick ∷ []

abbrev quiet_node : Fd
quiet_node = record {
  alive = replica 0 ∷ [];
  suspected = replica 2 ∷ [];
  timeout = 500;
  delta = 100;
}

set_alive-quiet_example :
    (has (timeout_procedure manager (set_alive quiet_node (replica 2))).0.suspected (replica 2)
      ≡ false)
    × ((b : Bool)
        → suspects b (replica 2) (timeout_procedure manager (set_alive quiet_node (replica 2))).1
          ≡ b)
set_alive-quiet_example = set_alive-quiet manager quiet_node (replica 2)

-- The leader moves to replica 1 and back.
leaders :
    (ld : MonarchicalLd) × ((new_monarchical_ld manager ≡ done ld)
      × ((r : Fd × MonarchicalLd) × (detect manager (new_fd 500 100) ld events
            ≡ done (r, paxos_trust (replica 1) ∷ paxos_trust (replica 2) ∷ []))))
unfolding new_monarchical_ld detect step timeout_procedure handle_fd_msgs new_fd
leaders = (_, (refl, (_, refl)))
