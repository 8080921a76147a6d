-- ===== src/Liveness/Detection.antt =====
-- The two detectors together: the leader detector handles what the failure detector publishes
-- (liveness/fd.go and liveness/mon_ld.go).
use goxos.Base.{◌≡◌, List, [], ◌∷◌, ◌++◌}
use goxos.Base.Outcome.{Outcome, done, ◌>>=◌}
use goxos.Grp.Id.{GrpId}
use goxos.Grp.NodeMap.{GrpMgr}
use goxos.Liveness.IdSet.{has}
use goxos.Liveness.Fd.{FdMsg, Fd, Event, Output, publish, answer, step}
use goxos.Liveness.Ld.{MonarchicalLd, Trust, handle_fd_msgs}
use goxos.Liveness.Rank.{IsElected}
use goxos.Liveness.Election.{follow_paxos, follow_replacement}
use goxos.Liveness.Nodes.{suspects}

-- The messages among what the failure detector sends.
abbrev pub published : List Output → List FdMsg
published [] = []
published (publish m ∷ os) = m ∷ published os
published (answer b ∷ os) = published os

-- The failure detector goes through the events, and the leader detector handles what it publishes.
unfoldable pub detect :
    GrpMgr → Fd → MonarchicalLd → List Event → Outcome ((Fd × MonarchicalLd) × List Trust)
unfolding step handle_fd_msgs
detect g fd ld [] = done ((fd, ld), [])
detect g fd ld (e ∷ es) =
    let (fd', outs) = step g fd e in
    handle_fd_msgs g ld (published outs) >>= λ r.
    detect g fd' r.0 es >>= λ r'. done (r'.0, r.1 ++ r'.1)

-- After the messages `ms`: the leaders are right, the suspicions follow the messages, and who
-- follows what is published knows the leaders.
record Handled (g : GrpMgr) (ld : MonarchicalLd) (ms : List FdMsg) (r : MonarchicalLd × List Trust)
    : Type 0 where
  elected : IsElected g r.0
  suspected : (j : GrpId) → has r.0.suspected j ≡ suspects (has ld.suspected j) j ms
  paxos : follow_paxos ld.pleader r.1 ≡ r.0.pleader
  replacement : follow_replacement ld.rleader r.1 ≡ r.0.rleader

-- The leader detector suspects whom the failure detector suspects, and its leaders are right.
pub record InStep (g : GrpMgr) (fd : Fd) (ld : MonarchicalLd) : Type 0 where
  pub suspected : (j : GrpId) → has ld.suspected j ≡ has fd.suspected j
  pub elected : IsElected g ld

-- Where a run of both detectors ends, and that who follows what is published knows the leaders.
pub record Detected (g : GrpMgr) (ld : MonarchicalLd) (r : (Fd × MonarchicalLd) × List Trust)
    : Type 0 where
  pub in_step : InStep g r.0.0 r.0.1
  pub paxos : follow_paxos ld.pleader r.1 ≡ r.0.1.pleader
  pub replacement : follow_replacement ld.rleader r.1 ≡ r.0.1.rleader
