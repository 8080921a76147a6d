-- ===== src/Liveness/Fd.antt =====
-- The failure detector (liveness/fd.go). A duration is the 64-bit word that holds it, so that a sum
-- wraps; a new ticker is left out. What is published goes to every subscriber.
use goxos.Base.{ℕ, add_uint, Bool, true, not, ◌&&◌, List, [], ◌∷◌, ◌++◌, map, if◌then◌else◌}
use goxos.Grp.Id.{GrpId}
use goxos.Grp.NodeMap.{GrpMgr}
use goxos.Liveness.IdSet.{has, put, drop}

-- `FdMsg`: `Suspect` or `Restore`, and the id.
pub data FdMsg : Type 0 where
  suspect restore : GrpId → FdMsg

-- `type Fd struct`
pub record Fd : Type 0 where
  pub alive : List GrpId
  pub suspected : List GrpId
  pub timeout : ℕ
  pub delta : ℕ

-- `NewFd`, of the two durations of the configuration.
unfoldable pub new_fd : ℕ → ℕ → Fd
new_fd timeout delta = record { alive = []; suspected = []; timeout = timeout; delta = delta }

-- `isAliveSuspectedIntersectionEmpty`: the loop over the suspected.
unfoldable pub intersection_empty : List GrpId → List GrpId → Bool
unfolding has
intersection_empty alive [] = true
intersection_empty alive (k ∷ ks) = not (has alive k) && intersection_empty alive ks

-- `notInAliveAndSuspected`, `inAliveAndSuspected`
abbrev pub not_in_alive_and_suspected : Fd → GrpId → Bool
not_in_alive_and_suspected fd id = not (has fd.alive id) && not (has fd.suspected id)

abbrev pub in_alive_and_suspected : Fd → GrpId → Bool
in_alive_and_suspected fd id = has fd.alive id && has fd.suspected id

-- The body of the loop over the node ids.
unfoldable pub check_node : Fd → GrpId → Fd × List FdMsg
unfolding has put drop
check_node fd id =
    if not_in_alive_and_suspected fd id
    then (record fd { suspected = put fd.suspected id }, suspect id ∷ [])
    else if in_alive_and_suspected fd id
    then (record fd { suspected = drop fd.suspected id }, restore id ∷ [])
    else (fd, [])

unfoldable pub check_nodes : Fd → List GrpId → Fd × List FdMsg
unfolding check_node
check_nodes fd [] = (fd, [])
check_nodes fd (id ∷ ids) =
    let (fd', msgs) = check_node fd id in
    let (fd'', more) = check_nodes fd' ids in (fd'', msgs ++ more)

-- `timeoutProcedure`
unfoldable pub timeout_procedure : GrpMgr → Fd → Fd × List FdMsg
unfolding intersection_empty check_nodes put
timeout_procedure g fd =
    let timeout =
      if intersection_empty fd.alive fd.suspected
      then fd.timeout
      else add_uint fd.timeout fd.delta in
    let (fd', msgs) =
      check_nodes (record fd { timeout = timeout; alive = put fd.alive g.id })
        g.node_map.ids_memoized in
    (record fd' { alive = [] }, msgs)

-- `SetAlive`
unfoldable pub set_alive : Fd → GrpId → Fd
unfolding put drop
set_alive fd id = record fd { alive = put fd.alive id; suspected = drop fd.suspected id }

-- What the loop of `Start` receives. A request for an id's status is answered; see `step`.
pub data Event : Type 0 where
  tick : Event
  heartbeat : GrpId → Event
  resend_suspected : Event
  get_suspected : GrpId → Event

-- What it sends.
pub data Output : Type 0 where
  publish : FdMsg → Output
  answer : Bool → Output

-- One round of the `select` of `Start`. A group hold changes nothing.
unfoldable pub step : GrpMgr → Fd → Event → Fd × List Output
unfolding timeout_procedure put has
step g fd tick = let (fd', msgs) = timeout_procedure g fd in (fd', map publish msgs)
step g fd (heartbeat id) = (record fd { alive = put fd.alive id }, [])
step g fd resend_suspected = (fd, map (λ id. publish (suspect id)) fd.suspected)
step g fd (get_suspected id) = (fd, answer (has fd.suspected id) ∷ [])
