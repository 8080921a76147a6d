-- ===== src/Liveness/Ld.antt =====
-- The leader detector (liveness/mon_ld.go). What is published goes to every subscriber; a call of
-- `glog.Fatal` ends the process, which is the outcome `panic`.
use goxos.Base.{
  ℕ, Bool, not, ◌&&◌, ◌||◌, List, [], ◌∷◌, ◌++◌, length, ◌==◌, ltb, ltb_ℤ, pos, negsuc,
  if◌then◌else◌,
}
use goxos.Base.Outcome.{Outcome, done, panic, ◌>>=◌}
use goxos.Grp.Id.{GrpId, new_id, id_eq}
use goxos.Grp.NodeMap.{GrpMgr}
use goxos.Liveness.IdSet.{has, put, drop}
use goxos.Liveness.Fd.{FdMsg, suspect, restore}

-- `MinID`, `MaxID` and `MaxEpoch` (grp/node.go)
abbrev pub min_id : GrpId
min_id = new_id (negsuc 0) 0

abbrev pub max_id : GrpId
max_id = new_id (pos 127) 0

abbrev pub max_epoch : ℕ
max_epoch = 18446744073709551615

-- `type MonarchicalLD struct`; `lr_ar` tells which check the constructor chose.
pub record MonarchicalLd : Type 0 where
  pub pleader : GrpId
  pub rleader : GrpId
  pub suspected : List GrpId
  pub lr_ar : Bool

-- What is published: a new Paxos leader, or a new replacement leader.
pub data Trust : Type 0 where
  paxos_trust replacement_trust : GrpId → Trust

-- `id.PaxosID > leader.PaxosID`, and `<`
abbrev pub above : GrpId → GrpId → Bool
above id leader = ltb_ℤ leader.paxos_id id.paxos_id

abbrev pub below : GrpId → GrpId → Bool
below id leader = ltb_ℤ id.paxos_id leader.paxos_id

-- The loop for the highest or the lowest Paxos id: `above` or `below`, and `!suspected`.
unfoldable pub pick : (GrpId → GrpId → Bool) → List GrpId → GrpId → List GrpId → GrpId
unfolding has
pick better suspected leader [] = leader
pick better suspected leader (id ∷ ids) =
    pick better suspected (if better id leader && not (has suspected id) then id else leader) ids

-- `maxRank`
unfoldable pub max_rank : GrpMgr → List GrpId → Outcome GrpId
unfolding pick
max_rank g suspected =
    if length g.node_map.nodes == 0
    then panic
    else done (pick above suspected min_id g.node_map.proposer_ids_memoized)

-- The lowest epoch, and the nodes that have it.
unfoldable pub min_epoch : ℕ → List GrpId → ℕ
min_epoch seen [] = seen
min_epoch seen (id ∷ ids) = min_epoch (if ltb id.epoch seen then id.epoch else seen) ids

unfoldable pub with_epoch : ℕ → List GrpId → List GrpId
with_epoch e [] = []
with_epoch e (id ∷ ids) = let rest = with_epoch e ids in if id.epoch == e then id ∷ rest else rest

-- `maxRankLr`
unfoldable pub max_rank_lr : GrpMgr → List GrpId → Outcome (GrpId × GrpId)
unfolding pick min_epoch with_epoch
max_rank_lr g suspected =
    if length g.node_map.nodes == 0
    then panic
    else (let ids = g.node_map.proposer_ids_memoized in
        let oldest = with_epoch (min_epoch max_epoch ids) ids in
        done (pick above suspected min_id oldest, pick below suspected max_id oldest))

abbrev pub trust_paxos : MonarchicalLd → GrpId → MonarchicalLd × List Trust
trust_paxos ld new =
    if id_eq new ld.pleader then (ld, []) else (record ld { pleader = new }, paxos_trust new ∷ [])

abbrev pub trust_replacement : MonarchicalLd → GrpId → MonarchicalLd × List Trust
trust_replacement ld new =
    if id_eq new ld.rleader
    then (ld, [])
    else (record ld { rleader = new }, replacement_trust new ∷ [])

-- `checkPaxosLeader`
unfoldable pub check_paxos_leader : GrpMgr → MonarchicalLd → Outcome (MonarchicalLd × List Trust)
unfolding max_rank
check_paxos_leader g ld = max_rank g ld.suspected >>= λ new. done (trust_paxos ld new)

-- `checkLeadersLrAr`
unfoldable pub check_leaders_lr_ar : GrpMgr → MonarchicalLd → Outcome (MonarchicalLd × List Trust)
unfolding max_rank_lr
check_leaders_lr_ar g ld = max_rank_lr g ld.suspected >>= λ new.
    let (ld', trusts) = trust_paxos ld new.0 in
    let (ld'', more) = trust_replacement ld' new.1 in done (ld'', trusts ++ more)

-- The call through the field `checkLeaders`.
unfoldable pub check_leaders : GrpMgr → MonarchicalLd → Outcome (MonarchicalLd × List Trust)
unfolding check_paxos_leader check_leaders_lr_ar
check_leaders g ld = if ld.lr_ar then check_leaders_lr_ar g ld else check_paxos_leader g ld

-- `NewMonarchicalLD`: the first check publishes to no one.
unfoldable pub new_monarchical_ld : GrpMgr → Outcome MonarchicalLd
unfolding check_leaders
new_monarchical_ld g =
    check_leaders g (record {
      pleader = new_id (pos 0) 0;
      rleader = new_id (pos 0) 0;
      suspected = [];
      lr_ar = g.lr_enabled || g.ar_enabled;
    })
    >>= λ r. done r.0

-- `handleFdMsg`
unfoldable pub handle_fd_msg : GrpMgr → MonarchicalLd → FdMsg → Outcome (MonarchicalLd × List Trust)
unfolding check_leaders put drop
handle_fd_msg g ld (suspect id) = check_leaders g (record ld { suspected = put ld.suspected id })
handle_fd_msg g ld (restore id) = check_leaders g (record ld { suspected = drop ld.suspected id })

-- The messages of the failure detector, one after the other.
unfoldable pub handle_fd_msgs :
    GrpMgr → MonarchicalLd → List FdMsg → Outcome (MonarchicalLd × List Trust)
unfolding handle_fd_msg
handle_fd_msgs g ld [] = done (ld, [])
handle_fd_msgs g ld (m ∷ ms) =
    handle_fd_msg g ld m >>= λ r. handle_fd_msgs g r.0 ms >>= λ r'. done (r'.0, r.1 ++ r'.1)
