-- ===== src/Multipaxos/Proposer/PhaseTwo.antt =====
-- Phase two of the proposer (multipaxos/proposer.go): sending and resending accepts.
use goxos.Base.{
  ℕ, zero, suc, ◌+◌, ◌-◌, ◌%◌, Bool, true, false, ◌&&◌, Option, none, some, List, [], ◌∷◌, ◌++◌,
  ltb, leb, if◌then◌else◌, inc, add_uint, sub_uint, for_range,
}
use goxos.Base.Outcome.{Outcome, done, diverge, ◌>>=◌}
use goxos.Grp.Id.{id_eq}
use goxos.Grp.NodeMap.{GrpMgr}
use goxos.Paxos.Value.{Value}
use goxos.Paxos.Msg.{Accept}
use goxos.Paxos.Slots.{ProposerSlot, ProposerSlotMap, get_proposer_slot, put_proposer_slot}
use goxos.Multipaxos.Proposer.{
  MultiProposer, Output, bcast_accept, reset_phase_two_timer, start_phase_one,
}

-- `inAlphaRange`
abbrev pub in_alpha_range : ℕ → ℕ → ℕ → Bool
in_alpha_range next_slot adu alpha = leb next_slot (add_uint adu alpha)

-- `isLeaderAndPhaseOneComplete`
abbrev pub is_leader_and_phase_one_complete : MultiProposer → Bool
is_leader_and_phase_one_complete p = id_eq p.leader p.id && p.phase_one_done

-- The accept for a slot and a value.
abbrev pub accept_for : MultiProposer → ProposerSlot → Value → Accept
accept_for p slot val = record { id = p.id; rnd = p.crnd; slot = slot.id; val = val }

-- The value for a slot, and the queue that is left: the slot's proposal, or the front of the queue.
unfoldable pub pick_value : Option Accept → List Value → Option (Value × List Value)
pick_value (some a) queue = some (a.val, queue)
pick_value none [] = none
pick_value none (v ∷ queue) = some (v, queue)

-- `ns := p.slots.GetSlot(p.nextSlot); acc := p.genAccept(ns)`
unfoldable pub gen_accept : MultiProposer → MultiProposer × Option Accept
unfolding get_proposer_slot pick_value
gen_accept p =
    let (sm, slot) = get_proposer_slot p.slots p.next_slot in
    elim (pick_value slot.proposal p.req_queue) [
      | none ↦ (record p { slots = sm }, none)
      | some (val, queue) ↦
          let acc = accept_for p slot val in
          (
            record p {
              slots = put_proposer_slot sm p.next_slot (record slot { proposal = some acc });
              req_queue = queue;
            },
            some acc,
          )
    ]

-- `sendAccept`, on fuel.
unfoldable pub send_accept : ℕ → MultiProposer → Outcome (MultiProposer × List Output)
send_accept zero p = diverge
send_accept (suc fuel) p = elim (in_alpha_range p.next_slot p.adu p.alpha) [
  | false ↦ done (p, [])
  | true ↦
      let (q, acc) = gen_accept p in
      elim acc [
        | none ↦ done (q, [])
        | some a ↦ send_accept fuel (record q { next_slot = inc q.next_slot }) >>= λ r.
            done (r.0, bcast_accept a ∷ reset_phase_two_timer ∷ r.1)
      ]
]

-- The fuel covers every slot up to the end of the window.
unfoldable pub send_accepts : MultiProposer → Outcome (MultiProposer × List Output)
unfolding send_accept gen_accept
send_accepts p = send_accept (add_uint p.adu p.alpha + 2) p

-- `advanceAdu`
abbrev pub advance_adu : MultiProposer → MultiProposer
advance_adu p = record p { adu = inc p.adu }

-- `resendsBeforeRestartingPhaseOne`
abbrev pub resends_before_restarting_phase_one : ℕ
resends_before_restarting_phase_one = 10

-- `hasReachedResendThreshold`
unfoldable pub has_reached_resend_threshold : ProposerSlotMap → ℕ → ProposerSlotMap × Bool
unfolding get_proposer_slot
has_reached_resend_threshold slots slot =
    let (sm, s) = get_proposer_slot slots slot in
    (sm, leb resends_before_restarting_phase_one s.sent_count)

-- `incrementSentCountFor`; the counter is a `uint8`.
unfoldable pub increment_sent_count_for : ProposerSlotMap → ℕ → ProposerSlotMap
unfolding get_proposer_slot
increment_sent_count_for slots slot =
    let (sm, s) = get_proposer_slot slots slot in
    put_proposer_slot sm slot (record s { sent_count = (s.sent_count + 1) % 256 })

-- `resendAccept`
unfoldable pub resend_accept : GrpMgr → Option Accept → MultiProposer → MultiProposer × List Output
unfolding has_reached_resend_threshold increment_sent_count_for start_phase_one
resend_accept g none p = (p, [])
resend_accept g (some acc) p =
    let (sm, reached) = has_reached_resend_threshold p.slots acc.slot in
    if reached then start_phase_one g false (record p { slots = sm }) else (
      record p { slots = increment_sent_count_for sm acc.slot },
      bcast_accept acc ∷ reset_phase_two_timer ∷ [],
    )

-- The body of the loop of `resendAcceptsIfNecessary`.
unfoldable pub resend_slot : GrpMgr → ℕ → MultiProposer × List Output → MultiProposer × List Output
unfolding get_proposer_slot resend_accept
resend_slot g i (p, outs) =
    let (sm, slot) = get_proposer_slot p.slots i in
    let (q, more) = resend_accept g slot.proposal (record p { slots = sm }) in (q, outs ++ more)

-- `resendAcceptsIfNecessary`. The body changes neither end of the loop.
unfoldable pub resend_accepts_if_necessary : GrpMgr → MultiProposer → MultiProposer × List Output
unfolding resend_slot for_range
resend_accepts_if_necessary g p =
    if is_leader_and_phase_one_complete p
    then for_range (p.next_slot - inc p.adu) (inc p.adu) (resend_slot g) (p, [])
    else (p, [])

-- `SetNextSlot`
unfoldable pub set_next_slot : MultiProposer → ℕ → MultiProposer
set_next_slot p ns =
    if ltb (add_uint ns p.alpha) p.next_slot
    then record p { next_slot = sub_uint p.next_slot p.alpha }
    else record p { next_slot = ns }
