-- ===== src/Multipaxos/Proposer/Sending.antt =====
-- What `sendAccept` of the proposer sends (multipaxos/proposer.go): the slots of the alpha window,
-- in order, each once.
use goxos.Base.{
  ℕ, zero, suc, ◌+◌, ◌-◌, ◌≡◌, inl, inr, refl, ◌∙◌, ap, true, Option, none, some, List, [], ◌∷◌,
  ◌≤◌, ◌<◌, arith, Bool-cases, add_uint, inc, uint_mod,
}
use goxos.Base.Outcome.{Outcome, done, ◌>>=◌}
use goxos.Paxos.Msg.{Accept}
use goxos.Multipaxos.Proposer.{MultiProposer, Output, bcast_accept, reset_phase_two_timer}
use goxos.Multipaxos.Proposer.PhaseTwo.{in_alpha_range, gen_accept, send_accept, send_accepts}
use goxos.Multipaxos.Proposer.Accepts.{
  accepts_of, Keyed, new_values, Sends, looked, accept_next, proposed, went_on, gen_accept-cases,
  looked-Keyed, went_on-Keyed, proposal_of-looked, IsAcceptFor-next, Sends-of_next,
}

-- What `send_accept` does with the result of `genAccept`.
after_gen : ℕ → MultiProposer × Option Accept → Outcome (MultiProposer × List Output)
after_gen fuel (q, none) = done (q, [])
after_gen fuel (q, some a) = send_accept fuel (record q { next_slot = inc q.next_slot }) >>= λ r.
    done (r.0, bcast_accept a ∷ reset_phase_two_timer ∷ r.1)

after_gen-done :
    (fuel : ℕ) (q : MultiProposer) (a : Accept) (r : MultiProposer × List Output)
    → send_accept fuel (record q { next_slot = inc q.next_slot }) ≡ done r
    → after_gen fuel (q, some a) ≡ done (r.0, bcast_accept a ∷ reset_phase_two_timer ∷ r.1)
unfolding after_gen
after_gen-done fuel q a r e = rw e refl

send_accept-suc :
    (fuel : ℕ) (p : MultiProposer) (r : MultiProposer × Option Accept)
    → in_alpha_range p.next_slot p.adu p.alpha ≡ true
    → gen_accept p ≡ r
    → send_accept (suc fuel) p ≡ after_gen fuel r
unfolding send_accept after_gen
send_accept-suc fuel p r within e = rw (within, send_accept) (ap (after_gen fuel) e)

send_accept-Sends :
    (fuel : ℕ) (p : MultiProposer)
    → p.adu + p.alpha + 1 < uint_mod
    → Keyed p.slots
    → (p.adu + p.alpha + 1) - p.next_slot < fuel
    → (q : MultiProposer) × (outs : List Output) × (send_accept fuel p ≡ done (q, outs))
      × Sends p q outs
unfolding send_accept accepts_of after_gen new_values
send_accept-Sends zero p top keyed f = absurd (omega arith)
send_accept-Sends (suc fuel) p top keyed f =
    elim (Bool-cases (in_alpha_range p.next_slot p.adu p.alpha)) [
      | inr out ↦ (
        p,
        [],
        rw (out, send_accept) refl,
        record {
          moves_on = omega arith;
          each = λ i a e. cc;
          taken = refl;
          stops = inl (ground arith);
          keyed = keyed;
        },
      )
      | inl within ↦ elim (gen_accept-cases p) [
        | inl (no_proposal, no_value, e) ↦ (
          looked p,
          [],
          send_accept-suc fuel p (looked p, none) within e,
          record {
            moves_on = omega arith;
            each = λ i a e. cc;
            taken = refl;
            stops = inr (proposal_of-looked p p.next_slot ∙ no_proposal, no_value);
            keyed = looked-Keyed p keyed;
          },
        )
        | inr (val, rest, e, of_proposal, queue) ↦
            let room : p.next_slot ≤ p.adu + p.alpha = ground arith in
            let (q, outs, run, h) =
              send_accept-Sends fuel (went_on p val rest) top (went_on-Keyed p val rest keyed)
                (omega arith) in
            (
              q,
              bcast_accept (accept_next p val) ∷ reset_phase_two_timer ∷ outs,
              send_accept-suc fuel p (proposed p val rest, some (accept_next p val)) within e
                  ∙ after_gen-done fuel (proposed p val rest) (accept_next p val) (q, outs) run,
              Sends-of_next p q val rest outs (omega arith) queue
                  (IsAcceptFor-next p val keyed room of_proposal) h,
            )
      ]
    ]

-- A call of `sendAccept` ends, while the window ends below the last word and slots are stored under
-- their ids. It broadcasts an accept
-- for each slot from `nextSlot` on, in order and each once, all within `alpha` slots above `adu`,
-- in the proposer's round; a slot that has a proposal is sent with the proposal's value, and the
-- values of the other slots, in their order, are the front of the queue, which they leave. It stops only at the end of the window, or at
-- a slot without a proposal when the queue is empty.
pub send_accepts-Sends :
    (p : MultiProposer)
    → p.adu + p.alpha + 1 < uint_mod
    → Keyed p.slots
    → (q : MultiProposer) × (outs : List Output) × (send_accepts p ≡ done (q, outs))
      × Sends p q outs
unfolding send_accepts
send_accepts-Sends p top keyed =
    send_accept-Sends (add_uint p.adu p.alpha + 2) p top keyed (omega arith)
