-- ===== src/Multipaxos/Acceptor/Runs.antt =====
-- Whole runs of the acceptor (the loop of `Start` in multipaxos/acceptor.go): any events, each with
-- the group manager as it is at that time.
use goxos.Base.{
  ℕ, ◌≤◌, ◌<◌, ◌≡◌, refl, subst, Bool, some, List, [], ◌∷◌, ◌++◌, All, All-append, All-mono,
}
use goxos.Base.Outcome.{Outcome, done, panic, diverge, ◌>>=◌}
use goxos.Grp.Id.{GrpId}
use goxos.Grp.NodeMap.{GrpMgr}
use goxos.Paxos.Round.{
  ProposerRound, RoundLe, RoundLt, RoundLe-trans, RoundLe-lt_trans, RoundLe-refl, zero_round,
}
use goxos.Paxos.Msg.{AcceptorSlot, Prepare, Promise}
use goxos.Paxos.Slots.{AcceptorSlotMap}
use goxos.Multipaxos.Acceptor.{
  MultiAcceptor, Event, Output, send, broadcast, respond, prepare, step, new_multi_acceptor,
}
use goxos.Multipaxos.Acceptor.Invariant.{Extends, Extends-refl, Extends-trans}
use goxos.Multipaxos.Acceptor.Promises.{half_word}
use goxos.Multipaxos.Acceptor.Steps.{
  IsValid, InBounds, IsOutput, IsStep, step-IsStep, IsBefore, VotesIncrease,
}

-- The rounds of the loop for a list of events; what is sent, in order.
unfoldable pub run :
    ℕ → MultiAcceptor → List (GrpMgr × Event) → Outcome (MultiAcceptor × List Output)
run limit a [] = done (a, [])
run limit a ((g, e) ∷ es) =
    step limit g a e >>= λ r. run limit r.0 es >>= λ r'. done (r'.0, r.1 ++ r'.1)

abbrev pub AllInBounds : ℕ → List (GrpMgr × Event) → Type 0
AllInBounds limit = All (λ ge. InBounds limit ge.1)

-- What every output of a run from slot map `sm` says: a learn's round is at least the round at the
-- start, and above the vote that its slot had then.
abbrev pub IsLater : AcceptorSlotMap → Output → Type 0
IsLater sm (send p dest) = Unit
IsLater sm (broadcast l) =
    RoundLe sm.rnd l.rnd × ((s : AcceptorSlot) → sm.slots l.slot ≡ some s → RoundLt s.v_rnd l.rnd)
IsLater sm (respond m) = Unit

IsLater-of_Extends : (a b : AcceptorSlotMap) (o : Output) → Extends a b → IsLater b o → IsLater a o
IsLater-of_Extends a b (send p d) x h = tt
IsLater-of_Extends a b (respond m) x h = tt
IsLater-of_Extends a b (broadcast l) x (le, above) = (
  RoundLe-trans a.rnd b.rnd l.rnd x.round_grows le,
  λ s e.
      let (s', e', grown) = x.votes_grow l.slot s e in
      RoundLe-lt_trans s.v_rnd s'.v_rnd l.rnd grown (above s' e'),
)

IsLater-of_output : (a b : AcceptorSlotMap) (o : Output) → IsOutput a b o → IsLater a o
IsLater-of_output a b (send p d) h = tt
IsLater-of_output a b (respond m) h = tt
IsLater-of_output a b (broadcast l) (le, above, now) = (le, above)

IsBefore-of_later :
    (a b : AcceptorSlotMap) (o o' : Output) → IsOutput a b o → IsLater b o' → IsBefore o o'
IsBefore-of_later a b (broadcast l) (broadcast l') (_, _, (s, stored, r, _)) (_, above) =
    λ same. rw r at (above s (rw (← same) stored))
IsBefore-of_later a b (send p d) o' h h' = tt
IsBefore-of_later a b (respond m) o' h h' = tt
IsBefore-of_later a b (broadcast l) (send p d) h h' = tt
IsBefore-of_later a b (broadcast l) (respond m) h h' = tt

VotesIncrease-of_step :
    (a b : AcceptorSlotMap) (outs rest : List Output)
    → All (IsOutput a b) outs
    → All (IsLater b) rest
    → VotesIncrease outs
    → VotesIncrease rest
    → VotesIncrease (outs ++ rest)
VotesIncrease-of_step a b [] rest h later inc inc' = inc'
VotesIncrease-of_step a b (o ∷ outs) rest h later inc inc' = (
  All-append (IsBefore o) outs rest inc.0
      (All-mono (IsLater b) (IsBefore o) rest (λ o' l. IsBefore-of_later a b o o' h.0 l) later),
  VotesIncrease-of_step a b outs rest h.1 later inc.1 inc',
)

abbrev pub IsRun : MultiAcceptor → Outcome (MultiAcceptor × List Output) → Type 0
IsRun a (done (a', outs)) =
    IsValid a' × Extends a.slots a'.slots × All (IsLater a.slots) outs × VotesIncrease outs
IsRun a panic = ⊥
IsRun a diverge = ⊥

-- A step, and then a run.
IsRun-of_step :
    (a a' : MultiAcceptor) (outs : List Output) (r : Outcome (MultiAcceptor × List Output))
    → IsStep a (done (a', outs))
    → IsRun a' r
    → IsRun a (r >>= λ r'. done (r'.0, outs ++ r'.1))
IsRun-of_step a a' outs (done (b, more)) (v, x, out, inc) (v', x', later, inc') = (
  v',
  Extends-trans a.slots a'.slots b.slots x x',
  All-append (IsLater a.slots) outs more
      (All-mono (IsOutput a.slots a'.slots) (IsLater a.slots) outs
        (λ o h. IsLater-of_output a.slots a'.slots o h) out)
      (All-mono (IsLater a'.slots) (IsLater a.slots) more
        (λ o h. IsLater-of_Extends a.slots a'.slots o x h) later),
  VotesIncrease-of_step a.slots a'.slots outs more out later inc inc',
)
IsRun-of_step a a' outs panic s h = h
IsRun-of_step a a' outs diverge s h = h

IsRun-of_outcome :
    (limit : ℕ) (a : MultiAcceptor) (o : Outcome (MultiAcceptor × List Output))
    (es : List (GrpMgr × Event))
    → IsStep a o
    → ((a' : MultiAcceptor) → IsValid a' → IsRun a' (run limit a' es))
    → IsRun a (o >>= λ r. run limit r.0 es >>= λ r'. done (r'.0, r.1 ++ r'.1))
IsRun-of_outcome limit a (done (a', outs)) es s h =
    IsRun-of_step a a' outs (run limit a' es) s (h a' s.0)
IsRun-of_outcome limit a panic es s h = s
IsRun-of_outcome limit a diverge es s h = s

-- From a valid acceptor, under any events where accepts name slots below half of the words and
-- prepares slots at most the length of a slice that the runtime can allocate: no panic, no endless
-- loop; the acceptor stays valid; its round never falls and no vote is forgotten; no learn has a
-- round below the one it started with, or at or below a vote that the slot had; and its learns for
-- one slot come in strictly increasing rounds, so it never votes twice in one round of a slot.
pub run-IsRun :
    (limit : ℕ) (es : List (GrpMgr × Event)) (a : MultiAcceptor)
    → IsValid a
    → AllInBounds limit es
    → IsRun a (run limit a es)
unfolding run
run-IsRun limit [] a v b = (v, Extends-refl a.slots, tt, tt)
run-IsRun limit ((g, e) ∷ es) a v b =
    IsRun-of_outcome limit a (step limit g a e) es (step-IsStep limit g a e v b.0)
      (λ a' v'. run-IsRun limit es a' v' b.1)

-- A new acceptor is valid, if the first slot that it is to vote on is below half of the words.
pub new_multi_acceptor-IsValid :
    (id : GrpId) (run_acc : Bool) (leader : GrpId) (next_expected_dcd : ℕ) (g : GrpMgr)
    → next_expected_dcd < half_word
    → IsValid (new_multi_acceptor id run_acc leader next_expected_dcd g)
unfolding new_multi_acceptor
new_multi_acceptor-IsValid id run_acc leader next g h = record {
  slots_valid = record { stored = λ k s e. cc; above_zero = RoundLe-refl zero_round };
  room = h;
}

-- An output does not go back on a promise of round `r`.
abbrev pub AtLeast : ProposerRound → Output → Type 0
AtLeast r (send p dest) = Unit
AtLeast r (broadcast l) = RoundLe r l.rnd
AtLeast r (respond m) = Unit

AtLeast-of_later : (sm : AcceptorSlotMap) (o : Output) → IsLater sm o → AtLeast sm.rnd o
AtLeast-of_later sm (send p dest) h = tt
AtLeast-of_later sm (broadcast l) h = h.0
AtLeast-of_later sm (respond m) h = tt

outs-AtLeast :
    (a : MultiAcceptor) (o : Outcome (MultiAcceptor × List Output))
    → IsRun a o
    → (b : MultiAcceptor) × (outs : List Output) × (o ≡ done (b, outs))
      × All (AtLeast a.slots.rnd) outs
outs-AtLeast a (done (b, outs)) h = (
  b,
  outs,
  refl,
  All-mono (IsLater a.slots) (AtLeast a.slots.rnd) outs (λ o l. AtLeast-of_later a.slots o l) h.2,
)
outs-AtLeast a panic h = absurd h
outs-AtLeast a diverge h = absurd h

-- A promise is kept: once a valid acceptor has answered a prepare by a promise of round r, any
-- further run of it (where accepts name slots below half of the words and prepares, the first one
-- too, slots at most the length of a slice that the runtime can allocate) ends, and votes only in
-- rounds from r on.
pub promise_kept :
    (limit : ℕ) (g : GrpMgr) (a a' : MultiAcceptor) (msg : Prepare) (p : Promise) (dest : GrpId)
    (es : List (GrpMgr × Event))
    → IsValid a
    → msg.slot ≤ limit
    → AllInBounds limit es
    → step limit g a (prepare msg) ≡ done (a', send p dest ∷ [])
    → (b : MultiAcceptor) × (outs : List Output) × (run limit a' es ≡ done (b, outs))
      × All (AtLeast p.rnd) outs
promise_kept limit g a a' msg p dest es v low b h =
    let (v', _, (rnd, _), _) = subst (IsStep a) h (step-IsStep limit g a (prepare msg) v low) in
    let (c, outs, ends, above) = outs-AtLeast a' (run limit a' es) (run-IsRun limit es a' v' b) in
    (c, outs, ends, rw rnd above)
