-- ===== src/Multipaxos/Acceptor/Promises.antt =====
-- What a promise carries (the prepare handlers of multipaxos/acceptor.go).
use goxos.Base.{
  replicate, sub_uint, leb, ℕ, zero, suc, ◌+◌, ◌-◌, ◌≡◌, ◌⊎◌, inl, inr, refl, sym, ◌∙◌, none, some,
  List, [], ◌∷◌, ◌++◌, ◌≤◌, ◌<◌, arith, ltb, Bool-cases, for_range, for_range_inv, uint_mod,
  for_upto-for_range, if◌then◌else◌,
}
use mathlib.Core.List.{append-nil, append_assoc}
use goxos.Base.Outcome.{done, panic}
use goxos.Paxos.Round.{ProposerRound, compare_round, is_ge, RoundLe, RoundLt, compare_round-flip}
use goxos.Paxos.Msg.{AcceptorSlot, new_acceptor_slot, Prepare, Promise}
use goxos.Paxos.Slots.{AcceptorSlotMap, get_acceptor_slot, acceptor_slot_of}
use goxos.Multipaxos.Acceptor.{
  MultiAcceptor, Scan, has_voted, collect_slot, make_slots, is_ahead, make_acc_slots, collect,
  answer_prepare,
}
use goxos.Multipaxos.Acceptor.Invariant.{
  SlotsValid, Extends, Extends-refl, Extends-trans, get-SlotsValid, get-Extends,
}

-- The slots with a vote among the `n` slots from `i` on, read off the map.
unfoldable pub votes_from : AcceptorSlotMap → ℕ → ℕ → List AcceptorSlot
votes_from sm zero i = []
votes_from sm (suc n) i =
    let rest = votes_from sm n (i + 1) in
    let slot = acceptor_slot_of sm.slots i in if has_voted slot then slot ∷ rest else rest

-- `GetSlot` changes no slot that can be read.
acceptor_slot_of-get :
    (sm : AcceptorSlotMap) (i j : ℕ)
    → acceptor_slot_of (get_acceptor_slot sm i).0.slots j ≡ acceptor_slot_of sm.slots j
unfolding get_acceptor_slot
acceptor_slot_of-get sm i j = ground arith

votes_from-get :
    (sm : AcceptorSlotMap) (k n i : ℕ)
    → votes_from (get_acceptor_slot sm k).0 n i ≡ votes_from sm n i
unfolding votes_from
votes_from-get sm k zero i = refl
votes_from-get sm k (suc n) i = rw (acceptor_slot_of-get sm k i, votes_from-get sm k n (i + 1))

-- One round of the loop appends the slot if it has a vote.
collect_slot-append :
    (i : ℕ) (sc : Scan) (ys : List AcceptorSlot)
    → (collect_slot i sc).acc_slots ++ ys
      ≡ sc.acc_slots
        ++ (if has_voted (acceptor_slot_of sc.slots.slots i)
            then acceptor_slot_of sc.slots.slots i ∷ ys
            else ys)
unfolding collect_slot
collect_slot-append i sc ys =
    let slot = acceptor_slot_of sc.slots.slots i in
    ground (arith, append_assoc sc.acc_slots (slot ∷ []) ys)

collect_slot-slots :
    (i : ℕ) (sc : Scan) → (collect_slot i sc).slots ≡ (get_acceptor_slot sc.slots i).0
unfolding collect_slot
collect_slot-slots i sc = refl

-- The loop appends exactly those.
scan-votes_from :
    (n i : ℕ) (sc : Scan)
    → (for_range n i collect_slot sc).acc_slots ≡ sc.acc_slots ++ votes_from sc.slots n i
unfolding for_range votes_from
scan-votes_from zero i sc = sym (append-nil sc.acc_slots)
scan-votes_from (suc n) i sc =
    scan-votes_from n (i + 1) (collect_slot i sc)
    ∙ rw (collect_slot-slots i sc, votes_from-get sc.slots i n (i + 1))
        (collect_slot-append i sc (votes_from sc.slots n (i + 1)))

-- The loop leaves the map as it can be read: only slots without a vote are made.
pub record ScanKeeps (sm sm' : AcceptorSlotMap) : Type 0 where
  pub keeps : SlotsValid sm → SlotsValid sm'
  pub extends : Extends sm sm'
  pub same_rnd : sm'.rnd ≡ sm.rnd
  pub same_max : sm'.max_seen ≡ sm.max_seen
  pub reads : (j : ℕ) → acceptor_slot_of sm'.slots j ≡ acceptor_slot_of sm.slots j

get-ScanKeeps :
    (sm : AcceptorSlotMap) (i : ℕ) → i ≤ sm.max_seen → ScanKeeps sm (get_acceptor_slot sm i).0
unfolding get_acceptor_slot
get-ScanKeeps sm i h = record {
  keeps = get-SlotsValid sm i;
  extends = get-Extends sm i;
  same_rnd = refl;
  same_max = ground arith;
  reads = acceptor_slot_of-get sm i;
}

ScanKeeps-trans : (a b c : AcceptorSlotMap) → ScanKeeps a b → ScanKeeps b c → ScanKeeps a c
ScanKeeps-trans a b c f g = record {
  keeps = λ v. g.keeps (f.keeps v);
  extends = Extends-trans a b c f.extends g.extends;
  same_rnd = g.same_rnd ∙ f.same_rnd;
  same_max = g.same_max ∙ f.same_max;
  reads = λ j. g.reads j ∙ f.reads j;
}

ScanKeeps-refl : (sm : AcceptorSlotMap) → ScanKeeps sm sm
ScanKeeps-refl sm = record {
  keeps = λ v. v;
  extends = Extends-refl sm;
  same_rnd = refl;
  same_max = refl;
  reads = λ j. refl;
}

scan-ScanKeeps :
    (sc : Scan) (n i : ℕ)
    → i + n ≤ sc.slots.max_seen + 1
    → ScanKeeps sc.slots (for_range n i collect_slot sc).slots
scan-ScanKeeps sc n i h =
    for_range_inv (λ k (s : Scan). ScanKeeps sc.slots s.slots) collect_slot n i (i + n) sc refl
      (λ k s lo hi p.
        ScanKeeps-trans sc.slots s.slots (collect_slot k s).slots p
          (rw (collect_slot-slots k s) (get-ScanKeeps s.slots k (rw p.same_max (omega arith)))))
      (ScanKeeps-refl sc.slots)

-- The slice that the loop starts from, where it can be allocated.
unfoldable pub initial_acc_slots : ℕ → ℕ → List AcceptorSlot
initial_acc_slots slot max =
    if is_ahead slot max then replicate (sub_uint slot max) (new_acceptor_slot 0) else []

-- Half of the words: an `int` is not negative below it.
abbrev pub half_word : ℕ
half_word = 9223372036854775808

-- The runtime can allocate the slice: a prepare's slot is not too far ahead of the highest one.
abbrev pub Allocates : ℕ → ℕ → ℕ → Type 0
Allocates limit slot max = sub_uint slot max < half_word → sub_uint slot max ≤ limit

make_acc_slots-cases :
    (limit slot max : ℕ)
    → (Allocates limit slot max
        × (make_acc_slots limit slot max ≡ done (initial_acc_slots slot max)))
      ⊎ ((sub_uint slot max < half_word)
          × (limit < sub_uint slot max)
          × (make_acc_slots limit slot max ≡ panic))
unfolding make_acc_slots make_slots initial_acc_slots
make_acc_slots-cases limit slot max = elim (Bool-cases (is_ahead slot max)) [
  | inl ahead ↦ elim (Bool-cases (leb (sub_uint slot max) limit)) [
    | inl fits ↦ inl (λ _. ground arith, rw (ahead, fits) refl)
    | inr big ↦ inr (ground arith, ground arith, rw (ahead, big) refl)
  ]
  | inr behind ↦ inl (λ h. ground arith, rw behind refl)
]

-- The state of the loop before its first round.
abbrev pub scan_start : MultiAcceptor → Prepare → Scan
scan_start a msg = record {
  slots = record a.slots { rnd = msg.c_rnd };
  acc_slots = initial_acc_slots msg.slot a.slots.max_seen;
}

-- The state after its last.
abbrev pub scan_end : MultiAcceptor → Prepare → Scan
scan_end a msg =
    for_range ((a.slots.max_seen + 1) - msg.slot) msg.slot collect_slot (scan_start a msg)

abbrev pub promise_of : List ℕ → MultiAcceptor → Prepare → Promise
promise_of ev a msg = record {
  id = a.id;
  rnd = msg.c_rnd;
  acc_slots =
      initial_acc_slots msg.slot a.slots.max_seen
      ++ votes_from a.slots ((a.slots.max_seen + 1) - msg.slot) msg.slot;
  epoch_vector = ev;
}

votes_from_raised :
    (sm : AcceptorSlotMap) (r : ProposerRound) (n i : ℕ)
    → votes_from (record sm { rnd = r }) n i ≡ votes_from sm n i
unfolding votes_from
votes_from_raised sm r zero i = refl
votes_from_raised sm r (suc n) i = rw (votes_from_raised sm r n (i + 1))

pub scan_end-ScanKeeps :
    (a : MultiAcceptor) (msg : Prepare)
    → ScanKeeps (record a.slots { rnd = msg.c_rnd }) (scan_end a msg).slots
scan_end-ScanKeeps a msg = elim (Bool-cases (ltb a.slots.max_seen msg.slot)) [
  | inl above ↦
      let none_left : (a.slots.max_seen + 1) - msg.slot ≡ 0 = ground arith in
      rw none_left (unfold for_range in ScanKeeps-refl (record a.slots { rnd = msg.c_rnd }))
  | inr below ↦
      scan-ScanKeeps (scan_start a msg) ((a.slots.max_seen + 1) - msg.slot) msg.slot (ground arith)
]

collect-cases :
    (limit : ℕ) (a : MultiAcceptor) (msg : Prepare)
    → a.slots.max_seen + 1 < uint_mod
    → (Allocates limit msg.slot a.slots.max_seen
        × (collect limit (record a.slots { rnd = msg.c_rnd }) msg.slot ≡ done (scan_end a msg)))
      ⊎ ((sub_uint msg.slot a.slots.max_seen < half_word)
          × (limit < sub_uint msg.slot a.slots.max_seen)
          × (collect limit (record a.slots { rnd = msg.c_rnd }) msg.slot ≡ panic))
unfolding collect
collect-cases limit a msg top = elim (make_acc_slots-cases limit msg.slot a.slots.max_seen) [
  | inr (ahead, big, e) ↦ inr (ahead, big, rw e refl)
  | inl (fits, e) ↦ inl (
    fits,
    rw e (
        for_upto-for_range ((a.slots.max_seen + 1) - msg.slot) (a.slots.max_seen + 2) msg.slot
          a.slots.max_seen collect_slot (scan_start a msg) top refl (omega arith)),
  )
]

scan_end-acc_slots :
    (ev : List ℕ) (a : MultiAcceptor) (msg : Prepare)
    → (scan_end a msg).acc_slots ≡ (promise_of ev a msg).acc_slots
scan_end-acc_slots ev a msg =
    let n = (a.slots.max_seen + 1) - msg.slot in
    scan-votes_from n msg.slot (scan_start a msg)
    ∙ rw (votes_from_raised a.slots msg.c_rnd n msg.slot)

-- What `answer_prepare` comes to: no reply, a promise, or a panic of `make`.
abbrev pub AnswerWays : ℕ → List ℕ → MultiAcceptor → Prepare → Type 0
AnswerWays limit ev a msg =
    (RoundLe msg.c_rnd a.slots.rnd × (answer_prepare limit ev a msg ≡ done (a, none)))
    ⊎ (RoundLt a.slots.rnd msg.c_rnd
        × ((Allocates limit msg.slot a.slots.max_seen
              × (answer_prepare limit ev a msg
                  ≡ done (
                    record a { slots = (scan_end a msg).slots },
                    some (promise_of ev a msg, msg.id),
                  )))
            ⊎ ((sub_uint msg.slot a.slots.max_seen < half_word)
                × (limit < sub_uint msg.slot a.slots.max_seen)
                × (answer_prepare limit ev a msg ≡ panic))))

pub answer_prepare-cases :
    (limit : ℕ) (ev : List ℕ) (a : MultiAcceptor) (msg : Prepare)
    → a.slots.max_seen + 1 < uint_mod
    → AnswerWays limit ev a msg
unfolding answer_prepare
answer_prepare-cases limit ev a msg top =
    let r = a.slots.rnd in
    elim (Bool-cases (is_ge (compare_round r msg.c_rnd))) [
      | inl old ↦ inl (λ g. ground (arith, compare_round-flip r msg.c_rnd), ground arith)
      | inr new ↦ inr (
        ground arith,
        elim (collect-cases limit a msg top) [
          | inl (fits, e) ↦ inl (
            fits,
            rw (new, answer_prepare)
                (rw e (rw ((scan_end-ScanKeeps a msg).same_rnd, scan_end-acc_slots ev a msg))),
          )
          | inr (ahead, big, e) ↦ inr (ahead, big, rw (new, answer_prepare) (rw e refl))
        ],
      )
    ]
