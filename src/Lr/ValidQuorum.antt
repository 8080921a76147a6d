-- ===== src/Lr/ValidQuorum.antt =====
-- Valid quorums. The source has the same code three times: for learns and for promises
-- (multipaxos/vq.go), and for epoch promises (lr/vq.go). Here it stands once, over a message's
-- sender and epoch vector.
use goxos.Base.{
  ℕ, zero, suc, ◌+◌, Bool, true, false, ◌||◌, List, [], ◌∷◌, ltb, ◌==◌, length, get_elem?,
  if◌then◌else◌, eqb_ℤ, index,
}
use goxos.Base.Outcome.{Outcome, done, diverge, ◌>>=◌, or_panic}
use goxos.Grp.Id.{GrpId}
use goxos.Lr.Comb.{CombinationIterator, new_combination_iterator, has_next, next}

module _ {A : Type 0} (id_of : A → GrpId) (epochs_of : A → List ℕ) where
  -- `lrnConflict`, `promiseConflict`, `epConflict`
  unfoldable pub conflict : A → A → Outcome Bool
  conflict a b =
      if eqb_ℤ (id_of a).paxos_id (id_of b).paxos_id
      then done true
      else (or_panic (index (epochs_of b) (id_of a).paxos_id) >>= λ e.
          if ltb (id_of a).epoch e
          then done true
          else (or_panic (index (epochs_of a) (id_of b).paxos_id) >>= λ e'.
              done (ltb (id_of b).epoch e')))

  -- The inner loop: `msgs[indices[i]]` against the messages of the later indices.
  unfoldable pub check_against : List A → ℕ → List ℕ → Outcome Bool
  unfolding conflict
  check_against msgs i [] = done true
  check_against msgs i (j ∷ js) = do
    a ← or_panic (get_elem? msgs i)
    b ← or_panic (get_elem? msgs j)
    c ← conflict a b
    let rest = check_against msgs i js
    if c then done false else rest

  -- `checkCombinationLrn`, `checkCombinationPromises`, `checkCombination`
  unfoldable pub check_combination : List A → List ℕ → Outcome Bool
  unfolding check_against
  check_combination msgs [] = done true
  check_combination msgs (i ∷ is) = do
    fits ← check_against msgs i is
    let rest = check_combination msgs is
    if fits then rest else done false

  -- The loop over the combinations, on fuel.
  unfoldable pub find_combination : ℕ → List A → CombinationIterator → Outcome (Bool × List ℕ)
  unfolding check_combination next
  find_combination zero msgs ci = diverge
  find_combination (suc fuel) msgs ci = elim (has_next ci) [
    | false ↦ done (false, [])
    | true ↦ check_combination msgs ci.s >>= λ fits. elim fits [
      | true ↦ done (true, ci.s)
      | false ↦ next ci >>= λ ci'. find_combination fuel msgs ci'
    ]
  ]

  -- `extractVqLearns`, `extractVqPromises`, `extractValidQuorumEp`: whether there is a valid quorum,
  -- and the indices of its messages.
  unfoldable pub extract_vq : List A → ℕ → Outcome (Bool × List ℕ)
  unfolding find_combination new_combination_iterator
  extract_vq msgs quorum_size =
      if length msgs == 0 || ltb (length msgs) quorum_size
      then done (false, [])
      else (let ci = new_combination_iterator (length msgs) quorum_size in
          find_combination (ci.c + 1) msgs ci)
