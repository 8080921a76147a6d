-- ===== src/Batchpaxos/Pending.antt =====
-- The states of batches (batchpaxos/quorum.go): reading after writing, and how many batches are
-- still to be executed.
use goxos.Base.{
  ℕ, suc, ◌+◌, ◌≤◌, ◌≡◌, refl, sym, ap, ◌∙◌, Bool, true, false, not, ◌&&◌, List, [], ◌∷◌, ◌==◌,
  if◌then◌else◌, arith, Bool-cases, inl, inr, length,
}
use goxos.Batchpaxos.Quorum.{BatchState, state_at, set_state}

-- `state.Execute && !state.Executed`
abbrev pub is_ready : BatchState → Bool
is_ready state = state.execute && not state.executed

abbrev pub done_state : BatchState → BatchState
done_state state = record state { executed = true }

pub state_at-set_state :
    (states : List (ℕ × BatchState)) (k j : ℕ) (new : BatchState)
    → state_at (set_state states k new) j ≡ (if k == j then new else state_at states j)
unfolding state_at set_state
state_at-set_state [] k j new = refl
state_at-set_state ((i, state) ∷ states) k j new = elim (Bool-cases (i == k)) [
  | inl same ↦ ground arith
  | inr other ↦ ground (arith, state_at-set_state states k j new)
]

-- How many batches are still to be executed.
unfoldable pub pending : List (ℕ × BatchState) → ℕ
pending [] = 0
pending ((j, state) ∷ states) = if is_ready state then suc (pending states) else pending states

pub pending-le-length : (states : List (ℕ × BatchState)) → pending states ≤ length states
unfolding pending
pending-le-length [] = omega arith
pending-le-length ((j, state) ∷ states) = ground (arith, pending-le-length states)

pending-cons :
    (j : ℕ) (state : BatchState) (states : List (ℕ × BatchState)) (b : Bool)
    → is_ready state ≡ b
    → pending ((j, state) ∷ states) ≡ (if b then suc (pending states) else pending states)
unfolding pending
pending-cons j state states b h = ap (λ x. if x then suc (pending states) else pending states) h

pub pending-set_state :
    (states : List (ℕ × BatchState)) (k : ℕ) (new : BatchState)
    → is_ready (state_at states k) ≡ true
    → is_ready new ≡ false
    → pending (set_state states k new) + 1 ≡ pending states
unfolding state_at set_state
pending-set_state [] k new h f = ground arith
pending-set_state ((i, state) ∷ states) k new h f = elim (Bool-cases (i == k)) [
  | inl same ↦
      let ready : is_ready state ≡ true =
        ap (λ b. is_ready (if b then state else state_at states k)) (sym same) ∙ h in
      rw (same, pending-cons k new states false f, pending-cons i state states true ready)
        (omega arith)
  | inr other ↦
      let ready : is_ready (state_at states k) ≡ true =
        ap (λ b. is_ready (if b then state else state_at states k)) (sym other) ∙ h in
      rw (other) (kept (is_ready state) refl (pending-set_state states k new ready f))
]
  where
    kept :
        (b : Bool)
        → is_ready state ≡ b
        → pending (set_state states k new) + 1 ≡ pending states
        → pending ((i, state) ∷ set_state states k new) + 1 ≡ pending ((i, state) ∷ states)
    kept true r e =
        rw
          (pending-cons i state (set_state states k new) true r, pending-cons i state states true r)
          (omega (arith, e))
    kept false r e =
        rw
          (
            pending-cons i state (set_state states k new) false r,
            pending-cons i state states false r,
          )
          e
