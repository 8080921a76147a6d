-- ===== src/Base/Loops.antt =====
-- Counted loops over `uint` counters.
use Prim.Native.Nat.{ℕ, zero, suc, ◌+◌, ◌-◌, ◌≤◌, ◌<◌}
use mathlib.Core.Path.{◌≡◌, refl, subst}
use mathlib.Core.Bool.{true, false}
use native.Mathlib.Omega.{arith}
use goxos.Base.Tests.{leb, inc, uint_mod}
use goxos.Base.Outcome.{Outcome, done, diverge}

-- `for k := start; k < start + count; k++ { state = round(k, state) }`, where `start + count` fits
-- the word: a test by `<` ends such a loop before its counter can wrap.
unfoldable pub for_range {ℓ} :
    {State : Type ℓ} (count start : ℕ) → (ℕ → State → State) → State → State
for_range zero start round state = state
for_range (suc count) start round state = for_range count (start + 1) round (round start state)

-- What the start has, and every round keeps, the end has. The end is a variable with an equation.
pub for_range_inv {ℓ κ} :
    {State : Type ℓ} (Inv : ℕ → State → Type κ) (round : ℕ → State → State) (count start stop : ℕ)
    → (state : State) → start + count ≡ stop
    → ((at : ℕ) (now : State) → start ≤ at → at < stop → Inv at now → Inv (at + 1) (round at now))
    → Inv start state
    → Inv stop (for_range count start round state)
unfolding for_range
for_range_inv Inv round zero start stop state e keeps first =
    let at_end : start ≡ stop = omega arith in subst (λ k. Inv k state) at_end first
for_range_inv Inv round (suc count) start stop state e keeps first =
    for_range_inv Inv round count (start + 1) stop (round start state) (omega arith)
      (λ at now low high held. keeps at now (omega arith) high held)
      (keeps start state (omega arith) (omega arith) first)

-- `for k := i; k <= max; k++ { s = body(k, s) }` on fuel: the counter wraps at 2 ^ 64.
unfoldable pub for_upto {ℓ} : {S : Type ℓ} → ℕ → ℕ → ℕ → (ℕ → S → S) → S → Outcome S
for_upto zero i max body s = diverge
for_upto (suc fuel) i max body s = elim (leb i max) [
  | true ↦ for_upto fuel (inc i) max body (body i s)
  | false ↦ done s
]

-- Below the last word the loop ends, and runs the body for `i`, `i + 1`, …, `max`.
pub for_upto-for_range {ℓ} :
    {S : Type ℓ} (n fuel i max : ℕ) (body : ℕ → S → S) (s : S)
    → max + 1 < uint_mod
    → (max + 1) - i ≡ n
    → n < fuel
    → for_upto fuel i max body s ≡ done (for_range n i body s)
unfolding for_upto for_range
for_upto-for_range n zero i max body s top e f = absurd (omega arith)
for_upto-for_range zero (suc fuel) i max body s top e f = ground arith
for_upto-for_range (suc n) (suc fuel) i max body s top e f =
    let e' : inc i ≡ i + 1 = omega arith in
    ground (
      arith,
      e',
      for_upto-for_range n fuel (i + 1) max body (body i s) top (omega arith) (omega arith),
    )

-- At the last word the test always holds, and no fuel is enough.
pub for_upto_diverges {ℓ} :
    {S : Type ℓ} (fuel i max : ℕ) (body : ℕ → S → S) (s : S)
    → max + 1 ≡ uint_mod
    → i < uint_mod
    → for_upto fuel i max body s ≡ diverge
unfolding for_upto
for_upto_diverges zero i max body s top h = refl
for_upto_diverges (suc fuel) i max body s top h =
    ground (arith, for_upto_diverges fuel (inc i) max body (body i s) top (omega arith))
