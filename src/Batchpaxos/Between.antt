-- ===== src/Batchpaxos/Between.antt =====
-- The loops over a range of sequence numbers (batchpaxos/batcher.go) that end below the last word.
use goxos.Base.{
  ℕ, zero, suc, ◌+◌, ◌-◌, ◌≤◌, ◌<◌, ◌≡◌, refl, sym, ap, subst, ◌∙◌, true, false, Option, none, some,
  List, [], ◌∷◌, ◌++◌, leb, le→leb, arith, map,
}
use goxos.Base.Outcome.{done}
use goxos.Batchpaxos.Batcher.{ClientRange, collect, inc32, word32}

-- The `count` numbers from `start` on.
unfoldable pub between : (count start : ℕ) → List ℕ
between zero start = []
between (suc count) start = start ∷ between count (start + 1)

pub between-append :
    (m n start : ℕ) → (between m start ++ between n (start + m)) ≡ between (m + n) start
unfolding between
between-append zero n start =
    let here : start + 0 ≡ start = omega arith in
    let all : 0 + n ≡ n = omega arith in rw (here, all) refl
between-append (suc m) n start =
    let e : start + suc m ≡ start + 1 + m = omega arith in
    let all : suc m + n ≡ suc (m + n) = omega arith in
    rw (all) (
      ap (λ xs. start ∷ xs)
        (subst (λ k. (between m (start + 1) ++ between n k) ≡ between (m + n) (start + 1)) (sym e)
          (between-append m n (start + 1))))

-- A loop over a range that ends below the last word runs its body for each number once, in order.
pub between-split : (m k : ℕ) → m ≤ k → (between m 0 ++ between (k - m) m) ≡ between k 0
between-split m k h =
    let from : 0 + m ≡ m = omega arith in
    let all : m + (k - m) ≡ k = omega arith in
    subst (λ x. (between m 0 ++ between (k - m) x) ≡ between k 0) from
      (between-append m (k - m) 0 ∙ ap (λ x. between x 0) all)

pub inc32_small : (i : ℕ) → i + 1 < word32 → inc32 i ≡ i + 1
inc32_small i h = ground arith

pub collect-between {ℓ} :
    {A : Type ℓ} (body : ℕ → A) (n fuel i stop : ℕ)
    → stop + 1 < word32
    → i + n ≡ stop + 1
    → n < fuel
    → collect fuel body i stop ≡ done (map body (between n i))
unfolding collect between
collect-between body n zero i stop top e f = absurd (omega arith)
collect-between body zero (suc fuel) i stop top e f = ground arith
collect-between body (suc n) (suc fuel) i stop top e f =
    let next : inc32 i ≡ i + 1 = inc32_small i (omega arith) in
    let now : leb i stop ≡ true = le→leb i stop (omega arith) in
    rw
      (now, collect, next, collect-between body n fuel (i + 1) stop top (omega arith) (omega arith))
      refl

-- Past the end, the loop has no round.
pub collect-past {ℓ} :
    {A : Type ℓ} (body : ℕ → A) (fuel i stop : ℕ)
    → leb i stop ≡ false
    → 0 < fuel
    → collect fuel body i stop ≡ done []
unfolding collect
collect-past body zero i stop past f = absurd (omega arith)
collect-past body (suc fuel) i stop past f = rw (past, collect) refl

-- The sequence numbers of a range that there may be.
unfoldable pub seqs : Option ClientRange → List ℕ
unfolding between
seqs none = []
seqs (some rng) = between (rng.stop + 1 - rng.start) rng.start
