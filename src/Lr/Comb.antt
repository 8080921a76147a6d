-- ===== src/Lr/Comb.antt =====
-- The iterator over the ways to choose r of n (lr/comb_iterator.go). Its indices are small and
-- never negative; the field `max`, which the program does not use, is left out.
use goxos.Base.{
  ℕ, zero, suc, ◌+◌, ◌-◌, ◌%◌, Bool, List, [], ◌∷◌, ltb, leb, set, get_elem?, none, some,
  if◌then◌else◌, for_range,
}
use goxos.Base.Outcome.{Outcome, done, panic}

-- `type CombinationIterator struct`
pub record CombinationIterator : Type 0 where
  pub r : ℕ
  pub n : ℕ
  pub i : ℕ
  pub c : ℕ
  pub s : List ℕ

-- `big.Int.Binomial`, by Pascal's rule.
unfoldable pub binomial : ℕ → ℕ → ℕ
binomial n zero = 1
binomial zero (suc r) = 0
binomial (suc n) (suc r) = binomial n r + binomial n (suc r)

-- `for j := range s { s[j] = j }`
unfoldable pub first_from : ℕ → ℕ → List ℕ
first_from zero j = []
first_from (suc r) j = j ∷ first_from r (j + 1)

-- `int(….Int64())`: the low 64 bits, signed. A negative count ends the iteration at once, as 0 does.
abbrev pub count_of : ℕ → ℕ
count_of b = let w = b % 18446744073709551616 in if ltb w 9223372036854775808 then w else 0

-- `NewCombinationIterator`
unfoldable pub new_combination_iterator : ℕ → ℕ → CombinationIterator
unfolding binomial first_from
new_combination_iterator n r = record {
  r = r;
  n = n;
  i = 0;
  c = count_of (binomial n r);
  s = first_from r 0;
}

-- `HasNext`
abbrev pub has_next : CombinationIterator → Bool
has_next ci = ltb ci.i ci.c

-- `s[i]`, for an index in range.
abbrev pub at : List ℕ → ℕ → ℕ
at s i = elim (get_elem? s i) [ none ↦ 0 | some x ↦ x ]

-- `s[i]++`
abbrev pub bump : List ℕ → ℕ → List ℕ
bump s i = set s i (at s i + 1)

-- `for (i > 0) && (s[i] >= n-r+1+i) { i--; s[i]++ }`: the last `i`, and `s`.
unfoldable pub carry : ℕ → ℕ → ℕ → List ℕ → ℕ × List ℕ
carry n r zero s = (0, s)
carry n r (suc i) s =
    let rest = carry n r i (bump s i) in
    if leb (n + 1 + suc i) (at s (suc i) + r) then rest else (suc i, s)

-- `s[i] = s[i-1] + 1`
abbrev pub follow : ℕ → List ℕ → List ℕ
follow i s = set s i (at s (i - 1) + 1)

-- `updateS`; with r = 0 the index -1 is out of range.
unfoldable pub update_s : CombinationIterator → Outcome CombinationIterator
unfolding carry for_range
update_s ci =
    if ltb 0 ci.r
    then (let (i, s) = carry ci.n ci.r (ci.r - 1) (bump ci.s (ci.r - 1)) in
        done (record ci { i = ci.i + 1; s = for_range (ci.r - (i + 1)) (i + 1) follow s }))
    else panic

-- `Next`
unfoldable pub next : CombinationIterator → Outcome CombinationIterator
unfolding update_s
next ci = if has_next ci then update_s ci else done ci
