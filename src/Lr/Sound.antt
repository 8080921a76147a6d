-- ===== src/Lr/Sound.antt =====
-- What a quorum that `extractVq…` finds is (multipaxos/vq.go, lr/vq.go).
use goxos.Base.{
  ℕ, zero, suc, ◌+◌, ◌≡◌, ◌≢◌, ◌⊎◌, inl, inr, refl, sym, subst, ◌∙◌, ap, Bool, true, false, not,
  ◌||◌, Option, none, some, List, [], ◌∷◌, ◌≤◌, arith, ltb, ◌==◌, length, get_elem?, eqb_ℤ, index,
  All, length-set, for_range, for_range_inv, ◌-◌, Bool-cases, if◌then◌else◌,
}
use goxos.Base.Outcome.{Outcome, done, panic, diverge, ◌>>=◌, or_panic}
use goxos.Grp.Id.{GrpId}
use goxos.Lr.Comb.{
  CombinationIterator, new_combination_iterator, has_next, next, carry, bump, at, follow, update_s,
  first_from,
}
use goxos.Lr.ValidQuorum.{conflict, check_against, check_combination, find_combination, extract_vq}

-- The outcome of a sequence is that of its second part on the result of the first.
done_of_bind :
    {A B : Type 0} (o : Outcome A) (f : A → Outcome B) (b : B)
    → (o >>= f) ≡ done b
    → (a : A) × (o ≡ done a) × (f a ≡ done b)
done_of_bind (done a) f b h = (a, refl, h)
done_of_bind panic f b h = cc
done_of_bind diverge f b h = cc

some_of_done : {A : Type 0} (o : Option A) (a : A) → or_panic o ≡ done a → o ≡ some a
some_of_done none a h = cc
some_of_done (some b) a h = cc

-- A test whose branch has the other result was not passed, or was.
other_branch :
    (c out : Bool) (o : Outcome Bool)
    → (if c then done (not out) else o) ≡ done out
    → (c ≡ false) × (o ≡ done out)
other_branch true true o h = cc
other_branch true false o h = cc
other_branch false out o h = (refl, h)

this_branch :
    (c : Bool) (o : Outcome Bool)
    → (if c then o else done false) ≡ done true
    → (c ≡ true) × (o ≡ done true)
this_branch true o h = (refl, h)
this_branch false o h = cc

not_less : (x y : ℕ) → done (ltb x y) ≡ done false → y ≤ x
not_less x y h = elim (Bool-cases (ltb x y)) [
  | inl less ↦ absurd (true_is_not_false (sym (ap done less) ∙ h))
  | inr more ↦ ground arith
]
  where
    true_is_not_false : done true ≡ done false → ⊥
    true_is_not_false e = cc

length-carry : (n r i : ℕ) (s : List ℕ) → length (carry n r i s).1 ≡ length s
unfolding carry
length-carry n r zero s = refl
length-carry n r (suc i) s =
    ground (arith, length-carry n r i (bump s i), length-set s i (at s i + 1))

length-follow : (count start : ℕ) (s : List ℕ) → length (for_range count start follow s) ≡ length s
length-follow count start s =
    for_range_inv (λ k (t : List ℕ). length t ≡ length s) follow count start (start + count) s refl
      (λ k t low high h. length-set t k (at t (k - 1) + 1) ∙ h) refl

length-first_from : (r j : ℕ) → length (first_from r j) ≡ r
unfolding first_from
length-first_from zero j = refl
length-first_from (suc r) j = ap suc (length-first_from r (j + 1))

-- The iterator after a step.
abbrev stepped : CombinationIterator → CombinationIterator
stepped ci =
    let (i, s) = carry ci.n ci.r (ci.r - 1) (bump ci.s (ci.r - 1)) in
    record ci { i = ci.i + 1; s = for_range (ci.r - (i + 1)) (i + 1) follow s }

length-stepped : (ci : CombinationIterator) → length (stepped ci).s ≡ length ci.s
length-stepped ci =
    let (i, s) = carry ci.n ci.r (ci.r - 1) (bump ci.s (ci.r - 1)) in
    length-follow (ci.r - (i + 1)) (i + 1) s
    ∙ length-carry ci.n ci.r (ci.r - 1) (bump ci.s (ci.r - 1))
    ∙ length-set ci.s (ci.r - 1) (at ci.s (ci.r - 1) + 1)

next-cases :
    (ci : CombinationIterator)
    → (next ci ≡ done ci) ⊎ (next ci ≡ panic) ⊎ (next ci ≡ done (stepped ci))
unfolding next update_s
next-cases ci = elim (Bool-cases (has_next ci)) [
  | inr over ↦ inl (rw (over, next) refl)
  | inl more ↦ elim (Bool-cases (ltb 0 ci.r)) [
    | inr none_chosen ↦ inr (inl (rw (more, next) (rw (none_chosen, update_s) refl)))
    | inl some_chosen ↦ inr (inr (rw (more, next) (rw (some_chosen, update_s) refl)))
  ]
]

length-next : (ci ci' : CombinationIterator) → next ci ≡ done ci' → length ci'.s ≡ length ci.s
length-next ci ci' h = elim (next-cases ci) [
  | inl e ↦ let same : ci ≡ ci' = cc in ap (λ t. length t.s) (sym same)
  | inr (inl e) ↦ absurd (panic_is_not_done ci' (sym e ∙ h))
  | inr (inr e) ↦
      let same : stepped ci ≡ ci' = done_injective (stepped ci) ci' (sym e ∙ h) in
      ap (λ t. length t.s) (sym same) ∙ length-stepped ci
]
  where
    panic_is_not_done : (c : CombinationIterator) → panic ≡ done c → ⊥
    panic_is_not_done c e = cc

    done_injective : (c d : CombinationIterator) → done c ≡ done d → c ≡ d
    done_injective c d e = cc

module _ {A : Type 0} (id_of : A → GrpId) (epochs_of : A → List ℕ) where
  -- Two messages of different replicas, neither of which the other knows to be of an old epoch.
  pub record Agree (a b : A) : Type 0 where
    pub other_replica : (id_of a).paxos_id ≢ (id_of b).paxos_id
    pub known_to_second :
        (e : ℕ) × (index (epochs_of b) (id_of a).paxos_id ≡ some e) × (e ≤ (id_of a).epoch)
    pub known_to_first :
        (e : ℕ) × (index (epochs_of a) (id_of b).paxos_id ≡ some e) × (e ≤ (id_of b).epoch)

  -- The messages at two indices agree.
  abbrev pub AgreeAt : List A → ℕ → ℕ → Type 0
  AgreeAt msgs i j =
      (a : A) × (b : A) × (get_elem? msgs i ≡ some a) × (get_elem? msgs j ≡ some b) × Agree a b

  -- The messages at a list of indices agree, two by two.
  abbrev pub AllAgree : List A → List ℕ → Type 0
  AllAgree msgs [] = Unit
  AllAgree msgs (i ∷ is) = All (AgreeAt msgs i) is × AllAgree msgs is

  Agree-of_conflict : (a b : A) → conflict id_of epochs_of a b ≡ done false → Agree a b
  unfolding conflict
  Agree-of_conflict a b h =
      let (ne, h1) = other_branch (eqb_ℤ (id_of a).paxos_id (id_of b).paxos_id) false _ h in
      let (e, is_e, h2) =
        done_of_bind (or_panic (index (epochs_of b) (id_of a).paxos_id)) _ false h1 in
      let (le, h3) = other_branch (ltb (id_of a).epoch e) false _ h2 in
      let (e', is_e', h4) =
        done_of_bind (or_panic (index (epochs_of a) (id_of b).paxos_id)) _ false h3 in
      record {
        other_replica = λ same. ground (arith, ne, same);
        known_to_second =
            (e, some_of_done (index (epochs_of b) (id_of a).paxos_id) e is_e, ground (arith, le));
        known_to_first = (
          e',
          some_of_done (index (epochs_of a) (id_of b).paxos_id) e' is_e',
          not_less (id_of b).epoch e' h4,
        );
      }

  AgreeAt-of_check :
      (msgs : List A) (i : ℕ) (js : List ℕ)
      → check_against id_of epochs_of msgs i js ≡ done true
      → All (AgreeAt msgs i) js
  unfolding check_against
  AgreeAt-of_check msgs i [] h = tt
  AgreeAt-of_check msgs i (j ∷ js) h =
      let (a, is_a, h1) = done_of_bind (or_panic (get_elem? msgs i)) _ true h in
      let (b, is_b, h2) = done_of_bind (or_panic (get_elem? msgs j)) _ true h1 in
      let (c, is_c, h3) = done_of_bind (conflict id_of epochs_of a b) _ true h2 in
      let (fits, h4) = other_branch c true (check_against id_of epochs_of msgs i js) h3 in
      (
        (
          a,
          b,
          some_of_done (get_elem? msgs i) a is_a,
          some_of_done (get_elem? msgs j) b is_b,
          Agree-of_conflict a b (is_c ∙ ap done fits),
        ),
        AgreeAt-of_check msgs i js h4,
      )

  AllAgree-of_check :
      (msgs : List A) (is : List ℕ)
      → check_combination id_of epochs_of msgs is ≡ done true
      → AllAgree msgs is
  unfolding check_combination
  AllAgree-of_check msgs [] h = tt
  AllAgree-of_check msgs (i ∷ is) h =
      let (c, is_c, h1) = done_of_bind (check_against id_of epochs_of msgs i is) _ true h in
      let (fits, h2) = this_branch c (check_combination id_of epochs_of msgs is) h1 in
      (AgreeAt-of_check msgs i is (is_c ∙ ap done fits), AllAgree-of_check msgs is h2)

  -- The loop: what follows the check of one combination.
  found :
      (fuel : ℕ) (msgs : List A) (ci : CombinationIterator) (js : List ℕ)
      → find_combination id_of epochs_of fuel msgs ci ≡ done (true, js)
      → AllAgree msgs js × (length js ≡ length ci.s)
  unfolding find_combination
  found zero msgs ci js h = cc
  found (suc fuel) msgs ci js h = elim (Bool-cases (has_next ci)) [
    | inr over ↦ false_result (rw (over, find_combination) at h)
    | inl more ↦
        let (fits, is, h1) =
          done_of_bind (check_combination id_of epochs_of msgs ci.s) _ (true, js)
            (rw (more, find_combination) at h) in
        checked fits is (λ ci'. found fuel msgs ci' js) h1
  ]
    where
      false_result :
          ◌≡◌ {A = Outcome (Bool × List ℕ)} (done (false, [])) (done (true, js))
          → AllAgree msgs js × (length js ≡ length ci.s)
      false_result e = cc

      checked :
          (fits : Bool)
          → check_combination id_of epochs_of msgs ci.s ≡ done fits
          → ((ci' : CombinationIterator)
              → find_combination id_of epochs_of fuel msgs ci' ≡ done (true, js)
              → AllAgree msgs js × (length js ≡ length ci'.s))
          → (elim fits [
            | true ↦ done (true, ci.s)
            | false ↦ next ci >>= λ ci'. find_combination id_of epochs_of fuel msgs ci'
          ])
            ≡ done (true, js)
          → AllAgree msgs js × (length js ≡ length ci.s)
      checked true is later e =
          let same : ci.s ≡ js = cc in
          (subst (AllAgree msgs) same (AllAgree-of_check msgs ci.s is), ap length (sym same))
      checked false is later e =
          let (ci', moved, h2) = done_of_bind (next ci) _ (true, js) e in
          let (agree, long) = later ci' h2 in (agree, long ∙ length-next ci ci' moved)

  -- A quorum that is found has as many messages as were asked for, from different replicas, and
  -- none of these replicas is known to another one's message in a later epoch than its own.
  pub extract_vq-AllAgree :
      (msgs : List A) (quorum_size : ℕ) (js : List ℕ)
      → extract_vq id_of epochs_of msgs quorum_size ≡ done (true, js)
      → AllAgree msgs js × (length js ≡ quorum_size)
  unfolding extract_vq new_combination_iterator
  extract_vq-AllAgree msgs quorum_size js h =
      elim (Bool-cases (length msgs == 0 || ltb (length msgs) quorum_size)) [
        | inl too_few ↦ absurd (not_found (rw (too_few, extract_vq) at h))
        | inr enough ↦
            let ci = new_combination_iterator (length msgs) quorum_size in
            let (agree, long) = found (ci.c + 1) msgs ci js (rw (enough, extract_vq) at h) in
            (agree, long ∙ length-first_from quorum_size 0)
      ]
    where
      not_found : ◌≡◌ {A = Outcome (Bool × List ℕ)} (done (false, [])) (done (true, js)) → ⊥
      not_found e = cc
