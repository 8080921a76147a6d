-- ===== src/Liveness/Nodes.antt =====
-- What the check of the nodes after a timeout does (the loop of `timeoutProcedure` in liveness/fd.go).
use goxos.Base.{
  ◌≡◌, refl, sym, ap, subst, ◌∙◌, Bool, true, false, not, ◌&&◌, ◌||◌, List, [], ◌∷◌, ◌++◌, arith,
  if◌then◌else◌, Bool-cases, inl, inr,
}
use goxos.Grp.Id.{GrpId, id_eq, id_eq_refl}
use goxos.Liveness.IdSet.{has, has-drop, id_eq_same}
use goxos.Liveness.Fd.{FdMsg, suspect, restore, Fd, check_node, check_nodes}

-- Whether somebody that follows the messages suspects `j`.
abbrev pub suspects : Bool → GrpId → List FdMsg → Bool
suspects b j [] = b
suspects b j (suspect id ∷ ms) = suspects (id_eq id j || b) j ms
suspects b j (restore id ∷ ms) = suspects (not (id_eq id j) && b) j ms

pub suspects-append :
    (b : Bool) (j : GrpId) (ms ns : List FdMsg)
    → suspects b j (ms ++ ns) ≡ suspects (suspects b j ms) j ns
suspects-append b j [] ns = refl
suspects-append b j (suspect id ∷ ms) ns = suspects-append (id_eq id j || b) j ms ns
suspects-append b j (restore id ∷ ms) ns = suspects-append (not (id_eq id j) && b) j ms ns

module _ (fd : Fd) (id : GrpId) where
  -- What the check of `id` does: it follows whether `id` is alive.
  record Settled (r : Fd × List FdMsg) : Type 0 where
    alive : r.0.alive ≡ fd.alive
    timeout : r.0.timeout ≡ fd.timeout
    own : has r.0.suspected id ≡ not (has fd.alive id)
    other : (j : GrpId) → id_eq id j ≡ false → has r.0.suspected j ≡ has fd.suspected j
    told_own : suspects (has fd.suspected id) id r.1 ≡ not (has fd.alive id)
    told_other : (j : GrpId) (b : Bool) → id_eq id j ≡ false → suspects b j r.1 ≡ b
    quiet : has fd.alive id ≡ true → has fd.suspected id ≡ false → r.1 ≡ []

  check_node-Settled : Settled (check_node fd id)
  unfolding check_node
  check_node-Settled = elim (Bool-cases (has fd.alive id)) [
    | inl a ↦ elim (Bool-cases (has fd.suspected id)) [
      | inl s ↦
          rw (a, s)
            record {
              alive = refl;
              timeout = refl;
              own = has-drop fd.suspected id id ∙ rw (id_eq_refl id, a) refl;
              other = λ j. λ ne. has-drop fd.suspected id j ∙ rw (ne) refl;
              told_own = rw (id_eq_refl id, a) refl;
              told_other = λ j. λ b. λ ne. rw (ne) refl;
              quiet = λ _. λ h. ground arith;
            }
      | inr s ↦
          rw (a, s)
            record {
              alive = refl;
              timeout = refl;
              own = rw (s, a) refl;
              other = λ j. λ ne. refl;
              told_own = rw (s, a) refl;
              told_other = λ j. λ b. λ ne. refl;
              quiet = λ _. λ h. refl;
            }
    ]
    | inr a ↦ elim (Bool-cases (has fd.suspected id)) [
      | inl s ↦
          rw (a, s)
            record {
              alive = refl;
              timeout = refl;
              own = rw (s, a) refl;
              other = λ j. λ ne. refl;
              told_own = rw (s, a) refl;
              told_other = λ j. λ b. λ ne. refl;
              quiet = λ h. λ _. ground arith;
            }
      | inr s ↦
          rw (a, s)
            record {
              alive = refl;
              timeout = refl;
              own = rw (id_eq_refl id, a) refl;
              other = λ j. λ ne. rw (ne) refl;
              told_own = rw (id_eq_refl id, a) refl;
              told_other = λ j. λ b. λ ne. rw (ne) refl;
              quiet = λ h. λ _. ground arith;
            }
    ]
  ]

-- What the checks of the nodes `ids` do to the suspicion of `j`; their messages tell it, and none is
-- about a `j` that is alive and not suspected.
pub record CheckOf (fd : Fd) (ids : List GrpId) (j : GrpId) (r : Fd × List FdMsg) : Type 0 where
  pub alive : r.0.alive ≡ fd.alive
  pub timeout : r.0.timeout ≡ fd.timeout
  pub suspected :
      has r.0.suspected j ≡ (if has ids j then not (has fd.alive j) else has fd.suspected j)
  pub told : suspects (has fd.suspected j) j r.1 ≡ has r.0.suspected j
  pub quiet : has fd.alive j ≡ true → has fd.suspected j ≡ false → (b : Bool) → suspects b j r.1 ≡ b

check_node-CheckOf : (fd : Fd) (id j : GrpId) → CheckOf fd (id ∷ []) j (check_node fd id)
unfolding has
check_node-CheckOf fd id j = elim (Bool-cases (id_eq id j)) [
  | inl same ↦
      subst (λ x. CheckOf fd (id ∷ []) x (check_node fd id)) (id_eq_same id j same)
        (record {
          alive = settled.alive;
          timeout = settled.timeout;
          suspected = settled.own ∙ rw (id_eq_refl id) refl;
          told = settled.told_own ∙ sym settled.own;
          quiet = λ h. λ k. λ b. ap (suspects b id) (settled.quiet h k);
        })
  | inr ne ↦ record {
    alive = settled.alive;
    timeout = settled.timeout;
    suspected = settled.other j ne ∙ rw (ne) refl;
    told = settled.told_other j (has fd.suspected j) ne ∙ sym (settled.other j ne);
    quiet = λ h. λ k. λ b. settled.told_other j b ne;
  }
]
  where
    settled : Settled fd id (check_node fd id)
    settled = check_node-Settled fd id

then_both :
    (a b x s : Bool) → (if b then x else (if a || false then x else s)) ≡ (if a || b then x else s)
then_both true true x s = refl
then_both true false x s = refl
then_both false b x s = refl

CheckOf-append :
    (fd : Fd) (id j : GrpId) (ids : List GrpId) (r r' : Fd × List FdMsg)
    → CheckOf fd (id ∷ []) j r
    → CheckOf r.0 ids j r'
    → CheckOf fd (id ∷ ids) j (r'.0, r.1 ++ r'.1)
unfolding has
CheckOf-append fd id j ids r r' c c' = record {
  alive = c'.alive ∙ c.alive;
  timeout = c'.timeout ∙ c.timeout;
  suspected =
      c'.suspected
      ∙ ap (λ a. if has ids j then not (has a j) else has r.0.suspected j) c.alive
      ∙ ap (λ s. if has ids j then not (has fd.alive j) else s) c.suspected
      ∙ then_both (id_eq id j) (has ids j) (not (has fd.alive j)) (has fd.suspected j);
  told =
      suspects-append (has fd.suspected j) j r.1 r'.1
      ∙ ap (λ b. suspects b j r'.1) c.told
      ∙ c'.told;
  quiet = λ h. λ k. λ b.
      suspects-append b j r.1 r'.1
      ∙ ap (λ x. suspects x j r'.1) (c.quiet h k b)
      ∙ c'.quiet (ap (λ a. has a j) c.alive ∙ h) (c.suspected ∙ stays (id_eq id j) h k) b;
}
  where
    stays :
        (b : Bool) {x s : Bool} → x ≡ true → s ≡ false → (if b || false then not x else s) ≡ false
    stays true h k = ap not h
    stays false h k = k

pub check_nodes-CheckOf :
    (fd : Fd) (ids : List GrpId) (j : GrpId) → CheckOf fd ids j (check_nodes fd ids)
unfolding check_nodes
check_nodes-CheckOf fd [] j = record {
  alive = refl;
  timeout = refl;
  suspected = refl;
  told = refl;
  quiet = λ _. λ _. λ b. refl;
}
check_nodes-CheckOf fd (id ∷ ids) j =
    CheckOf-append fd id j ids (check_node fd id) (check_nodes (check_node fd id).0 ids)
      (check_node-CheckOf fd id j) (check_nodes-CheckOf (check_node fd id).0 ids j)
