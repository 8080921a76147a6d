-- ===== src/Liveness/Timeout.antt =====
-- What a timeout of the failure detector does (`timeoutProcedure` of liveness/fd.go).
use goxos.Base.{
  ℕ, add_uint, ◌≡◌, ◌↔◌, refl, sym, ap, ◌∙◌, Bool, true, false, not, ◌&&◌, ◌||◌, List, [], ◌∷◌,
  arith, if◌then◌else◌, Bool-cases, inl, inr,
}
use goxos.Grp.Id.{GrpId, id_eq, id_eq_refl}
use goxos.Grp.NodeMap.{GrpMgr}
use goxos.Liveness.IdSet.{has, put, drop, has-put, has-drop, has-same}
use goxos.Liveness.Fd.{FdMsg, Fd, intersection_empty, check_nodes, timeout_procedure, set_alive}
use goxos.Liveness.Nodes.{suspects, CheckOf, check_nodes-CheckOf}

or_true : (a : Bool) {b : Bool} → b ≡ true → (a || b) ≡ true
or_true true h = refl
or_true false h = h

and_left : (a b : Bool) → (not a && b) ≡ true → a ≡ false
and_left true b h = ground arith
and_left false b h = refl

and_right : (a : Bool) {b : Bool} → (a && b) ≡ true → b ≡ true
and_right true h = h
and_right false h = ground arith

module _ (alive : List GrpId) (k : GrpId) (ks : List GrpId) where
  only_if :
      has alive k ≡ false
      → ((j : GrpId) → has ks j ≡ true → has alive j ≡ false)
      → (j : GrpId) → (id_eq k j || has ks j) ≡ true
      → has alive j ≡ false
  only_if h f j m = elim (Bool-cases (id_eq k j)) [
    | inl same ↦ sym (has-same alive k j same) ∙ h
    | inr other ↦ f j (ap (λ b. b || has ks j) (sym other) ∙ m)
  ]

if_all : {a b : Bool} → a ≡ false → b ≡ true → (not a && b) ≡ true
if_all h k = rw (h, k) refl

-- The intersection is empty when nobody is both alive and suspected.
pub intersection_empty_lem :
    (alive suspected : List GrpId)
    → (intersection_empty alive suspected ≡ true)
      ↔ ((j : GrpId) → has suspected j ≡ true → has alive j ≡ false)
unfolding intersection_empty has
intersection_empty_lem alive [] = (λ _. λ j. λ h. ground arith, λ _. refl)
intersection_empty_lem alive (k ∷ ks) = (
  λ h.
      only_if alive k ks (and_left (has alive k) (intersection_empty alive ks) h)
        ((intersection_empty_lem alive ks).0 (and_right (not (has alive k)) h)),
  λ f.
      if_all (f k (ap (λ b. b || has ks k) (id_eq_refl k)))
        ((intersection_empty_lem alive ks).1 (λ j. λ m. f j (or_true (id_eq k j) m))),
)

-- What a timeout does to the suspicion of `j`.
pub record Timeout (g : GrpMgr) (fd : Fd) (j : GrpId) (r : Fd × List FdMsg) : Type 0 where
  pub suspected : has r.0.suspected j ≡ (
      if has g.node_map.ids_memoized j
      then not (id_eq g.id j || has fd.alive j)
      else has fd.suspected j)
  pub told : suspects (has fd.suspected j) j r.1 ≡ has r.0.suspected j
  pub alive : r.0.alive ≡ []
  pub patient :
      (k : GrpId)
      → has fd.alive k ≡ true
      → has fd.suspected k ≡ true
      → r.0.timeout ≡ add_uint fd.timeout fd.delta
  pub content :
      ((k : GrpId) → has fd.suspected k ≡ true → has fd.alive k ≡ false) → r.0.timeout ≡ fd.timeout
  pub quiet : has fd.alive j ≡ true → has fd.suspected j ≡ false → (b : Bool) → suspects b j r.1 ≡ b

pub timeout_procedure-Timeout :
    (g : GrpMgr) (fd : Fd) (j : GrpId) → Timeout g fd j (timeout_procedure g fd)
unfolding timeout_procedure
timeout_procedure-Timeout g fd j = record {
  suspected =
      c.suspected
      ∙ ap (λ a. if has g.node_map.ids_memoized j then not a else has fd.suspected j)
          (has-put fd.alive g.id j);
  told = c.told;
  alive = refl;
  patient = λ k. λ h. λ s. c.timeout ∙ ap raised (heard_of k h s);
  content = λ f. c.timeout ∙ ap raised ((intersection_empty_lem fd.alive fd.suspected).1 f);
  quiet = λ h. λ k. λ b. c.quiet (has-put fd.alive g.id j ∙ or_true (id_eq g.id j) h) k b;
}
  where
    raised : Bool → ℕ
    raised empty = if empty then fd.timeout else add_uint fd.timeout fd.delta

    heard_of :
        (k : GrpId)
        → has fd.alive k ≡ true
        → has fd.suspected k ≡ true
        → intersection_empty fd.alive fd.suspected ≡ false
    heard_of k h s = elim (Bool-cases (intersection_empty fd.alive fd.suspected)) [
      | inl empty ↦
          let no = (intersection_empty_lem fd.alive fd.suspected).0 empty k s in ground arith
      | inr other ↦ other
    ]

    begun : Fd
    begun = record fd {
      timeout =
          if intersection_empty fd.alive fd.suspected
          then fd.timeout
          else add_uint fd.timeout fd.delta;
      alive = put fd.alive g.id;
    }

    c : CheckOf begun g.node_map.ids_memoized j (check_nodes begun g.node_map.ids_memoized)
    c = check_nodes-CheckOf begun g.node_map.ids_memoized j

-- After `SetAlive` of an id, the next timeout leaves that id unsuspected and publishes nothing about
-- it: whoever follows the messages suspects the id after the timeout exactly if they did before.
pub set_alive-quiet :
    (g : GrpMgr) (fd : Fd) (id : GrpId)
    → (has (timeout_procedure g (set_alive fd id)).0.suspected id ≡ false)
      × ((b : Bool) → suspects b id (timeout_procedure g (set_alive fd id)).1 ≡ b)
unfolding set_alive
set_alive-quiet g fd id = (t.suspected ∙ stays, λ b. t.quiet alive dropped b)
  where
    t : Timeout g (set_alive fd id) id (timeout_procedure g (set_alive fd id))
    t = timeout_procedure-Timeout g (set_alive fd id) id

    alive : has (put fd.alive id) id ≡ true
    alive = has-put fd.alive id id ∙ rw (id_eq_refl id) refl

    dropped : has (drop fd.suspected id) id ≡ false
    dropped = has-drop fd.suspected id id ∙ rw (id_eq_refl id) refl

    stays :
        (if has g.node_map.ids_memoized id
          then not (id_eq g.id id || has (put fd.alive id) id)
          else has (drop fd.suspected id) id)
        ≡ false
    stays = rw (dropped, alive) (cases (has g.node_map.ids_memoized id) (id_eq g.id id))
      where
        cases : (m a : Bool) → (if m then not (a || true) else false) ≡ false
        cases true true = refl
        cases true false = refl
        cases false a = refl
