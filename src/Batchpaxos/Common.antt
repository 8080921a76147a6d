-- ===== src/Batchpaxos/Common.antt =====
-- What the intersection of the learns of a batch is (`Intersect` of batchpaxos/quorum.go).
use goxos.Base.{
  ℕ, zero, suc, ◌≤◌, ◌<◌, ◌≡◌, refl, sym, ap, subst, ◌∙◌, true, false, Option, none, some, List, [],
  ◌∷◌, ◌==◌, ==_iff, ltb, if◌then◌else◌, arith, Bool-cases, Option-cases, ◌⊎◌, inl, inr, length,
  All,
}
use goxos.Base.Dict.{lookup}
use Prim.Native.String.{String}
use mathlib.Core.List.{Memᴰ}
use goxos.Batchpaxos.Batcher.{seq_of}
use goxos.Batchpaxos.Quorum.{
  BatchLearnMsg, BatchQuorumChecker, get_state, count_learns, mins_of, min_of, find_min, intersect,
}
use goxos.Batchpaxos.Keys.{Keyed, both}
use goxos.Batchpaxos.Counts.{
  holders, count_learns-Keyed, lookup-count_learns, lookup-mins_of, raised,
}

abbrev pub Has : String → BatchLearnMsg → Type 0
Has k msg = (hs : ℕ) × (lookup msg.hss k ≡ some hs)

-- The learn has the client, with at least this sequence number.
abbrev pub AtLeast : String → ℕ → BatchLearnMsg → Type 0
AtLeast k m msg = (hs : ℕ) × ((lookup msg.hss k ≡ some hs) × (m ≤ hs))

holders-le-length : (msgs : List BatchLearnMsg) (k : String) → holders msgs k ≤ length msgs
unfolding holders
holders-le-length [] k = omega arith
holders-le-length (msg ∷ msgs) k = ground (arith, holders-le-length msgs k)

Has-of_holders :
    (msgs : List BatchLearnMsg) (k : String) → holders msgs k ≡ length msgs → All (Has k) msgs
unfolding holders
Has-of_holders [] k h = tt
Has-of_holders (msg ∷ msgs) k h = elim (Option-cases (lookup msg.hss k)) [
  | inl e ↦ absurd (let few = holders-le-length msgs k in ground (arith, few))
  | inr (hs, e) ↦ ((hs, e), Has-of_holders msgs k (ground arith))
]

holders-of_Has :
    (msgs : List BatchLearnMsg) (k : String) → All (Has k) msgs → holders msgs k ≡ length msgs
unfolding holders
holders-of_Has [] k h = refl
holders-of_Has (msg ∷ msgs) k h = rw (h.0.1) (ap suc (holders-of_Has msgs k h.1))

abbrev seq_in : String → BatchLearnMsg → ℕ
seq_in k msg = seq_of (lookup msg.hss k)

-- The body of the loop.
abbrev lesser : ℕ → ℕ → ℕ
lesser a b = if ltb a b then a else b

lesser-le : (a b : ℕ) → lesser a b ≤ a
lesser-le a b = ground arith

lesser-left : (a b : ℕ) → ltb a b ≡ true → lesser a b ≡ a
lesser-left a b h = rw (h) refl

lesser-right : (a b : ℕ) → ltb a b ≡ false → lesser a b ≡ b
lesser-right a b h = rw (h) refl

le_trans : {a b c : ℕ} → a ≤ b → b ≤ c → a ≤ c
le_trans h k = omega arith

min_of-le : (min : ℕ) (msgs : List BatchLearnMsg) (k : String) → min_of min msgs k ≤ min
unfolding min_of
min_of-le min [] k = omega arith
min_of-le min (msg ∷ msgs) k = elim (Bool-cases (ltb (seq_in k msg) min)) [
  | inl h ↦ ground (arith, min_of-le (seq_in k msg) msgs k)
  | inr h ↦ rw (h) (min_of-le min msgs k)
]

min_of-below :
    (min : ℕ) (msgs : List BatchLearnMsg) (k : String)
    → All (λ msg. min_of min msgs k ≤ seq_in k msg) msgs
unfolding min_of
min_of-below min [] k = tt
min_of-below min (msg ∷ msgs) k = (
  le_trans (min_of-le (lesser (seq_in k msg) min) msgs k) (lesser-le (seq_in k msg) min),
  min_of-below (lesser (seq_in k msg) min) msgs k,
)

-- The minimum is that of a message, or where the loop started.
min_of-attained :
    (min : ℕ) (msgs : List BatchLearnMsg) (k : String)
    → (min_of min msgs k ≡ min)
      ⊎ ((msg : BatchLearnMsg) × (Memᴰ msg msgs × (seq_in k msg ≡ min_of min msgs k)))
unfolding min_of
min_of-attained min [] k = inl refl
min_of-attained min (msg ∷ msgs) k = elim (min_of-attained (lesser (seq_in k msg) min) msgs k) [
  | inr (m, (mem, e)) ↦ inr (m, (Memᴰ.tail mem, e))
  | inl e ↦ elim (Bool-cases (ltb (seq_in k msg) min)) [
    | inl h ↦ inr (msg, (Memᴰ.head refl, sym (e ∙ lesser-left (seq_in k msg) min h)))
    | inr h ↦ inl (e ∙ lesser-right (seq_in k msg) min h)
  ]
]

find_min-below :
    (learns : List BatchLearnMsg) (k : String)
    → All (λ msg. find_min learns k ≤ seq_in k msg) learns
unfolding find_min
find_min-below [] k = tt
find_min-below (msg ∷ msgs) k =
    (min_of-le (seq_in k msg) msgs k, min_of-below (seq_in k msg) msgs k)

find_min-attained :
    (msg : BatchLearnMsg) (msgs : List BatchLearnMsg) (k : String)
    → (m : BatchLearnMsg) × (Memᴰ m (msg ∷ msgs) × (seq_in k m ≡ find_min (msg ∷ msgs) k))
unfolding find_min
find_min-attained msg msgs k = elim (min_of-attained (seq_in k msg) msgs k) [
  | inl e ↦ (msg, (Memᴰ.head refl, sym e))
  | inr (m, (mem, e)) ↦ (m, (Memᴰ.tail mem, e))
]

-- What the intersection has for a client: if something, then every learn has the client with at
-- least this sequence number, and one learn with exactly it; and it has something if every learn has
-- the client.
pub record IsCommon (learns : List BatchLearnMsg) (k : String) (o : Option ℕ) : Type 0 where
  pub lower : (m : ℕ) → o ≡ some m → All (AtLeast k m) learns
  pub attained :
      (m : ℕ) → o ≡ some m → (msg : BatchLearnMsg) × (Memᴰ msg learns × (lookup msg.hss k ≡ some m))
  pub total : All (Has k) learns → (m : ℕ) × (o ≡ some m)

abbrev kept : List BatchLearnMsg → String → ℕ → Option ℕ
kept learns k n = if n == length learns then some (find_min learns k) else none

intersect-kept :
    (msg : BatchLearnMsg) (msgs : List BatchLearnMsg) (k : String)
    → All (λ m. Keyed m.hss) (msg ∷ msgs)
    → lookup (mins_of (msg ∷ msgs) (count_learns (msg ∷ msgs) [])) k
      ≡ kept (msg ∷ msgs) k (holders (msg ∷ msgs) k)
unfolding lookup
intersect-kept msg msgs k keyed =
    lookup-mins_of learns (count_learns learns []) k (count_learns-Keyed learns [] Keyed.empty)
    ∙ ap (λ o. both o (kept learns k)) (lookup-count_learns learns [] k keyed)
    ∙ raised_kept (holders learns k)
  where
    learns : List BatchLearnMsg
    learns = msg ∷ msgs

    raised_kept : (n : ℕ) → both (raised n none) (kept (msg ∷ msgs) k) ≡ kept (msg ∷ msgs) k n
    raised_kept zero = ground arith
    raised_kept (suc n) = ap (kept (msg ∷ msgs) k) (omega arith)

All-AtLeast :
    (msgs : List BatchLearnMsg) (k : String) (m : ℕ)
    → All (Has k) msgs
    → All (λ msg. m ≤ seq_in k msg) msgs
    → All (AtLeast k m) msgs
All-AtLeast [] k m h b = tt
All-AtLeast (msg ∷ msgs) k m h b =
    ((h.0.0, (h.0.1, subst (λ o. m ≤ seq_of o) h.0.1 b.0)), All-AtLeast msgs k m h.1 b.1)

Has-mem :
    (k : String) (msgs : List BatchLearnMsg) (msg : BatchLearnMsg)
    → Memᴰ msg msgs
    → All (Has k) msgs
    → Has k msg
Has-mem k [] msg m h = elim m [ ]
Has-mem k (x ∷ msgs) msg (Memᴰ.head e) h = subst (Has k) (sym e) h.0
Has-mem k (x ∷ msgs) msg (Memᴰ.tail m) h = Has-mem k msgs msg m h.1

module _ (msg : BatchLearnMsg) (msgs : List BatchLearnMsg) (k : String) where
  abbrev learns : List BatchLearnMsg
  learns = msg ∷ msgs

  found-IsCommon : All (Has k) learns → IsCommon learns k (some (find_min learns k))
  found-IsCommon h = record {
    lower = λ m. λ e.
        subst (λ x. All (AtLeast k x) learns) (some_inj e)
          (All-AtLeast learns k (find_min learns k) h (find_min-below learns k));
    attained = λ m. λ e.
        let (x, (mem, at)) = find_min-attained msg msgs k in
        let (hs, found) = Has-mem k learns x mem h in
        (x, (mem, found ∙ ap some (sym (ap seq_of found) ∙ at ∙ some_inj e)));
    total = λ _. (find_min learns k, refl);
  }
    where
      some_inj : {a b : ℕ} → some a ≡ some b → a ≡ b
      some_inj e = cc

  missing-IsCommon : (holders learns k == length learns) ≡ false → IsCommon learns k none
  missing-IsCommon h = record {
    lower = λ m. λ e. cc;
    attained = λ m. λ e. cc;
    total = λ all. absurd (let full = holders-of_Has learns k all in ground arith);
  }

  kept-IsCommon : IsCommon learns k (kept learns k (holders learns k))
  kept-IsCommon = elim (Bool-cases (holders learns k == length learns)) [
    | inl full ↦ rw (full) (
        found-IsCommon
          (Has-of_holders learns k ((==_iff (holders learns k) (length learns)).0 full)))
    | inr missing ↦ rw (missing) (missing-IsCommon missing)
  ]

-- When a batch has learns, the intersection has a client exactly if every learn has it, and then it
-- has the least of their sequence numbers.
pub intersect-IsCommon :
    (bqc : BatchQuorumChecker) (batch_id : ℕ) (k : String)
    → 0 < length (get_state bqc batch_id).learns
    → All (λ m. Keyed m.hss) (get_state bqc batch_id).learns
    → IsCommon (get_state bqc batch_id).learns k (lookup (intersect bqc batch_id) k)
unfolding intersect
intersect-IsCommon bqc batch_id k some_learn keyed =
    of_learns (get_state bqc batch_id).learns some_learn keyed
  where
    of_learns :
        (ls : List BatchLearnMsg)
        → 0 < length ls
        → All (λ m. Keyed m.hss) ls
        → IsCommon ls k (lookup (mins_of ls (count_learns ls [])) k)
    of_learns [] some_learn keyed = absurd (omega arith)
    of_learns (msg ∷ msgs) some_learn keyed =
        subst (IsCommon (msg ∷ msgs) k) (sym (intersect-kept msg msgs k keyed))
          (kept-IsCommon msg msgs k)
