-- ===== src/Batchpaxos/Points.antt =====
-- Which requests of a client the leader's batch points cover (batchpaxos/batchpoint.go).
use goxos.Base.{
  ℕ, ◌+◌, ◌-◌, ◌<◌, ◌≡◌, refl, sym, ap, subst, ◌∙◌, Bool, true, false, ◌||◌, Option, none, some,
  List, [], ◌∷◌, ◌++◌, ltb, ltb→lt, ◌==◌, if◌then◌else◌, arith, Bool-cases, inl, inr, length,
  length-append, get_elem?, All,
}
use goxos.Base.Dict.{lookup, str_eq}
use Prim.Native.String.{String}
use mathlib.Core.List.{append_assoc, append-nil}
use goxos.Batchpaxos.Batcher.{BatchPoint, RangeMap, ClientRange, inc32, word32}
use goxos.Batchpaxos.Point.{
  BatchPointer, new_batch_pointer, make_range_map1, range_after, make_range_map2, greater,
  is_greater, grown_point, any_greater, last_point, try_batch_point,
}
use goxos.Batchpaxos.Between.{between, between-split, inc32_small, seqs}
use text.Mathlib.TextEquality.{eq_iff}
use goxos.Batchpaxos.Keys.{
  Keyed, both, lookup-make_range_map1, lookup-make_range_map2, lookup-grown_point,
  grown_point-Keyed,
}

-- The batch points that are tried, one after the other: the sequence numbers of a client in the
-- range maps.
unfoldable pub covered : String → BatchPointer → List BatchPoint → BatchPointer × List ℕ
unfolding try_batch_point lookup seqs
covered cid bp [] = (bp, [])
covered cid bp (nbp ∷ nbps) =
    let (bp', ranges) = try_batch_point bp nbp in
    let (bp'', more) = covered cid bp' nbps in
    (bp'', seqs (both ranges (λ rm. lookup rm cid)) ++ more)

-- The batch pointer after it has covered the sequence numbers `s` of a client.
pub data Covers (cid : String) (bp : BatchPointer) (s : List ℕ) : Type 0 where
  nothing : bp.batch_points ≡ [] → s ≡ [] → Covers cid bp s
  up_to :
      (last : BatchPoint) (h : ℕ)
      → last_point bp.batch_points ≡ some last
      → lookup last cid ≡ some h
      → s ≡ between (h + 1) 0
      → Covers cid bp s

start_point : {bps : List BatchPoint} → bps ≡ [] → last_point bps ≡ none
unfolding last_point
start_point e = ap last_point e

get-append_last :
    (bps : List BatchPoint) (bp : BatchPoint) → get_elem? (bps ++ (bp ∷ [])) (length bps) ≡ some bp
get-append_last [] bp = refl
get-append_last (b ∷ bps) bp = get-append_last bps bp

last_point-append :
    (bps : List BatchPoint) (bp : BatchPoint) → last_point (bps ++ (bp ∷ [])) ≡ some bp
unfolding last_point
last_point-append bps bp =
    let e : length (bps ++ (bp ∷ [])) ≡ length bps + 1 = length-append bps (bp ∷ []) in
    let some_point : (length bps + 1 == 0) ≡ false = ground arith in
    let before : length bps + 1 - 1 ≡ length bps = omega arith in
    rw (e, some_point, before) (get-append_last bps bp)

module _ (bp : BatchPointer) (nbp : BatchPoint) where
  abbrev with_point : BatchPoint → BatchPointer
  with_point p = record { batch_points = bp.batch_points ++ (p ∷ []) }

  try-first :
      last_point bp.batch_points ≡ none
      → ltb 0 (length nbp) ≡ true
      → try_batch_point bp nbp ≡ (with_point nbp, some (make_range_map1 nbp))
  unfolding try_batch_point make_range_map1
  try-first h k = rw (h, k, try_batch_point) refl

  try-grown :
      (last : BatchPoint)
      → last_point bp.batch_points ≡ some last
      → any_greater last nbp ≡ true
      → try_batch_point bp nbp
        ≡ (with_point (grown_point last nbp), some (make_range_map2 last (grown_point last nbp)))
  unfolding try_batch_point grown_point make_range_map2
  try-grown last h k = rw (h, k, try_batch_point) refl

  try-same :
      (last : BatchPoint)
      → last_point bp.batch_points ≡ some last
      → any_greater last nbp ≡ false
      → try_batch_point bp nbp ≡ (bp, none)
  unfolding try_batch_point
  try-same last h k = rw (h, k, try_batch_point) refl

some_client :
    (nbp : BatchPoint) (cid : String) (hs : ℕ)
    → lookup nbp cid ≡ some hs
    → ltb 0 (length nbp) ≡ true
unfolding lookup
some_client [] cid hs h = cc
some_client (e ∷ nbp) cid hs h = ground arith

inc32_lt : (h hs : ℕ) → hs < word32 → ltb h hs ≡ true → inc32 h ≡ h + 1
inc32_lt h hs top above = let less : h < hs = ltb→lt h hs above in inc32_small h (omega arith)

-- What a range after `h` adds.
seqs-range_after :
    (h hs : ℕ)
    → hs < word32
    → (between (h + 1) 0 ++ seqs (range_after (some h) (greater (some h) hs)))
      ≡ between (greater (some h) hs + 1) 0
unfolding seqs
seqs-range_after h hs top = elim (Bool-cases (ltb h hs)) [
  | inl above ↦
      let less : h < hs = ltb→lt h hs above in
      rw (above, above, inc32_lt h hs top above) (between-split (h + 1) (hs + 1) (omega arith))
  | inr same ↦
      let equal : ltb h h ≡ false = ground arith in
      rw (same, equal) (append-nil (between (h + 1) 0))
]

module _ (cid : String) (bp : BatchPointer) (nbp : BatchPoint) (hs : ℕ) (s : List ℕ) where
  abbrev After : BatchPointer × Option RangeMap → Type 0
  After r = Covers cid r.0 (s ++ seqs (both r.1 (λ rm. lookup rm cid)))

  step-Covers :
      Keyed nbp
      → hs < word32
      → lookup nbp cid ≡ some hs
      → Covers cid bp s
      → After (try_batch_point bp nbp)
  unfolding seqs
  step-Covers keyed top_word h (Covers.nothing start none_yet) =
      let all : hs + 1 - 0 ≡ hs + 1 = omega arith in
      subst After (sym (try-first bp nbp (start_point start) (some_client nbp cid hs h))) (
        Covers.up_to nbp hs (last_point-append bp.batch_points nbp) h (
          ap (λ x. x ++ seqs (lookup (make_range_map1 nbp) cid)) none_yet
          ∙ ap seqs (
              lookup-make_range_map1 nbp cid
              ∙ ap (λ o. both o (λ hs. some (record { start = 0; stop = hs }))) h)
          ∙ ap (λ x. between x 0) all))
  step-Covers keyed top_word h (Covers.up_to last top at_last at_cid is) =
      let grown : lookup (grown_point last nbp) cid ≡ some (greater (some top) hs) =
        lookup-grown_point last nbp cid
        ∙ ap (λ o. both o (λ hs. some (greater (lookup last cid) hs))) h
        ∙ ap (λ o. some (greater o hs)) at_cid in
      elim (Bool-cases (any_greater last nbp)) [
        | inl grows ↦ subst After (sym (try-grown bp nbp last at_last grows)) (
            Covers.up_to (grown_point last nbp) (greater (some top) hs)
              (last_point-append bp.batch_points (grown_point last nbp)) grown
              (ap (λ x. x ++ seqs (lookup (make_range_map2 last (grown_point last nbp)) cid)) is
                ∙ ap (λ o. between (top + 1) 0 ++ seqs o)
                    (lookup-make_range_map2 last (grown_point last nbp) cid
                        (grown_point-Keyed last nbp keyed)
                      ∙ ap (λ o. both o (range_after (lookup last cid))) grown
                      ∙ ap (λ o. range_after o (greater (some top) hs)) at_cid)
                ∙ seqs-range_after top hs top_word))
        | inr same ↦
            subst After (sym (try-same bp nbp last at_last same))
              (Covers.up_to last top at_last at_cid (append-nil s ∙ is))
      ]

-- A batch point that a Go map can be, in which the client has a sequence number.
pub record HasClient (cid : String) (nbp : BatchPoint) : Type 0 where
  pub keyed : Keyed nbp
  pub hs : ℕ
  pub word : hs < word32
  pub at_cid : lookup nbp cid ≡ some hs

covered-Covers :
    (cid : String) (bp : BatchPointer) (s : List ℕ) (nbps : List BatchPoint)
    → Covers cid bp s
    → All (HasClient cid) nbps
    → Covers cid (covered cid bp nbps).0 (s ++ (covered cid bp nbps).1)
unfolding covered
covered-Covers cid bp s [] c h = subst (Covers cid bp) (sym (append-nil s)) c
covered-Covers cid bp s (nbp ∷ nbps) c h =
    let (bp', ranges) = try_batch_point bp nbp in
    let now = seqs (both (try_batch_point bp nbp).1 (λ rm. lookup rm cid)) in
    let rest = covered cid (try_batch_point bp nbp).0 nbps in
    subst (Covers cid rest.0) (append_assoc s now rest.1) (
      covered-Covers cid (try_batch_point bp nbp).0 (s ++ now) nbps
        (step-Covers cid bp nbp h.0.hs s h.0.keyed h.0.word h.0.at_cid c) h.1)

-- While every batch point that is tried has a client, the ranges that the leader commits have each
-- sequence number of the client from 0 up to the last batch point's exactly once, in order (and
-- none before there is a batch point).
pub points-Covers :
    (cid : String) (nbps : List BatchPoint)
    → All (HasClient cid) nbps
    → Covers cid (covered cid new_batch_pointer nbps).0 (covered cid new_batch_pointer nbps).1
points-Covers cid nbps h = covered-Covers cid new_batch_pointer [] nbps (Covers.nothing refl refl) h

any_greater-new :
    (last nbp : BatchPoint) (cid : String) (hs : ℕ)
    → lookup last cid ≡ none
    → lookup nbp cid ≡ some hs
    → any_greater last nbp ≡ true
unfolding any_greater lookup
any_greater-new last [] cid hs h k = cc
any_greater-new last ((c, x) ∷ nbp) cid hs h k = elim (Bool-cases (str_eq c cid)) [
  | inl same ↦ rw ((eq_iff c cid).0 same, h) refl
  | inr other ↦ or_true (is_greater (lookup last c) x) (
      any_greater-new last nbp cid hs h
        (sym (ap (λ b. if b then some x else lookup nbp cid) other) ∙ k))
]
  where
    or_true : (a : Bool) {b : Bool} → b ≡ true → (a || b) ≡ true
    or_true true e = refl
    or_true false e = e

-- A client that is missing in one batch point that is done, and back in the next one tried, is given
-- all its sequence numbers from 0 on, whatever the earlier ranges had.
pub returning_client :
    (cid : String) (bp : BatchPointer) (last nbp nbp' : BatchPoint) (hs : ℕ)
    → last_point bp.batch_points ≡ some last
    → any_greater last nbp ≡ true
    → lookup nbp cid ≡ none
    → Keyed nbp
    → Keyed nbp'
    → lookup nbp' cid ≡ some hs
    → (covered cid bp (nbp ∷ nbp' ∷ [])).1 ≡ between (hs + 1) 0
unfolding covered seqs
returning_client cid bp last nbp nbp' hs at_last grows missing keyed keyed' back =
    subst
      (λ r.
        (seqs (of_client r.1) ++ (seqs (of_client (try_batch_point r.0 nbp').1) ++ []))
        ≡ between (hs + 1) 0)
      (sym (try-grown bp nbp last at_last grows))
      (subst
        (λ r.
          (seqs (lookup (make_range_map2 last without) cid) ++ (seqs (of_client r.1) ++ []))
          ≡ between (hs + 1) 0)
        (sym (
          try-grown (with_point bp nbp without) nbp' without
            (last_point-append bp.batch_points without)
            (any_greater-new without nbp' cid hs left_out back)))
        (rw (no_range, from_zero, all) (append-nil (between (hs + 1) 0))))
  where
    of_client : Option RangeMap → Option ClientRange
    of_client o = both o (λ rm. lookup rm cid)

    without : BatchPoint
    without = grown_point last nbp

    left_out : lookup without cid ≡ none
    left_out =
        lookup-grown_point last nbp cid
        ∙ ap (λ o. both o (λ hs. some (greater (lookup last cid) hs))) missing

    no_range : lookup (make_range_map2 last without) cid ≡ none
    no_range =
        lookup-make_range_map2 last without cid (grown_point-Keyed last nbp keyed)
        ∙ ap (λ o. both o (range_after (lookup last cid))) left_out

    with_client : BatchPoint
    with_client = grown_point without nbp'

    at_client : lookup with_client cid ≡ some hs
    at_client =
        lookup-grown_point without nbp' cid
        ∙ ap (λ o. both o (λ hs. some (greater (lookup without cid) hs))) back
        ∙ ap (λ o. some (greater o hs)) left_out

    from_zero :
        lookup (make_range_map2 without with_client) cid ≡ some (record { start = 0; stop = hs })
    from_zero =
        lookup-make_range_map2 without with_client cid (grown_point-Keyed without nbp' keyed')
        ∙ ap (λ o. both o (range_after (lookup without cid))) at_client
        ∙ ap (λ o. range_after o hs) left_out

    all : hs + 1 - 0 ≡ hs + 1
    all = omega arith
