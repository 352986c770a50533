-- ===== src/History/Ids.antt =====
-- What the checks on lists of call ids accept.
use codex_mimo_adapter.Base.{
  String, ◌≡◌, ◌↔◌, refl, true, false, List, [], ◌∷◌, ◌++◌, arith, contains, Distinct, Outside,
  Inside, Outside-cons_iff, Bool-cases, inl, inr, ap, contains-append, ◌⊎◌,
}
use codex_mimo_adapter.Base.Result.{ok, err, Result-cases}
use codex_mimo_adapter.State.{StoredResponse}
use codex_mimo_adapter.History.{
  HistoryResolutionError, unknown_tool_call, duplicate_tool_output, no_duplicates_from,
  ensure_no_duplicate_call_outputs, all_pending, validate_requested_call_ids,
}

no_duplicates_from_iff :
    (seen ids : List String)
    → (no_duplicates_from seen ids ≡ ok tt) ↔ (Distinct ids × Outside seen ids)
unfolding no_duplicates_from
no_duplicates_from_iff seen [] = (λ _. (tt, tt), λ _. refl)
no_duplicates_from_iff seen (x ∷ xs) =
    ground (arith, no_duplicates_from_iff (x ∷ seen) xs, Outside-cons_iff x seen xs)

all_pending_iff :
    (pending ids : List String) → (all_pending pending ids ≡ ok tt) ↔ Inside pending ids
unfolding all_pending
all_pending_iff pending [] = (λ _. tt, λ _. refl)
all_pending_iff pending (x ∷ xs) = ground (arith, all_pending_iff pending xs)

Outside-nil : (ids : List String) → Outside [] ids
Outside-nil [] = tt
Outside-nil (x ∷ xs) = (refl, Outside-nil xs)

-- `ensure_no_duplicate_call_outputs` succeeds exactly when all ids differ.
pub ensure_no_duplicate_call_outputs_iff :
    (ids : List String) → (ensure_no_duplicate_call_outputs ids ≡ ok tt) ↔ Distinct ids
unfolding ensure_no_duplicate_call_outputs
ensure_no_duplicate_call_outputs_iff ids =
    ground (arith, no_duplicates_from_iff [] ids, Outside-nil ids)

-- `validate_requested_call_ids` succeeds exactly when the requested ids all differ and are all
-- pending in the previous response.
pub validate_requested_call_ids_iff :
    (previous : StoredResponse) (ids : List String)
    → (validate_requested_call_ids previous ids ≡ ok tt)
      ↔ (Distinct ids × Inside previous.pending_call_ids ids)
unfolding validate_requested_call_ids
validate_requested_call_ids_iff previous ids =
    ground (
      arith,
      ensure_no_duplicate_call_outputs_iff ids,
      all_pending_iff previous.pending_call_ids ids,
    )

-- Where an id list is refused: the first id that stands in the list twice.
abbrev pub FirstRepeat : List String → List String → String → Type 0
FirstRepeat seen ids x =
    (before : List String) × (after : List String) × (ids ≡ before ++ x ∷ after)
    × Distinct before
    × Outside seen before
    × (contains (before ++ seen) x ≡ true)

no_duplicates_from-eq-err :
    (seen ids : List String) {e : HistoryResolutionError}
    → no_duplicates_from seen ids ≡ err e
    → (x : String) × (e ≡ duplicate_tool_output x) × FirstRepeat seen ids x
unfolding no_duplicates_from
no_duplicates_from-eq-err seen [] h = cc
no_duplicates_from-eq-err seen (x ∷ xs) h = elim (Bool-cases (contains seen x)) [
  | inl old ↦ (x, ground arith, ([], xs, refl, tt, tt, old))
  | inr new ↦
      let (y, e, (before, after, splits, differ, outside, again)) =
        no_duplicates_from-eq-err (x ∷ seen) xs (rw (new, no_duplicates_from) at h) in
      let apart = (Outside-cons_iff x seen before).0 outside in
      (
        y,
        e,
        (
          x ∷ before,
          after,
          ap (◌∷◌ x) splits,
          (apart.0, differ),
          (new, apart.1),
          ground (arith, contains-append before (x ∷ seen) y, contains-append before seen y),
        ),
      )
]

-- A refusal of `ensure_no_duplicate_call_outputs` is a `duplicate_tool_output`, and names the first
-- id of the list that stands in it a second time: the ids before that place all differ, and that
-- id is one of them.
pub ensure_no_duplicate_call_outputs-eq-err :
    (ids : List String) {e : HistoryResolutionError}
    → ensure_no_duplicate_call_outputs ids ≡ err e
    → (x : String) × (e ≡ duplicate_tool_output x) × FirstRepeat [] ids x
unfolding ensure_no_duplicate_call_outputs
ensure_no_duplicate_call_outputs-eq-err ids h = no_duplicates_from-eq-err [] ids h

-- Where a request is refused for an id that is not pending: the ids before it are.
abbrev pub FirstUnknown : List String → List String → String → Type 0
FirstUnknown pending ids x =
    (before : List String) × (after : List String) × (ids ≡ before ++ x ∷ after)
    × Inside pending before
    × (contains pending x ≡ false)

all_pending-eq-err :
    (pending ids : List String) {e : HistoryResolutionError}
    → all_pending pending ids ≡ err e
    → (x : String) × (e ≡ unknown_tool_call x) × FirstUnknown pending ids x
unfolding all_pending
all_pending-eq-err pending [] h = cc
all_pending-eq-err pending (x ∷ xs) h = elim (Bool-cases (contains pending x)) [
  | inl known ↦
      let (y, e, (before, after, splits, inside, unknown)) =
        all_pending-eq-err pending xs (rw (known, all_pending) at h) in
      (y, e, (x ∷ before, after, ap (◌∷◌ x) splits, (known, inside), unknown))
  | inr unknown ↦ (x, ground arith, ([], xs, refl, tt, unknown))
]

-- `validate_requested_call_ids` fails in two ways: with a repeated id, the first such one; or, if
-- all requested ids differ, with the first one that is not pending.
pub validate_requested_call_ids-eq-err :
    (previous : StoredResponse) (ids : List String) {e : HistoryResolutionError}
    → validate_requested_call_ids previous ids ≡ err e
    → ((x : String) × (e ≡ duplicate_tool_output x) × FirstRepeat [] ids x)
      ⊎ ((x : String) × (e ≡ unknown_tool_call x)
          × Distinct ids
          × FirstUnknown previous.pending_call_ids ids x)
unfolding validate_requested_call_ids
validate_requested_call_ids-eq-err previous ids h =
    elim (Result-cases (ensure_no_duplicate_call_outputs ids)) [
      | inl (u, fine) ↦
          let (x, e, first) =
            all_pending-eq-err previous.pending_call_ids ids
              (rw (fine, validate_requested_call_ids) at h) in
          inr (x, e, (ensure_no_duplicate_call_outputs_iff ids).0 fine, first)
      | inr (e', bad) ↦
          let (x, e, first) = ensure_no_duplicate_call_outputs-eq-err ids bad in
          inl (x, ground arith, first)
    ]
