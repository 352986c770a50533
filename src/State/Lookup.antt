-- ===== src/State/Lookup.antt =====
-- What `find_by_call_ids` finds: its loop over the rows, seen as a chain of rounds.
use codex_mimo_adapter.Base.{
  String, ◌≡◌, refl, sym, ap, ◌∙◌, Bool, true, false, ◌&&◌, none, some, List, [], ◌∷◌, ◌⊎◌, inl,
  inr, arith, eq_iff, eq_refl, contains, all, all-Inside_iff, All, Inside, Among, All-at, Inside-at,
  contains-Inside, Bool-cases, Option-cases, str-cases,
}
use mathlib.Core.Path.{subst}
use codex_mimo_adapter.Base.Int.{ℤ, ◌-ℤ◌, wrap_i64}
use codex_mimo_adapter.Base.Result.{ok, >>=-eq-ok}
use codex_mimo_adapter.State.{
  StoredResponse, Payload, Scan, matched, scan_wanted, note_unique, scan_row, scan_rows,
  unique_result, start, to_set, find_by_call_ids, Database, cutoff,
}

-- The rounds of the loop over the decoded rows, none of which ends it.
abbrev pub Runs : List String → List StoredResponse → Scan → Scan → Type 0
Runs wanted [] s t = s ≡ t
Runs wanted (item ∷ items) s t =
    (s' : Scan) × (scan_row wanted item s ≡ some s') × Runs wanted items s' t

-- The rows decode to these items, in order.
abbrev pub Decodes : Payload → List String → List StoredResponse → Type 0
Decodes payload [] [] = Unit
Decodes payload (row ∷ rows) (item ∷ items) =
    (payload.decode row ≡ ok item) × Decodes payload rows items
Decodes payload _ _ = ⊥

abbrev Grows : List (String × String) → List (String × String) → Type 0
Grows m n = (k v : String) → matched k m ≡ some v → matched k n ≡ some v

-- Every wanted id that the item has pending is matched to the item.
abbrev Marks : List String → List (String × String) → StoredResponse → Type 0
Marks wanted m item =
    All (λ w. contains item.pending_call_ids w ≡ true → matched w m ≡ some item.response_id) wanted

matched-cons : (k v : String) (m : List (String × String)) → matched k ((k, v) ∷ m) ≡ some v
unfolding matched
matched-cons k v m = rw (eq_refl k)

Grows-cons : (k v : String) (m : List (String × String)) → matched k m ≡ none → Grows m ((k, v) ∷ m)
unfolding matched
Grows-cons k v m fresh j w h = elim (str-cases k j) [
  | inl (e, _) ↦ absurd (cc (rw e at fresh))
  | inr (_, n) ↦ rw n h
]

scan_wanted_lem :
    (item : StoredResponse) (wanted : List String) (m : List (String × String)) (hit : Bool)
    {m' : List (String × String)} {hit' : Bool}
    → scan_wanted item wanted m hit ≡ some (m', hit')
    → Grows m m' × Marks wanted m' item
unfolding scan_wanted
scan_wanted_lem item [] m hit h = (λ k v e. ground arith, tt)
scan_wanted_lem item (w ∷ wanted) m hit {m'} h =
    elim (Bool-cases (contains item.pending_call_ids w)) [
      | inr other ↦
          let (grows, marks) = scan_wanted_lem item wanted m hit (rw (other, scan_wanted) at h) in
          (grows, (λ p. cc, marks))
      | inl pending ↦ elim (Option-cases (matched w m)) [
        | inl fresh ↦
            let (grows, marks) =
              scan_wanted_lem item wanted ((w, item.response_id) ∷ m) true
                (rw (pending, fresh, scan_wanted) at h) in
            (
              λ k v e. grows k v (Grows-cons w item.response_id m fresh k v e),
              (λ _. grows w item.response_id (matched-cons w item.response_id m), marks),
            )
        | inr (existing, old) ↦ elim (str-cases existing item.response_id) [
          | inr (_, n) ↦ absurd (cc (rw (pending, old, n, scan_wanted) at h))
          | inl (same, e) ↦
              let (grows, marks) =
                scan_wanted_lem item wanted m true (rw (pending, old, e, scan_wanted) at h) in
              (grows, (λ _. grows w item.response_id (old ∙ ap some same), marks))
        ]
      ]
    ]

-- What a run of rounds knows of the unique response: it is as before, or one of the items, and has
-- all wanted ids pending.
abbrev Unique : List String → List StoredResponse → Scan → Scan → Type 0
Unique wanted items s t =
    (t.unique_response ≡ s.unique_response)
    ⊎ ((r : StoredResponse) × (t.unique_response ≡ some r)
        × Among r items
        × Inside r.pending_call_ids wanted)

note_unique_lem :
    (wanted : List String) (item : StoredResponse) (hit : Bool) (s : Scan) {t : Scan}
    → note_unique wanted item hit s ≡ some t
    → (t.matched_by_call_id ≡ s.matched_by_call_id) × Unique wanted (item ∷ []) s t
unfolding note_unique
note_unique_lem wanted item hit s {t} h =
    elim (Bool-cases (hit && all (contains item.pending_call_ids) wanted)) [
      | inr other ↦ ground arith
      | inl covers ↦ elim (Option-cases s.unique_response_id) [
        | inr (existing, old) ↦ ground arith
        | inl fresh ↦
            let e : some (record s {
              unique_response = some item;
              unique_response_id = some item.response_id;
            })
                ≡ some t =
              rw (covers, fresh, note_unique) at h in
            (
              ground arith,
              inr (
                item,
                ground arith,
                inl refl,
                (all-Inside_iff item.pending_call_ids wanted).0 (ground arith),
              ),
            )
      ]
    ]

scan_row_lem :
    (wanted : List String) (item : StoredResponse) (s : Scan) {t : Scan}
    → scan_row wanted item s ≡ some t
    → Grows s.matched_by_call_id t.matched_by_call_id
      × Marks wanted t.matched_by_call_id item
      × Unique wanted (item ∷ []) s t
unfolding scan_row
scan_row_lem wanted item s h =
    elim (Option-cases (scan_wanted item wanted s.matched_by_call_id false)) [
      | inl stop ↦ absurd (cc (rw (stop, scan_row) at h))
      | inr ((m, hit), e) ↦
          let (grows, marks) = scan_wanted_lem item wanted s.matched_by_call_id false e in
          let (same, unique) =
            note_unique_lem wanted item hit (record s { matched_by_call_id = m })
              (rw (e, scan_row) at h) in
          (rw same grows, rw same marks, unique)
    ]

Marks-Grows :
    (wanted : List String) (m n : List (String × String)) (item : StoredResponse)
    → Grows m n
    → Marks wanted m item
    → Marks wanted n item
Marks-Grows [] m n item grows marks = tt
Marks-Grows (w ∷ wanted) m n item grows marks =
    (λ p. grows w item.response_id (marks.0 p), Marks-Grows wanted m n item grows marks.1)

Runs_lem :
    (wanted : List String) (items : List StoredResponse) (s t : Scan)
    → Runs wanted items s t
    → Grows s.matched_by_call_id t.matched_by_call_id
      × All (Marks wanted t.matched_by_call_id) items
      × Unique wanted items s t
Runs_lem wanted [] s t e =
    (λ k v h. rw (← e) h, tt, inl (ap (λ (x : Scan). x.unique_response) (sym e)))
Runs_lem wanted (item ∷ items) s t (s', one, later) =
    let (grows, marks, unique) = scan_row_lem wanted item s one in
    let (grows', marks', unique') = Runs_lem wanted items s' t later in
    (
      λ k v h. grows' k v (grows k v h),
      (Marks-Grows wanted _ _ item grows' marks, marks'),
      Unique-trans unique unique',
    )
  where
    Unique-trans :
        Unique wanted (item ∷ []) s s' → Unique wanted items s' t → Unique wanted (item ∷ items) s t
    Unique-trans (inl a) (inl b) = inl (b ∙ a)
    Unique-trans (inr (r, e, inl here, covers)) (inl b) = inr (r, b ∙ e, inl here, covers)
    Unique-trans (inr (r, e, inr nowhere, covers)) (inl b) = elim nowhere [ ]
    Unique-trans _ (inr (r, e, a, covers)) = inr (r, e, inr a, covers)

scan_rows-Runs :
    (payload : Payload) (wanted rows : List String) (s : Scan) {r : StoredResponse}
    → scan_rows payload wanted rows s ≡ ok (some r)
    → (items : List StoredResponse) × (t : Scan) × Decodes payload rows items
      × Runs wanted items s t
      × (unique_result wanted t ≡ some r)
unfolding scan_rows
scan_rows-Runs payload wanted [] s h = ([], s, tt, refl, ground arith)
scan_rows-Runs payload wanted (row ∷ rows) s h =
    let (item, decoded, rest) = >>=-eq-ok (payload.decode row) _ h in
    elim (Option-cases (scan_row wanted item s)) [
      | inl stop ↦ absurd (cc (rw stop at rest))
      | inr (s', one) ↦
          let (items, t, decodes, runs, result) =
            scan_rows-Runs payload wanted rows s' (rw one at rest) in
          (item ∷ items, t, (decoded, decodes), (s', one, runs), result)
    ]

contains-to_set : (xs : List String) (y : String) → contains (to_set xs) y ≡ contains xs y
unfolding to_set
contains-to_set [] y = refl
contains-to_set (x ∷ xs) y = ground (arith, contains-to_set xs y, contains-to_set xs x, eq_iff x y)

-- No decoded row but those of response `r` has a wanted id pending.
abbrev pub OnlyOf : List String → StoredResponse → StoredResponse → Type 0
OnlyOf ids r item =
    (w : String)
    → contains ids w ≡ true
    → contains item.pending_call_ids w ≡ true
    → item.response_id ≡ r.response_id

Marks-at :
    (wanted : List String) (m : List (String × String)) (item : StoredResponse) (w : String)
    → Marks wanted m item
    → contains wanted w ≡ true
    → contains item.pending_call_ids w ≡ true
    → matched w m ≡ some item.response_id
Marks-at [] m item w marks h p = cc
Marks-at (x ∷ wanted) m item w marks h p = elim (str-cases x w) [
  | inl (e, _) ↦ rw e at (marks.0 (rw e p))
  | inr (_, n) ↦ Marks-at wanted m item w marks.1 (rw n at h) p
]

OnlyOf-All :
    (ids : List String) (m : List (String × String)) (r : StoredResponse)
    (items : List StoredResponse)
    → Marks (to_set ids) m r
    → Inside r.pending_call_ids (to_set ids)
    → All (Marks (to_set ids) m) items
    → All (OnlyOf ids r) items
OnlyOf-All ids m r [] mr ir ms = tt
OnlyOf-All ids m r (item ∷ items) mr ir ms = (
  λ w h p.
      let h' : contains (to_set ids) w ≡ true = contains-to_set ids w ∙ h in
      cc (
        Marks-at (to_set ids) m item w ms.0 h' p,
        Marks-at (to_set ids) m r w mr h' (Inside-at r.pending_call_ids (to_set ids) w ir h'),
      ),
  OnlyOf-All ids m r items mr ir ms.1,
)

Inside-to_set : (seen ids : List String) → Inside seen (to_set ids) → Inside seen ids
Inside-to_set seen ids i =
    contains-Inside seen ids (λ w h. Inside-at seen (to_set ids) w i (contains-to_set ids w ∙ h))

-- A response that `find_by_call_ids` returns is one of the rows that are not older than the cutoff,
-- which is the time less the time to live in 64 bits, has all the requested ids pending, and no such
-- row of another response has any requested id pending.
pub find_by_call_ids_sound :
    (payload : Payload) (database : Database) (ttl_seconds now : ℤ) (ids : List String)
    (db : database.Db) {r : StoredResponse}
    → find_by_call_ids payload database ttl_seconds now ids db ≡ ok (some r)
    → (rows : List String) × (items : List StoredResponse) × (database.select_since
          (wrap_i64 (now -ℤ ttl_seconds))
          db
        ≡ ok rows)
      × Decodes payload rows items
      × Among r items
      × Inside r.pending_call_ids ids
      × All (OnlyOf ids r) items
unfolding find_by_call_ids unique_result cutoff
find_by_call_ids_sound payload database ttl now [] db h = cc
find_by_call_ids_sound payload database ttl now (id ∷ rest) db {r} h =
    let ids = id ∷ rest in
    let (rows, selected, scanned) =
      >>=-eq-ok (database.select_since (wrap_i64 (now -ℤ ttl)) db) _ h in
    let (items, t, decodes, runs, result) =
      scan_rows-Runs payload (to_set ids) rows start scanned in
    let (_, marks, unique) = Runs_lem (to_set ids) items start t runs in
    let (among, covers) = found ids items t unique (ground arith) in
    (
      rows,
      items,
      selected,
      decodes,
      among,
      Inside-to_set r.pending_call_ids ids covers,
      OnlyOf-All ids t.matched_by_call_id r items
          (All-at (Marks (to_set ids) t.matched_by_call_id) items marks among) covers marks,
    )
  where
    found :
        (ids : List String) (items : List StoredResponse) (t : Scan)
        → Unique (to_set ids) items start t
        → t.unique_response ≡ some r
        → Among r items × Inside r.pending_call_ids (to_set ids)
    found ids items t (inl e) h' = cc
    found ids items t (inr (r', e, a, c)) h' =
        let same : r' ≡ r = ground arith in
        (
          subst (λ x. Among x items) same a,
          subst (λ (x : StoredResponse). Inside x.pending_call_ids (to_set ids)) same c,
        )
