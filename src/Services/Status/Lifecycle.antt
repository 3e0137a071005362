-- ===== src/Services/Status/Lifecycle.antt =====
-- status-service.ts and status-repository.ts: the life of a document over a run of transitions.
use credaryn.Base.{Result-cases, append_assoc, ◌⊎◌, ◌∙◌, append-nil, subst, refl, required}
use credaryn.Base.Maps.{lookup, lookup-put, lookup-put-other}
use credaryn.Base.{
  inr, ap, ok_injective, sym, inl, none, arith, Bool-cases, not, false, [], refuse_if, ◌++◌,
  >>=-eq-ok, ◌∷◌, true, ok, some, ◌≡◌, List, Bool, Option,
}
use credaryn.Services.Status.{
  Request, serve, serve_all, StatusReference, history, reason_required, service_unavailable,
  is_active, status_reference_key, or_empty, is_allowed, StatusTransitionInput, StatusRecord,
  current, Repository, append_record, transition,
}
use credaryn.Base.Text.{list_eq→eq, is_blank, list_eq, Text}

-- The current record of a document and its history: none yet, one that is active, or an active one
-- and the one that ended it.
abbrev pub IsCoherent : Option StatusRecord → List StatusRecord → Type 0
IsCoherent none [] = Unit
IsCoherent (some r) (a ∷ []) = (a ≡ r) × (is_active r.status ≡ true)
IsCoherent (some r) (a ∷ b ∷ []) =
    (b ≡ r) × (is_active a.status ≡ true) × (is_active r.status ≡ false)
IsCoherent _ _ = ⊥

abbrev pub IsConsistent : Repository → Type 0
IsConsistent repository =
    (key : Text)
    → IsCoherent (lookup key repository.current_records)
        (or_empty (lookup key repository.history_records))

IsCoherent-step :
    (o : Option StatusRecord) (records : List StatusRecord) (r : StatusRecord)
    → is_allowed o r.status ≡ true
    → IsCoherent o records
    → IsCoherent (some r) (records ++ r ∷ [])
IsCoherent-step none [] r a c = (refl, a)
IsCoherent-step none (x ∷ xs) r a c = absurd c
IsCoherent-step (some p) [] r a c = absurd c
IsCoherent-step (some p) (x ∷ []) r a (same, first) = (refl, rw same first, ground arith)
IsCoherent-step (some p) (x ∷ y ∷ []) r a (same, first, second) = absurd (ground arith)
IsCoherent-step (some p) (x ∷ y ∷ z ∷ xs) r a c = absurd c

append_record-IsConsistent :
    (r : StatusRecord) (repository : Repository)
    → is_allowed (current r.reference repository) r.status ≡ true
    → IsConsistent repository
    → IsConsistent (append_record r repository)
unfolding append_record current
append_record-IsConsistent r repository a c key =
    let here = status_reference_key r.reference in
    let records = or_empty (lookup here repository.history_records) ++ r ∷ [] in
    elim (Bool-cases (list_eq here key)) [
      | inl same ↦
          rw
            (
              sym (list_eq→eq here key same),
              lookup-put here r repository.current_records,
              lookup-put here records repository.history_records,
            )
            (IsCoherent-step _ _ r a (c here))
      | inr other ↦
          rw
            (
              lookup-put-other here key r repository.current_records other,
              lookup-put-other here key records repository.history_records other,
            )
            (c key)
    ]

transition-eq-ok :
    (available : Bool) (now : Text) (input : StatusTransitionInput) (repository after : Repository)
    (r : StatusRecord)
    → transition available now input repository ≡ ok (after, r)
    → (is_allowed (current r.reference repository) r.status ≡ true)
      × (after ≡ append_record r repository)
unfolding transition
transition-eq-ok available now input repository after r h =
    let (u, a, h1) = >>=-eq-ok (refuse_if (not available) service_unavailable) _ h in
    let (v, b, h2) = >>=-eq-ok (refuse_if (is_blank input.reason) reason_required) _ h1 in
    let (w, c, h3) =
      >>=-eq-ok (refuse_if (not (is_allowed (current input.reference repository) input.status)) _) _
        h2 in
    let same = ok_injective _ _ h3 in
    subst
      (λ (p : Repository × StatusRecord).
        (is_allowed (current p.1.reference repository) p.1.status ≡ true)
        × (p.0 ≡ append_record p.1 repository))
      same (required _ _ c, refl)

-- What a call leaves: the repository as it was, or an appended record that was allowed.
serve-cases :
    (request : Request) (repository : Repository)
    → (serve request repository ≡ repository)
      ⊎ ((r : StatusRecord) × (is_allowed (current r.reference repository) r.status ≡ true)
          × (serve request repository ≡ append_record r repository))
unfolding serve
serve-cases request repository =
    elim (Result-cases (transition request.available request.now request.input repository)) [
      | inr (e, h) ↦ inl (rw (serve, h) refl)
      | inl (p, h) ↦
          let (a, s) =
            transition-eq-ok request.available request.now request.input repository p.0 p.1 h in
          inr (p.1, a, rw (serve, h) s)
    ]

-- Whatever calls are served, every document that had no record, one active record, or an active
-- one and one that ended it, is still so: a document is activated once, ended once, and its
-- current record is the last one of its history.
pub serve_all-IsConsistent :
    (requests : List Request) (repository : Repository)
    → IsConsistent repository
    → IsConsistent (serve_all requests repository)
unfolding serve_all
serve_all-IsConsistent [] repository c = c
serve_all-IsConsistent (request ∷ requests) repository c =
    serve_all-IsConsistent requests (serve request repository)
      (elim (serve-cases request repository) [
        | inl same ↦ subst IsConsistent (sym same) c
        | inr (r, a, same) ↦
            subst IsConsistent (sym same) (append_record-IsConsistent r repository a c)
      ])

-- The history of every document is kept, with records added at its end.
abbrev pub Extends : Repository → Repository → Type 0
Extends before after =
    (reference : StatusReference)
    → (added : List StatusRecord) × (history reference after ≡ history reference before ++ added)

append_record-Extends :
    (r : StatusRecord) (repository : Repository) → Extends repository (append_record r repository)
unfolding append_record history
append_record-Extends r repository reference =
    let here = status_reference_key r.reference in
    let key = status_reference_key reference in
    let records = or_empty (lookup here repository.history_records) ++ r ∷ [] in
    elim (Bool-cases (list_eq here key)) [
      | inl same ↦ (
        r ∷ [],
        rw (sym (list_eq→eq here key same), lookup-put here records repository.history_records)
            refl,
      )
      | inr other ↦ (
        [],
        rw (lookup-put-other here key records repository.history_records other, append-nil) refl,
      )
    ]

-- Whatever calls are served, the history of every document stays as it was, with records added at
-- its end.
pub serve_all-Extends :
    (requests : List Request) (repository : Repository)
    → Extends repository (serve_all requests repository)
unfolding serve_all
serve_all-Extends [] repository reference = ([], sym (append-nil _))
serve_all-Extends (request ∷ requests) repository reference =
    let (first, p) =
      elim (serve-cases request repository)
        as (λ _.
          (added : List StatusRecord) × (history reference (serve request repository)
            ≡ history reference repository ++ added)) [
              | inl same ↦ ([], rw (same, append-nil) refl)
              | inr (r, a, same) ↦ rw same (append_record-Extends r repository reference)
            ] in
    let (rest, q) = serve_all-Extends requests (serve request repository) reference in
    (
      first ++ rest,
      q ∙ (ap (λ h. h ++ rest) p ∙ append_assoc (history reference repository) first rest),
    )
