-- ===== src/Reclamations/Resolved.antt =====
-- When a support issue has an instant of its resolution.
use ordely.Common.{
  ℕ, ◌≡◌, refl, String, if◌then◌else◌, none, some, List, [], ◌∷◌, ◌++◌, arith, All, update-All,
  str_eq, is_set, Option-cases, Bool-cases, inl, inr, final, find, ◌==◌,
}
use ordely.Reclamations.{
  Reclamation, Reclamations, CreateReclamationDto, create_reclamation, update_status, with_status,
  check_order, owned,
}

-- The instant is set exactly where the issue is resolved.
abbrev pub HasInstant : Reclamation → Type 0
HasInstant r = is_set r.resolved_at ≡ str_eq r.status "resolved"

All-append :
    (rows : List Reclamation) (r : Reclamation)
    → All HasInstant rows
    → HasInstant r
    → All HasInstant (rows ++ r ∷ [])
All-append [] r a h = (h, tt)
All-append (x ∷ rows) r (p, a) h = (p, All-append rows r a h)

-- Submitting an issue keeps it so that exactly the resolved issues have the instant of their
-- resolution.
pub create_reclamation-HasInstant :
    (now boutique_id user_id : ℕ) (dto : CreateReclamationDto) (db : Reclamations)
    → All HasInstant db.rows
    → All HasInstant (final (create_reclamation now boutique_id user_id dto) db).rows
unfolding create_reclamation
create_reclamation-HasInstant now b u dto db a = elim (Option-cases dto.order_id) [
  | inl none_given ↦ rw (none_given, check_order, final) (All-append db.rows _ a refl)
  | inr (id, given) ↦ elim (Bool-cases (id == 0)) [
    | inl zero_id ↦ rw (given, check_order, zero_id, final) (All-append db.rows _ a refl)
    | inr some_id ↦ elim (Option-cases (find (owned b id) db.orders)) [
      | inl foreign ↦ rw (given, check_order, some_id, foreign, final) a
      | inr (o, found) ↦
          rw (given, check_order, some_id, found, final) (All-append db.rows _ a refl)
    ]
  ]
]

-- A change of the status by the team does too, also back from resolved.
pub update_status-HasInstant :
    (now id : ℕ) (status : String) (db : Reclamations)
    → All HasInstant db.rows
    → All HasInstant (final (update_status now id status) db).rows
unfolding update_status
update_status-HasInstant now id status db a = elim (Option-cases (find (λ r. r.id == id) db.rows)) [
  | inl missing ↦ rw (missing, final) a
  | inr (r, found) ↦
      rw (found, final)
        (update-All HasInstant (λ x. x.id == id) (with_status now status) db.rows (λ x e h. written)
          a)
]
  where
    written :
        is_set (if str_eq status "resolved" then some now else none) ≡ str_eq status "resolved"
    written = ground arith
