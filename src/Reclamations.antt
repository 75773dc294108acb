-- ===== src/Reclamations.antt =====
-- backend/src/reclamations/reclamations.service.ts: the support issues of the shops.
pub mod Resolved
use ordely.Common.{
  ℕ, ◌+◌, String, Bool, true, false, ◌&&◌, Option, none, some, List, [], ◌∷◌, ◌++◌, if◌then◌else◌,
  ◌==◌, str_eq, is_set, Exec, refuse, gets, modify, pure, demand, require, when, ◌>>=◌, ◌>>◌,
  not_found, find, select, update,
}
use ordely.Store.{Order}

pub record Reclamation : Type 0 where
  pub id : ℕ
  pub boutique_id : ℕ
  pub user_id : ℕ
  pub order_id : Option ℕ
  pub subject : String
  pub description : String
  pub status : String
  pub resolved_at : Option ℕ
  pub created_at : ℕ

pub record Reclamations : Type 0 where
  pub orders : List Order
  pub rows : List Reclamation
  pub next_id : ℕ

pub record CreateReclamationDto : Type 0 where
  pub subject : String
  pub description : String
  pub order_id : Option ℕ

-- `where: { id, boutiqueId }`
abbrev pub own_reclamation : ℕ → ℕ → Reclamation → Bool
own_reclamation boutique_id id r = r.id == id && r.boutique_id == boutique_id

unfoldable pub find_for_boutique : ℕ → ℕ → Exec Reclamations Reclamation
unfolding find
find_for_boutique boutique_id id =
    demand not_found (λ db. find (own_reclamation boutique_id id) db.rows)

abbrev pub owned : ℕ → ℕ → Order → Bool
owned boutique_id id o = o.id == id && o.boutique_id == boutique_id

-- `if (dto.orderId)`: 0 counts as absent.
abbrev pub check_order : ℕ → Option ℕ → Exec Reclamations (Unit {0})
check_order boutique_id none db = pure tt db
check_order boutique_id (some id) db =
    if id == 0
    then pure tt db
    else (demand not_found (λ s. find (owned boutique_id id) s.orders) >> pure tt) db

abbrev pub new_reclamation : ℕ → ℕ → ℕ → ℕ → CreateReclamationDto → Reclamation
new_reclamation id now boutique_id user_id dto = record {
  id = id;
  boutique_id = boutique_id;
  user_id = user_id;
  order_id = dto.order_id;
  subject = dto.subject;
  description = dto.description;
  status = "open";
  resolved_at = none;
  created_at = now;
}

unfoldable pub create_reclamation : ℕ → ℕ → ℕ → CreateReclamationDto → Exec Reclamations Reclamation
unfolding find
create_reclamation now boutique_id user_id dto = do
  check_order boutique_id dto.order_id
  row ← gets (λ db. new_reclamation db.next_id now boutique_id user_id dto)
  modify (λ db. record db { rows = db.rows ++ row ∷ []; next_id = db.next_id + 1 })
  pure row

-- `status === 'resolved' ? new Date() : null`
abbrev pub with_status : ℕ → String → Reclamation → Reclamation
with_status now status r = record r {
  status = status;
  resolved_at = if str_eq status "resolved" then some now else none;
}

unfoldable pub update_status : ℕ → ℕ → String → Exec Reclamations Reclamation
unfolding find update
update_status now id status = do
  found ← demand not_found (λ db. find (λ r. r.id == id) db.rows)
  modify (λ db. record db { rows = update (λ r. r.id == id) (with_status now status) db.rows })
  pure (with_status now status found)
