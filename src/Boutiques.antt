-- ===== src/Boutiques.antt =====
-- A shop and its onboarding: backend/src/boutique/boutique.service.ts.
pub mod Onboarding
use ordely.Common.{
  ℕ, ◌+◌, ◌*◌, String, Bool, true, false, not, ◌&&◌, ◌||◌, Option, none, some, List, [], ◌∷◌,
  if◌then◌else◌, str_eq, ltb, leb, ◌==◌, truthy, is_set, any, Exec, Result, ok, err, demand, refuse,
  modify, pure, gets, ◌>>=◌, ◌>>◌, unauthorized, bad_request, conflict, find, update,
}
use ordely.Common.Text.{Text}
use ordely.Voice.Rules.{parse_hhmm, minute_of, is_empty}
use ordely.Store.{Boutique}

-- The tables that the service reads and writes: users are given by the id of their shop.
pub record User : Type 0 where
  pub id : ℕ
  pub boutique_id : ℕ

pub record Shops : Type 0 where
  pub users : List User
  pub boutiques : List Boutique

abbrev filled_text : Option Text → Bool
filled_text none = false
filled_text (some t) = not (is_empty t)

abbrev no_items {ℓ} : {A : Type ℓ} → List A → Bool
no_items [] = true
no_items (x ∷ xs) = false

-- The first required screen that is missing, else 3.
unfoldable pub next_onboarding_step : Boutique → ℕ
next_onboarding_step b =
    if not (is_set (truthy b.name))
      || not (is_set (truthy b.business_phone))
      || not (is_set (truthy b.platform))
    then 1
    else if no_items b.call_languages
        || not (filled_text b.call_start_time)
        || not (filled_text b.call_end_time)
    then 2
    else 3

pub record View : Type 0 where
  pub boutique : Boutique
  pub completed : Bool
  pub next_step : ℕ

unfoldable pub view : Boutique → View
view b = record {
  boutique = b;
  completed = is_set b.onboarding_completed_at;
  next_step = next_onboarding_step b;
}

abbrev shop_of : Option User → Shops → Option Boutique
shop_of none s = none
shop_of (some u) s = find (λ b. b.id == u.boutique_id) s.boutiques

unfoldable pub load : ℕ → Exec Shops Boutique
load user_id s = demand unauthorized (shop_of (find (λ u. u.id == user_id) s.users)) s

abbrev write_shop : ℕ → (Boutique → Boutique) → Shops → Shops
write_shop id f s = record s { boutiques = update (λ b. b.id == id) f s.boutiques }

-- `this.update(userId, data)`: what is written is returned as it was read.
unfoldable pub write : ℕ → (Boutique → Boutique) → Exec Shops View
write user_id f = do b ← load user_id; modify (write_shop b.id f); pure (view (f b))

unfoldable pub get : ℕ → Exec Shops View
get user_id = do b ← load user_id; pure (view b)

pub record IdentityDto : Type 0 where
  pub name : String
  pub business_phone : String
  pub platform : String

unfoldable pub update_identity : ℕ → IdentityDto → Exec Shops View
update_identity user_id dto = write user_id λ b. record b {
  name = some dto.name;
  business_phone = some dto.business_phone;
  platform = some dto.platform;
}

pub record AgentDto : Type 0 where
  pub call_languages : List String
  pub call_start_time : Text
  pub call_end_time : Text
  pub confirmation_process : Option String

abbrev pub min_call_window_minutes : ℕ
min_call_window_minutes = 60

-- `minutes(end) - minutes(start) < MIN_CALL_WINDOW_MINUTES`, on texts that the HOUR pattern guards.
abbrev pub too_short : Option (ℕ × ℕ) → Option (ℕ × ℕ) → Bool
too_short (some start) (some end) = ltb (minute_of end) (minute_of start + min_call_window_minutes)
too_short _ _ = false

abbrev pub set_agent : AgentDto → Boutique → Boutique
set_agent dto b = record b {
  call_languages = dto.call_languages;
  call_start_time = some dto.call_start_time;
  call_end_time = some dto.call_end_time;
  confirmation_process = dto.confirmation_process;
}

unfoldable pub update_agent : ℕ → AgentDto → Exec Shops View
update_agent user_id dto = do
  refuse (too_short (parse_hhmm dto.call_start_time) (parse_hhmm dto.call_end_time)) bad_request
  write user_id (set_agent dto)

pub record DetailsDto : Type 0 where
  pub sector : Option String
  pub delivery_zones : Option (List String)
  pub daily_order_volume : Option String
  pub acquisition_source : Option String
  pub carrier : Option String

abbrev zones : Option (List String) → List String
zones none = []
zones (some z) = z

unfoldable pub delivery_zones_of : DetailsDto → List String
delivery_zones_of dto =
    if any (λ z. str_eq z "all") (zones dto.delivery_zones)
    then "all" ∷ []
    else zones dto.delivery_zones

unfoldable pub update_details : ℕ → DetailsDto → Exec Shops View
unfolding delivery_zones_of
update_details user_id dto = write user_id λ b. record b {
  sector = dto.sector;
  delivery_zones = delivery_zones_of dto;
  daily_order_volume = dto.daily_order_volume;
  acquisition_source = dto.acquisition_source;
  carrier = dto.carrier;
}

abbrev set_completed : ℕ → Boutique → Boutique
set_completed now b = record b { onboarding_completed_at = some now }

abbrev pub finish_for : ℕ → Boutique → Exec Shops View
finish_for now b s =
    if is_set b.onboarding_completed_at
    then (ok (view b), s)
    else (ok (view (set_completed now b)), write_shop b.id (set_completed now) s)

unfoldable pub complete_onboarding : ℕ → ℕ → Exec Shops View
complete_onboarding now user_id = do
  b ← load user_id
  refuse (ltb (next_onboarding_step b) 3) conflict
  finish_for now b
