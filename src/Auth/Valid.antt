-- ===== src/Auth/Valid.antt =====
-- The unique columns of the table of users (backend/prisma/schema.prisma), and that the requests of
-- backend/src/auth/auth.service.ts keep them unique.
use ordely.Common.{
  none_below, append_below, ℕ, ◌+◌, ◌≤◌, ◌<◌, ◌≡◌, refl, subst, String, Bool, true, false, not,
  ◌&&◌, List, [], ◌∷◌, ◌++◌, arith, All, any, str_eq, eq_iff, Bool-cases, inl, inr, ◌==◌, update,
  count, update-All, count-update-le, update-Unique, append-Unique, count_of_any,
}
use ordely.Auth.{
  User, AuthDb, has_id, has_email, has_verify_hash, has_reset_hash, with_verify_token,
}
use ordely.Auth.Links.{with_reset_token}
use ordely.Auth.Sessions.{RegisterDto, new_user, row_taken}

-- No two users have one id, one address or one token, and the next id is above all.
pub record IsValid (users : List User) (next_id : ℕ) : Type 0 where
  pub ids : (id : ℕ) → count (has_id id) users ≤ 1
  pub emails : (email : String) → count (has_email email) users ≤ 1
  pub verify_hashes : (hash : String) → count (has_verify_hash hash) users ≤ 1
  pub reset_hashes : (hash : String) → count (has_reset_hash hash) users ≤ 1
  pub below : All (λ u. u.id < next_id) users

abbrev pub DbValid : AuthDb → Type 0
DbValid db = IsValid db.users db.next_user_id

-- A write that keeps id and address, and that keeps or clears the tokens.
pub record Clears (f : User → User) : Type 0 where
  pub id : (u : User) → (f u).id ≡ u.id
  pub email : (u : User) → (f u).email ≡ u.email
  pub verify_hash :
      (hash : String) (u : User) → has_verify_hash hash (f u) ≡ true → has_verify_hash hash u ≡ true
  pub reset_hash :
      (hash : String) (u : User) → has_reset_hash hash (f u) ≡ true → has_reset_hash hash u ≡ true

module _ (p : User → Bool) (f : User → User) (users : List User) (next_id : ℕ) where
  ids-update :
      ((u : User) → (f u).id ≡ u.id)
      → IsValid users next_id
      → (id : ℕ) → count (has_id id) (update p f users) ≤ 1
  ids-update k valid id =
      omega (arith, valid.ids id, count-update-le (has_id id) p f users (λ u s h. rw (← k u) h))

  emails-update :
      ((u : User) → (f u).email ≡ u.email)
      → IsValid users next_id
      → (email : String) → count (has_email email) (update p f users) ≤ 1
  emails-update k valid email = omega (
    arith,
    valid.emails email,
    count-update-le (has_email email) p f users (λ u s h. rw (← k u) h),
  )

  below-update :
      ((u : User) → (f u).id ≡ u.id)
      → IsValid users next_id
      → All (λ u. u.id < next_id) (update p f users)
  below-update k valid =
      update-All (λ u. u.id < next_id) p f users (λ u s h. rw (k u) h) valid.below

  pub Clears-IsValid : Clears f → IsValid users next_id → IsValid (update p f users) next_id
  Clears-IsValid c valid = record {
    ids = ids-update c.id valid;
    emails = emails-update c.email valid;
    verify_hashes = λ h. omega (
      arith,
      valid.verify_hashes h,
      count-update-le (has_verify_hash h) p f users (λ u s. c.verify_hash h u),
    );
    reset_hashes = λ h. omega (
      arith,
      valid.reset_hashes h,
      count-update-le (has_reset_hash h) p f users (λ u s. c.reset_hash h u),
    );
    below = below-update c.id valid;
  }

-- A column of token hashes after a hash was written that no other row has.
hashes-update :
    (has_hash : String → User → Bool) (id : ℕ) (token_hash : String) (f : User → User)
    (users : List User)
    → ((hash : String) (u : User) → has_hash hash (f u) ≡ str_eq token_hash hash)
    → any (λ u. has_hash token_hash u && not (u.id == id)) users ≡ false
    → count (has_id id) users ≤ 1
    → (hash : String) → count (has_hash hash) users ≤ 1
    → count (has_hash hash) (update (has_id id) f users) ≤ 1
hashes-update has_hash id token_hash f users k free one hash before =
    elim (Bool-cases (str_eq token_hash hash)) [
      | inl same ↦
          subst (λ h. count (has_hash h) (update (has_id id) f users) ≤ 1)
            ((eq_iff token_hash hash).0 same)
            (update-Unique (has_hash token_hash) (has_id id) f users one free)
      | inr other ↦ omega (
        arith,
        before,
        count-update-le (has_hash hash) (has_id id) f users (λ u s h. ground (arith, k hash u)),
      )
    ]

module _ (token_hash : String) (now id : ℕ) (users : List User) (next_id : ℕ)
    (valid : IsValid users next_id) where
  pub verify_token-IsValid :
      any (λ u. has_verify_hash token_hash u && not (u.id == id)) users ≡ false
      → IsValid (update (has_id id) (with_verify_token token_hash now) users) next_id
  verify_token-IsValid free = record {
    ids = ids-update (has_id id) _ users next_id (λ u. refl) valid;
    emails = emails-update (has_id id) _ users next_id (λ u. refl) valid;
    verify_hashes = λ h.
        hashes-update has_verify_hash id token_hash _ users (λ h u. refl) free (valid.ids id) h
          (valid.verify_hashes h);
    reset_hashes = λ h. omega (
      arith,
      valid.reset_hashes h,
      count-update-le (has_reset_hash h) (has_id id) (with_verify_token token_hash now) users
          (λ u s e. e),
    );
    below = below-update (has_id id) _ users next_id (λ u. refl) valid;
  }

  pub reset_token-IsValid :
      any (λ u. has_reset_hash token_hash u && not (u.id == id)) users ≡ false
      → IsValid (update (has_id id) (with_reset_token token_hash now) users) next_id
  reset_token-IsValid free = record {
    ids = ids-update (has_id id) _ users next_id (λ u. refl) valid;
    emails = emails-update (has_id id) _ users next_id (λ u. refl) valid;
    verify_hashes = λ h. omega (
      arith,
      valid.verify_hashes h,
      count-update-le (has_verify_hash h) (has_id id) (with_reset_token token_hash now) users
          (λ u s e. e),
    );
    reset_hashes = λ h.
        hashes-update has_reset_hash id token_hash _ users (λ h u. refl) free (valid.ids id) h
          (valid.reset_hashes h);
    below = below-update (has_id id) _ users next_id (λ u. refl) valid;
  }

count_of_equal :
    (q : String → User → Bool) (users : List User) (s t : String)
    → any (q s) users ≡ false
    → str_eq s t ≡ true
    → count (q t) users ≡ 0
count_of_equal q users s t free same =
    subst (λ r. count (q r) users ≡ 0) ((eq_iff s t).0 same) (count_of_any (q s) users free)

-- The row of a new account, whose unique columns are free.
pub new_user-IsValid :
    (boutique_id now : ℕ) (password_hash token_hash : String) (dto : RegisterDto) (db : AuthDb)
    → IsValid db.users db.next_user_id
    → row_taken dto.email token_hash db ≡ false
    → IsValid
        (db.users ++ new_user db.next_user_id boutique_id now password_hash token_hash dto ∷ [])
        (db.next_user_id + 1)
new_user-IsValid b now ph th dto db valid free = record {
  ids = λ id.
      append-Unique (has_id id) db.users _ (valid.ids id)
        (λ h. none_below (λ u. u.id) db.users db.next_user_id valid.below id (ground arith));
  emails = λ e.
      append-Unique (has_email e) db.users _ (valid.emails e)
        (count_of_equal has_email db.users dto.email e (ground arith));
  verify_hashes = λ h.
      append-Unique (has_verify_hash h) db.users _ (valid.verify_hashes h)
        (count_of_equal has_verify_hash db.users th h (ground arith));
  reset_hashes = λ h. append-Unique (has_reset_hash h) db.users _ (valid.reset_hashes h) (λ e. cc);
  below = append_below (λ u. u.id) db.users db.next_user_id _ refl valid.below;
}
