-- ===== src/Voice/Artifacts/Transcripts.antt =====
-- The transcript that `persistTranscript` of backend/src/voice/artifacts/call-artifact.service.ts keeps.
use ordely.Common.{
  ℕ, ◌+◌, ◌≡◌, ◌≢◌, refl, sym, ◌∙◌, ap, Bool, true, false, List, [], ◌∷◌, ◌++◌, map, arith,
  if◌then◌else◌, ◌==◌, ==_self, ==_iff, Bool-cases, inl, inr, select, update, count, count-append,
  update_of_count,
}
use ordely.Voice.Artifacts.{
  Entry, has_key, of_call, upsert_entry, insert_entry, by_sequence, line_of, lines_of,
}

abbrev rewritten : Entry → Entry → Entry
rewritten e old = record old { speaker = e.speaker; text = e.text; timestamp = e.timestamp }

abbrev own : Entry → Entry → Bool
own e = has_key e.call_id e.sequence

upsert_new :
    (e : Entry) (entries : List Entry)
    → count (own e) entries ≡ 0
    → upsert_entry e entries ≡ entries ++ e ∷ []
unfolding upsert_entry
upsert_new e entries h = rw h refl

upsert_old :
    (e : Entry) (entries : List Entry)
    → (count (own e) entries == 0) ≡ false
    → upsert_entry e entries ≡ update (own e) (rewritten e) entries
unfolding upsert_entry
upsert_old e entries h = rw h refl

update-append :
    (p : Entry → Bool) (f : Entry → Entry) (xs ys : List Entry)
    → update p f (xs ++ ys) ≡ update p f xs ++ update p f ys
unfolding update
update-append p f [] ys = refl
update-append p f (x ∷ xs) ys = ap (λ l. (if p x then f x else x) ∷ l) (update-append p f xs ys)

update_comm :
    (p q : Entry → Bool) (f g : Entry → Entry) (xs : List Entry)
    → ((x : Entry) → p (g x) ≡ p x)
    → ((x : Entry) → q (f x) ≡ q x)
    → ((x : Entry) → p x ≡ true → q x ≡ false)
    → update p f (update q g xs) ≡ update q g (update p f xs)
unfolding update
update_comm p q f g [] k l d = refl
update_comm p q f g (x ∷ xs) k l d = ground (arith, k x, l x, d x, update_comm p q f g xs k l d)

-- A second write of an entry changes no more.
update-again :
    (p : Entry → Bool) (f : Entry → Entry) (xs : List Entry)
    → ((x : Entry) → p (f x) ≡ p x)
    → ((x : Entry) → f (f x) ≡ f x)
    → update p f (update p f xs) ≡ update p f xs
unfolding update
update-again p f [] k l = refl
update-again p f (x ∷ xs) k l = ground (arith, k x, l x, update-again p f xs k l)

-- The number of rows of a key, after another row was written.
count-update :
    (p q : Entry → Bool) (f : Entry → Entry) (xs : List Entry)
    → ((x : Entry) → q (f x) ≡ q x)
    → count q (update p f xs) ≡ count q xs
unfolding count update
count-update p q f [] k = refl
count-update p q f (x ∷ xs) k = ground (arith, k x, count-update p q f xs k)

count-last :
    (q : Entry → Bool) (xs : List Entry) (e : Entry)
    → count q (xs ++ e ∷ []) ≡ count q xs + (if q e then 1 else 0)
unfolding count
count-last q xs e = ground (arith, count-append q xs (e ∷ []))

own_self : (e : Entry) → own e e ≡ true
own_self e = ground (arith, ==_self e.call_id, ==_self e.sequence)

update-last :
    (p : Entry → Bool) (f : Entry → Entry) (xs : List Entry) (e : Entry)
    → update p f (xs ++ e ∷ []) ≡ update p f xs ++ (if p e then f e else e) ∷ []
unfolding update
update-last p f [] e = refl
update-last p f (x ∷ xs) e = ap (λ l. (if p x then f x else x) ∷ l) (update-last p f xs e)

-- Saving an entry twice, as a runtime that posts it again does, is saving it once.
pub upsert_entry_twice :
    (e : Entry) (entries : List Entry)
    → upsert_entry e (upsert_entry e entries) ≡ upsert_entry e entries
upsert_entry_twice e entries = elim (Bool-cases (count (own e) entries == 0)) [
  | inl absent ↦
      let none_yet : count (own e) entries ≡ 0 = (==_iff (count (own e) entries) 0).0 absent in
      rw (upsert_new e entries none_yet) (
        upsert_old e (entries ++ e ∷ []) (ground (arith, count-last (own e) entries e, own_self e))
        ∙ rw
            (
              update-last (own e) (rewritten e) entries e,
              update_of_count (own e) (rewritten e) entries none_yet,
              own_self e,
            )
            refl)
  | inr there ↦ rw (upsert_old e entries there) (
      upsert_old e (update (own e) (rewritten e) entries)
        (rw (count-update (own e) (own e) (rewritten e) entries (λ x. refl)) there)
      ∙ update-again (own e) (rewritten e) entries (λ x. refl) (λ x. refl))
]

select-append :
    (p : Entry → Bool) (xs ys : List Entry) → select p (xs ++ ys) ≡ select p xs ++ select p ys
unfolding select
select-append p [] ys = refl
select-append p (x ∷ xs) ys = ground (arith, select-append p xs ys)

insert_comm :
    (e f : Entry) (xs : List Entry)
    → (e.sequence == f.sequence) ≡ false
    → insert_entry e (insert_entry f xs) ≡ insert_entry f (insert_entry e xs)
unfolding insert_entry
insert_comm e f [] other = ground arith
insert_comm e f (x ∷ xs) other = ground (arith, insert_comm e f xs)

by_sequence-swap :
    (xs : List Entry) (e f : Entry)
    → (e.sequence == f.sequence) ≡ false
    → by_sequence (xs ++ e ∷ f ∷ []) ≡ by_sequence (xs ++ f ∷ e ∷ [])
unfolding by_sequence
by_sequence-swap [] e f other = insert_comm e f [] other
by_sequence-swap (x ∷ xs) e f other = ap (insert_entry x) (by_sequence-swap xs e f other)

assoc : (xs : List Entry) (e f : Entry) → (xs ++ e ∷ []) ++ f ∷ [] ≡ xs ++ e ∷ f ∷ []
assoc [] e f = refl
assoc (x ∷ xs) e f = ap (λ l. x ∷ l) (assoc xs e f)

lines-swap :
    (c : ℕ) (xs : List Entry) (e f : Entry)
    → (e.sequence == f.sequence) ≡ false
    → lines_of c ((xs ++ e ∷ []) ++ f ∷ []) ≡ lines_of c ((xs ++ f ∷ []) ++ e ∷ [])
unfolding lines_of select
lines-swap c xs e f other =
    rw
      (
        assoc xs e f,
        assoc xs f e,
        select-append (of_call c) xs (e ∷ f ∷ []),
        select-append (of_call c) xs (f ∷ e ∷ []),
      )
      (elim (Bool-cases (of_call c e)) [
        | inl pe ↦ elim (Bool-cases (of_call c f)) [
          | inl pf ↦
              rw (pe, pf)
                (ap (λ l. map line_of l) (by_sequence-swap (select (of_call c) xs) e f other))
          | inr pf ↦ rw (pe, pf) refl
        ]
        | inr pe ↦ elim (Bool-cases (of_call c f)) [
          | inl pf ↦ rw (pe, pf) refl
          | inr pf ↦ rw (pe, pf) refl
        ]
      ])

module _ (e f : Entry) (entries : List Entry) (other : (e.sequence == f.sequence) ≡ false) where
  not_own : own f e ≡ false
  not_own = ground arith

  not_own_back : own e f ≡ false
  not_own_back = ground arith

  -- An entry that is there already, and one that is new, in both orders.
  old_then_new :
      (count (own e) entries == 0) ≡ false
      → count (own f) entries ≡ 0
      → upsert_entry f (upsert_entry e entries) ≡ upsert_entry e (upsert_entry f entries)
  old_then_new there absent =
      rw
        (
          upsert_old e entries there,
          upsert_new f entries absent,
          upsert_new f (update (own e) (rewritten e) entries)
              (count-update (own e) (own f) (rewritten e) entries (λ x. refl) ∙ absent),
          upsert_old e (entries ++ f ∷ [])
              (ground (arith, count-last (own e) entries f, not_own_back)),
          update-last (own e) (rewritten e) entries f,
          not_own_back,
        )
        refl

-- The transcript of a call does not depend on the order in which two entries of different numbers
-- are saved, whether they are new or replace one that is there.
pub lines_of-upsert_entry :
    (e f : Entry) (call_id : ℕ) (entries : List Entry)
    → e.sequence ≢ f.sequence
    → lines_of call_id (upsert_entry f (upsert_entry e entries))
      ≡ lines_of call_id (upsert_entry e (upsert_entry f entries))
lines_of-upsert_entry e f call_id entries differ =
    let other : (e.sequence == f.sequence) ≡ false = ground arith in
    let back : (f.sequence == e.sequence) ≡ false = ground arith in
    elim (Bool-cases (count (own e) entries == 0)) [
      | inl e_new ↦
          let e0 : count (own e) entries ≡ 0 = (==_iff (count (own e) entries) 0).0 e_new in
          elim (Bool-cases (count (own f) entries == 0)) [
            | inl f_new ↦
                let f0 : count (own f) entries ≡ 0 = (==_iff (count (own f) entries) 0).0 f_new in
                rw
                  (
                    upsert_new e entries e0,
                    upsert_new f entries f0,
                    upsert_new f (entries ++ e ∷ [])
                        (ground (arith, count-last (own f) entries e, not_own e f entries other)),
                    upsert_new e (entries ++ f ∷ []) (
                        ground
                          (arith, count-last (own e) entries f, not_own_back e f entries other)),
                  )
                  (lines-swap call_id entries e f other)
            | inr f_there ↦ ap (lines_of call_id) (sym (old_then_new f e entries back f_there e0))
          ]
      | inr e_there ↦ elim (Bool-cases (count (own f) entries == 0)) [
        | inl f_new ↦
            ap (lines_of call_id)
              (old_then_new e f entries other e_there ((==_iff (count (own f) entries) 0).0 f_new))
        | inr f_there ↦
            rw
              (
                upsert_old e entries e_there,
                upsert_old f entries f_there,
                upsert_old f (update (own e) (rewritten e) entries)
                    (rw (count-update (own e) (own f) (rewritten e) entries (λ x. refl)) f_there),
                upsert_old e (update (own f) (rewritten f) entries)
                    (rw (count-update (own f) (own e) (rewritten f) entries (λ x. refl)) e_there),
              )
              (ap (lines_of call_id) (
                sym (
                  update_comm (own e) (own f) (rewritten e) (rewritten f) entries (λ x. refl)
                    (λ x. refl) (λ x h. apart x h))))
      ]
    ]
  where
    apart : (x : Entry) → own e x ≡ true → own f x ≡ false
    apart x h = ground arith
