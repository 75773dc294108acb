-- ===== src/Voice/Rules/Transcript.antt =====
-- What `mergeTranscript` of voice.rules.ts makes of fragments that arrive in any order, or twice.
use mathlib.Core.List.{Permᴰ, append-nil, append_assoc}
use mathlib.Core.Path.{ap₂}
use ordely.Common.{
  ℕ, ◌≡◌, ◌≢◌, refl, sym, ap, ◌∙◌, subst, ==_iff, true, false, ◌||◌, List, [], ◌∷◌, ◌++◌, arith,
  if◌then◌else◌, ◌==◌, All,
}
use ordely.Voice.Rules.{
  TranscriptPart, has_seq, by_seq, insert_part, sort_parts, join_lines, tidy, merge_transcript,
}

-- No two fragments have one sequence number.
abbrev pub Distinct : List TranscriptPart → Type 0
Distinct [] = Unit
Distinct (p ∷ parts) = All (λ q. p.seq ≢ q.seq) parts × Distinct parts

insert_part_comm :
    (p q : TranscriptPart) (parts : List TranscriptPart)
    → p.seq ≢ q.seq
    → insert_part p (insert_part q parts) ≡ insert_part q (insert_part p parts)
unfolding insert_part
insert_part_comm p q [] h = ground arith
insert_part_comm p q (r ∷ parts) h = ground (arith, insert_part_comm p q parts h)

All-perm :
    (P : TranscriptPart → Type 0) {xs ys : List TranscriptPart} → Permᴰ xs ys → All P xs → All P ys
All-perm P Permᴰ.nil a = a
All-perm P (Permᴰ.cons e p) (px, a) = (subst P e px, All-perm P p a)
All-perm P (Permᴰ.swap e f) (px, (py, a)) = (subst P f py, (subst P e px, a))
All-perm P (Permᴰ.trans p q) a = All-perm P q (All-perm P p a)

Distinct-perm : {xs ys : List TranscriptPart} → Permᴰ xs ys → Distinct xs → Distinct ys
Distinct-perm Permᴰ.nil d = d
Distinct-perm (Permᴰ.cons {b} {l₂} e p) (fresh, d) =
    (subst (λ x. All (λ q. x.seq ≢ q.seq) l₂) e (All-perm _ p fresh), Distinct-perm p d)
Distinct-perm (Permᴰ.swap {b} {b'} {l} e f) ((ne, xs), (ys, d)) =
    subst (λ x. Distinct (x ∷ b' ∷ l)) f
      (subst (λ y. Distinct (b ∷ y ∷ l)) e ((λ h. ne (sym h), ys), (xs, d)))
Distinct-perm (Permᴰ.trans p q) d = Distinct-perm q (Distinct-perm p d)

sort_parts-perm :
    {xs ys : List TranscriptPart} → Permᴰ xs ys → Distinct xs → sort_parts xs ≡ sort_parts ys
unfolding sort_parts
sort_parts-perm Permᴰ.nil d = refl
sort_parts-perm (Permᴰ.cons e p) (fresh, d) = ap₂ insert_part e (sort_parts-perm p d)
sort_parts-perm (Permᴰ.swap {l} e f) ((ne, xs), d) =
    rw (← e, ← f) (insert_part_comm _ _ (sort_parts l) ne)
sort_parts-perm (Permᴰ.trans p q) d = sort_parts-perm p d ∙ sort_parts-perm q (Distinct-perm p d)

has_seq-append :
    (n : ℕ) (xs ys : List TranscriptPart) → has_seq n (xs ++ ys) ≡ (has_seq n xs || has_seq n ys)
has_seq-append n [] ys = refl
has_seq-append n (x ∷ xs) ys = ground (arith, has_seq-append n xs ys)

has_seq-extend :
    (kept : List TranscriptPart) (p : TranscriptPart) (parts : List TranscriptPart)
    → All (λ q. has_seq q.seq kept ≡ false) parts
    → All (λ q. p.seq ≢ q.seq) parts
    → All (λ q. has_seq q.seq (kept ++ p ∷ []) ≡ false) parts
has_seq-extend kept p [] f ne = tt
has_seq-extend kept p (q ∷ parts) (f, fs) (ne, nes) =
    (rw has_seq-append (ground arith), has_seq-extend kept p parts fs nes)

-- The loop over distinct fragments keeps all of them.
by_seq-eq-append :
    (kept parts : List TranscriptPart)
    → All (λ p. has_seq p.seq kept ≡ false) parts
    → Distinct parts
    → by_seq kept parts ≡ kept ++ parts
unfolding by_seq
by_seq-eq-append kept [] f d = sym (append-nil kept)
by_seq-eq-append kept (p ∷ parts) (f, fs) (fresh, d) = rw f (
    by_seq-eq-append (kept ++ p ∷ []) parts (has_seq-extend kept p parts fs fresh) d
    ∙ append_assoc kept (p ∷ []) parts)

none-has_seq : (parts : List TranscriptPart) → All (λ p. has_seq p.seq [] ≡ false) parts
none-has_seq [] = tt
none-has_seq (p ∷ parts) = (refl, none-has_seq parts)

by_seq_of_Distinct : (parts : List TranscriptPart) → Distinct parts → by_seq [] parts ≡ parts
by_seq_of_Distinct parts d = by_seq-eq-append [] parts (none-has_seq parts) d

-- The readable transcript does not depend on the order in which the fragments arrive, as long as
-- no two of them carry one sequence number.
pub merge_transcript-perm :
    {parts arrived : List TranscriptPart}
    → Permᴰ parts arrived
    → Distinct parts
    → merge_transcript parts ≡ merge_transcript arrived
unfolding merge_transcript
merge_transcript-perm {parts} {arrived} p d =
    rw (by_seq_of_Distinct parts d, by_seq_of_Distinct arrived (Distinct-perm p d))
      (ap (λ l. tidy (join_lines [] l)) (sort_parts-perm p d))

by_seq-append :
    (kept xs ys : List TranscriptPart) → by_seq kept (xs ++ ys) ≡ by_seq (by_seq kept xs) ys
unfolding by_seq
by_seq-append kept [] ys = refl
by_seq-append kept (x ∷ xs) ys =
    by_seq-append (if has_seq x.seq kept then kept else kept ++ x ∷ []) xs ys

has_seq-keep :
    (n : ℕ) (kept : List TranscriptPart) (p : TranscriptPart)
    → (has_seq n kept || p.seq == n) ≡ true
    → has_seq n (if has_seq p.seq kept then kept else kept ++ p ∷ []) ≡ true
has_seq-keep n kept p h = ground (arith, has_seq-append n kept (p ∷ []), ==_iff p.seq n)

has_seq-by_seq :
    (n : ℕ) (kept parts : List TranscriptPart)
    → (has_seq n kept || has_seq n parts) ≡ true
    → has_seq n (by_seq kept parts) ≡ true
unfolding by_seq
has_seq-by_seq n kept [] h = ground arith
has_seq-by_seq n kept (p ∷ parts) h =
    has_seq-by_seq n (if has_seq p.seq kept then kept else kept ++ p ∷ []) parts
      (ground (arith, has_seq-keep n kept p))

-- A fragment whose sequence number has been received already changes nothing.
pub merge_transcript_resent :
    (parts : List TranscriptPart) (p : TranscriptPart)
    → has_seq p.seq parts ≡ true
    → merge_transcript (parts ++ p ∷ []) ≡ merge_transcript parts
unfolding merge_transcript
merge_transcript_resent parts p h =
    ap (λ l. tidy (join_lines [] (sort_parts l))) {y = by_seq [] parts}
      (by_seq-append [] parts (p ∷ []) ∙ unfold by_seq in rw (has_seq-by_seq p.seq [] parts h))
