-- ===== src/Cases/Documents/Ids.antt =====
-- The ids of the rows of documents, and what keeps them apart (src/modules/cases/cases.service.ts).
use mathlib.Core.Path.{subst}
use easyrisparmio_backend.Prelude.{
  ℕ, ◌+◌, ◌<◌, ◌≡◌, ◌≢◌, refl, sym, inl, inr, Bool, true, some, List, [], ◌∷◌, All, find?, any,
  arith, ◌==◌, Bool-cases, Option-cases,
}
use easyrisparmio_backend.Http.{ok}
use easyrisparmio_backend.Cases.{CaseDocument, Store}
use easyrisparmio_backend.Cases.Documents.{
  find_reviewable_document, save_document, is_document, replaces,
}
use easyrisparmio_backend.Cases.Documents.Review.{save_document-All}

-- Some document of the case was uploaded to replace this one.
abbrev pub is_replaced : ℕ → ℕ → Store → Bool
is_replaced case_id doc_id s = any (replaces case_id doc_id) s.documents

-- Rows have ids of their own, and the next one is not in use.
abbrev Fresh : ℕ → List CaseDocument → Type 0
Fresh id ds = All (λ d. d.id ≢ id) ds

abbrev pub Distinct : List CaseDocument → Type 0
Distinct [] = Unit
Distinct (d ∷ ds) = Fresh d.id ds × Distinct ds

pub record HasIds (s : Store) : Type 0 where
  pub distinct : Distinct s.documents
  pub below : All (λ d. d.id < s.next_id) s.documents

find_of_any :
    (p : CaseDocument → Bool) (ds : List CaseDocument)
    → any p ds ≡ true
    → (d : CaseDocument) × (find? p ds ≡ some d)
find_of_any p [] h = absurd (cc)
find_of_any p (d ∷ ds) h = elim (Bool-cases (p d)) [
  | inl e ↦ (d, ground arith)
  | inr e ↦ let (r, f) = find_of_any p ds (ground arith) in (r, ground arith)
]

find-All {κ} :
    (P : CaseDocument → Type κ) (p : CaseDocument → Bool) (ds : List CaseDocument)
    (d : CaseDocument)
    → All P ds
    → find? p ds ≡ some d
    → P d
find-All P p [] d h e = absurd (cc)
find-All P p (x ∷ xs) d (h, hs) e = elim (Bool-cases (p x)) [
  | inl t ↦ let same : x ≡ d = ground arith in subst P same h
  | inr t ↦ find-All P p xs d hs (ground arith)
]

save-none :
    (saved : CaseDocument) (ds : List CaseDocument)
    → Fresh saved.id ds
    → save_document saved ds ≡ ds
save-none saved [] h = refl
save-none saved (d ∷ ds) (h, hs) = ground (arith, save-none saved ds hs)

save-Fresh :
    (id : ℕ) (saved : CaseDocument) (ds : List CaseDocument)
    → Fresh id ds
    → Fresh id (save_document saved ds)
save-Fresh id saved [] h = tt
save-Fresh id saved (d ∷ ds) (h, hs) = (ground arith, save-Fresh id saved ds hs)

save-Distinct :
    (saved : CaseDocument) (ds : List CaseDocument)
    → Distinct ds
    → Distinct (save_document saved ds)
save-Distinct saved [] h = tt
save-Distinct saved (d ∷ ds) (h, hs) = elim (Bool-cases (d.id == saved.id)) [
  | inl e ↦
      let same : d.id ≡ saved.id = ground arith in
      (
        rw e (subst (λ n. Fresh n (save_document saved ds)) same (save-Fresh d.id saved ds h)),
        save-Distinct saved ds hs,
      )
  | inr e ↦ (rw e (save-Fresh d.id saved ds h), save-Distinct saved ds hs)
]

-- Saving the row that a query found does not change how many rows pass a test of columns that it
-- leaves alone.
pub save-any :
    (p q : CaseDocument → Bool) (saved d : CaseDocument) (ds : List CaseDocument)
    → p saved ≡ p d
    → saved.id ≡ d.id
    → Distinct ds
    → find? q ds ≡ some d
    → any p (save_document saved ds) ≡ any p ds
save-any p q saved d [] hp hid h e = absurd (cc)
save-any p q saved d (x ∷ xs) hp hid (h, hs) e = elim (Bool-cases (q x)) [
  | inl t ↦
      let same : x ≡ d = ground arith in ground (arith, save-none saved xs (rw (hid, ← same) h))
  | inr t ↦
      let other = find-All (λ y. y.id ≢ x.id) q xs d h (ground arith) in
      ground (arith, save-any p q saved d xs hp hid hs)
]

module _ (case_id doc_id : ℕ) where
  pub reviewable_fails :
      (s : Store) (d : CaseDocument)
      → is_replaced case_id doc_id s ≡ true
      → find_reviewable_document case_id doc_id s ≢ ok d
  unfolding find_reviewable_document
  reviewable_fails s d h e =
      let (r, f) = find_of_any (replaces case_id doc_id) s.documents h in ground arith

pub reviewable-find :
    (c i : ℕ) (s : Store) (d : CaseDocument)
    → find_reviewable_document c i s ≡ ok d
    → find? (is_document c i) s.documents ≡ some d
unfolding find_reviewable_document
reviewable-find c i s d h = elim (Option-cases (find? (is_document c i) s.documents)) [
  | inl e ↦ absurd (ground arith)
  | inr (r, e) ↦ ground arith
]

-- Whatever a review writes, `saved` is the row that the lookup found, but for the review's columns.
pub saved-HasIds :
    (saved d : CaseDocument) (q : CaseDocument → Bool) (s : Store)
    → saved.id ≡ d.id
    → HasIds s
    → find? q s.documents ≡ some d
    → Distinct (save_document saved s.documents)
      × All (λ x. x.id < s.next_id) (save_document saved s.documents)
saved-HasIds saved d q s same h e = (
  save-Distinct saved s.documents h.distinct,
  save_document-All (λ x. x.id < s.next_id) saved s.documents
      (subst (λ n. n < s.next_id) (sym same)
        (find-All (λ x. x.id < s.next_id) q s.documents d h.below e))
      h.below,
)

older-All :
    (n : ℕ) (ds : List CaseDocument)
    → All (λ d. d.id < n) ds
    → Fresh n ds × All (λ d. d.id < n + 1) ds
older-All n [] h = (tt, tt)
older-All n (d ∷ ds) (h, hs) =
    let (a, b) = older-All n ds hs in ((ground arith, a), (omega (arith, h), b))

pub grown-HasIds :
    (d : CaseDocument) (s t : Store)
    → d.id ≡ s.next_id
    → t.documents ≡ d ∷ s.documents
    → t.next_id ≡ s.next_id + 1
    → HasIds s
    → HasIds t
grown-HasIds d s t new grown next h =
    let (fresh, older) = older-All s.next_id s.documents h.below in
    record {
      distinct = rw grown (rw new fresh, h.distinct);
      below = rw grown (
          subst (λ n. All (λ x. x.id < n) (d ∷ s.documents)) (sym next)
            (omega (arith, new), older));
    }
