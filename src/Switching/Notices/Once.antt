-- ===== src/Switching/Notices/Once.antt =====
-- An event is announced at most once to each recipient
-- (src/modules/notifications/notification-events.service.ts).
use easyrisparmio_backend.Prelude.{
  ℕ, ◌≤◌, ◌==◌, ◌≡◌, inl, inr, Bool, true, &&_true, List, [], ◌∷◌, any, arith, if◌then◌else◌,
  Bool-cases, Option-cases,
}
use easyrisparmio_backend.Pipeline.{BillStatus}
use easyrisparmio_backend.Switching.{
  Milestone, Key, milestone_of, verification_requested, verification_submitted, case_submitted,
  Notice, Store,
}
use easyrisparmio_backend.Switching.Counts.{count, any-count}
use easyrisparmio_backend.Switching.Notices.{
  is_notice, same_key, same_milestone, insert_ignoring_duplicates, send_notification,
  bill_milestone, customer_milestones,
}

-- No recipient has two notifications of an event.
unfoldable pub AreOnce : List Notice → Type 0
AreOnce notices = (user_id : ℕ) (key : Key) → count (is_notice user_id key) notices ≤ 1

same_milestone-eq : (m n : Milestone) → same_milestone m n ≡ true → m ≡ n
same_milestone-eq Milestone.offers_available n h = ground arith
same_milestone-eq _ n h = ground arith

same_key-eq : (k l : Key) → same_key k l ≡ true → k ≡ l
same_key-eq (milestone_of b m) (milestone_of c n) h = ground (arith, same_milestone-eq m n)
same_key-eq (verification_requested i) (verification_requested j) h = ground arith
same_key-eq (verification_submitted i) (verification_submitted j) h = ground arith
same_key-eq (case_submitted i) (case_submitted j) h = ground arith
same_key-eq _ _ h = absurd (cc)

-- A recipient that has been told is skipped, and any other one gets a first notification.
told-AreOnce :
    (user_id : ℕ) (key : Key) (notices : List Notice)
    → AreOnce notices
    → AreOnce (
        if any (is_notice user_id key) notices
        then notices
        else record { user_id = user_id; key = key } ∷ notices)
unfolding AreOnce
told-AreOnce user_id key notices h u k = elim (Bool-cases (any (is_notice user_id key) notices)) [
  | inl e ↦ rw e (h u k)
  | inr e ↦ rw e (elim (Bool-cases (is_notice u k (record { user_id = user_id; key = key }))) [
    | inr f ↦ rw f (omega (arith, h u k))
    | inl f ↦
        let (same_user, key_equal) = &&_true (user_id == u) (same_key k key) f in
        let user_eq : u ≡ user_id = ground arith in
        let none_yet : count (is_notice u k) notices ≡ 0 =
          rw (user_eq, same_key-eq k key key_equal) (any-count (is_notice user_id key) notices e) in
        rw (f, none_yet) (omega arith)
  ])
]

insert-AreOnce :
    (user_ids : List ℕ) (key : Key) (notices : List Notice)
    → AreOnce notices
    → AreOnce (insert_ignoring_duplicates user_ids key notices)
unfolding insert_ignoring_duplicates
insert-AreOnce [] key notices h = h
insert-AreOnce (u ∷ us) key notices h = insert-AreOnce us key _ (told-AreOnce u key notices h)

module _ (resolves : List ℕ → Key → Bool) where
  pub send_notification-AreOnce :
      (user_ids : List ℕ) (key : Key) (s : Store)
      → AreOnce s.notices
      → AreOnce (send_notification resolves user_ids key s).notices
  unfolding send_notification
  send_notification-AreOnce user_ids key s h = elim (Bool-cases (resolves user_ids key)) [
    | inl e ↦ rw (e, send_notification) (insert-AreOnce user_ids key s.notices h)
    | inr e ↦ rw (e, send_notification) h
  ]

  pub bill_milestone-AreOnce :
      (user_id bill_id : ℕ) (status : BillStatus) (s : Store)
      → AreOnce s.notices
      → AreOnce (bill_milestone resolves user_id bill_id status s).notices
  unfolding bill_milestone
  bill_milestone-AreOnce user_id bill_id status s h =
      elim (Option-cases (customer_milestones status)) [
        | inl e ↦ rw (e, bill_milestone) h
        | inr (m, e) ↦ rw (e, bill_milestone) (send_notification-AreOnce _ _ s h)
      ]
