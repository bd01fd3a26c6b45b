-- ===== src/Domain/Reconciliation/Uniqueness.antt =====
-- What a match of reconcileUnknownDelivery proves of the messages.
use tiktok_outreach.Prelude.{
  ℕ, zero, suc, ◌+◌, ◌≤◌, ◌≡◌, ◌↔◌, refl, ap, inl, inr, String, Bool, true, false, List, [], ◌∷◌,
  some, arith, select, get_elem?, Bool-cases, eq_iff,
}
use tiktok_outreach.Domain.Reconciliation.{
  outbound, ReconciliationMessage, Evidence, matched, window_before, window_after, is_match,
  verdict, reconcile_unknown_delivery,
}

-- A message that may be the delivery: of its conversation, sent outwards, of its content, created
-- from 30 seconds before the dispatch to two hours after it, and linked to no other delivery.
pub record IsCandidate (e : Evidence) (m : ReconciliationMessage) : Type 0 where
  pub same_conversation : m.conversation_id ≡ e.conversation_id
  pub outwards : m.direction ≡ outbound
  pub same_content : m.content_hash ≡ e.content_hash
  pub not_before : e.dispatched_at ≤ m.created_at + window_before
  pub not_after : m.created_at ≤ e.dispatched_at + window_after
  pub unlinked : e.already_linked m.id ≡ false

is_match-IsCandidate :
    (e : Evidence) (m : ReconciliationMessage) → (is_match e m ≡ true) ↔ IsCandidate e m
unfolding is_match
is_match-IsCandidate e m = (
  λ h.
      ground
        (arith, eq_iff m.conversation_id e.conversation_id, eq_iff m.content_hash e.content_hash),
  λ c.
      ground
        (arith, eq_iff m.conversation_id e.conversation_id, eq_iff m.content_hash e.content_hash),
)

module _ {ℓ} {A : Type ℓ} (p : A → Bool) where
  abbrev None : List A → Type ℓ
  None xs = (j : ℕ) (n : A) → get_elem? xs j ≡ some n → p n ≡ false

  abbrev Only : List A → ℕ → A → Type ℓ
  Only xs i m =
      (get_elem? xs i ≡ some m)
      × (p m ≡ true)
      × ((j : ℕ) (n : A) → get_elem? xs j ≡ some n → p n ≡ true → j ≡ i)

  None-of_select : (xs : List A) → select p xs ≡ [] → None xs
  None-of_select [] h j n g = cc
  None-of_select (x ∷ xs) h zero n g = elim (Bool-cases (p x)) [
    | inl e ↦ ground arith
    | inr e ↦ ground arith
  ]
  None-of_select (x ∷ xs) h (suc j) n g = None-of_select xs (ground arith) j n g

  select_of_None : (xs : List A) → None xs → select p xs ≡ []
  select_of_None [] h = refl
  select_of_None (x ∷ xs) h = rw (h 0 x refl) (select_of_None xs (λ j n g. h (suc j) n g))

  Only-of_select : (xs : List A) (m : A) → select p xs ≡ m ∷ [] → (i : ℕ) × Only xs i m
  Only-of_select [] m h = cc
  Only-of_select (x ∷ xs) m h = elim (Bool-cases (p x)) [
    | inl e ↦
        let rest : select p xs ≡ [] = ground arith in
        (0, (ground arith, ground arith, λ j. only_head rest j))
    | inr e ↦
        let (i, o) = Only-of_select xs m (ground arith) in (suc i, (o.0, o.1, λ j. later e i o.2 j))
  ]
    where
      only_head :
          select p xs ≡ [] → (j : ℕ) (n : A) → get_elem? (x ∷ xs) j ≡ some n → p n ≡ true → j ≡ 0
      only_head rest zero n g t = refl
      only_head rest (suc j) n g t = ground (arith, None-of_select xs rest j n g)

      later :
          p x ≡ false
          → (i : ℕ) → ((j : ℕ) (n : A) → get_elem? xs j ≡ some n → p n ≡ true → j ≡ i)
          → (j : ℕ) (n : A) → get_elem? (x ∷ xs) j ≡ some n
          → p n ≡ true
          → j ≡ suc i
      later e i u zero n g t = ground arith
      later e i u (suc j) n g t = ap suc (u j n g t)

  select_of_Only : (xs : List A) (i : ℕ) (m : A) → Only xs i m → select p xs ≡ m ∷ []
  select_of_Only [] i m (g, t, u) = cc
  select_of_Only (x ∷ xs) zero m (g, t, u) =
      let rest = select_of_None xs (λ j n gn. others j n gn) in ground arith
    where
      others : (j : ℕ) (n : A) → get_elem? xs j ≡ some n → p n ≡ false
      others j n gn = elim (Bool-cases (p n)) [
        | inl e ↦ absurd (omega (arith, u (suc j) n gn e))
        | inr e ↦ e
      ]
  select_of_Only (x ∷ xs) (suc i) m (g, t, u) = elim (Bool-cases (p x)) [
    | inl e ↦ absurd (omega (arith, u 0 x refl e))
    | inr e ↦ rw e (select_of_Only xs i m (g, t, λ j n gn tn. omega (arith, u (suc j) n gn tn)))
  ]

-- The message at place `i` is the only candidate.
pub record IsOnlyCandidate (e : Evidence) (i : ℕ) (m : ReconciliationMessage) : Type 0 where
  pub found : get_elem? e.messages i ≡ some m
  pub candidate : IsCandidate e m
  pub alone :
      (j : ℕ) (n : ReconciliationMessage)
      → get_elem? e.messages j ≡ some n
      → IsCandidate e n
      → j ≡ i

verdict-matched :
    (ms : List ReconciliationMessage) (id : String)
    → verdict ms ≡ matched id
    → (m : ReconciliationMessage) × (ms ≡ m ∷ []) × (m.id ≡ id)
verdict-matched [] id h = cc
verdict-matched (m ∷ []) id h = (m, refl, ground arith)
verdict-matched (m ∷ n ∷ ms) id h = cc

-- reconcileUnknownDelivery reports a match exactly when, at one place of the messages and at no
-- other, there stands a candidate for the delivery, and then it reports that message's ID. A
-- candidate lies in the conversation, is outbound, has the content hash, is created from 30 seconds
-- before to two hours after the dispatch, and is linked to no delivery.
pub reconcile-matched :
    (e : Evidence) (id : String)
    → (reconcile_unknown_delivery e ≡ matched id)
      ↔ ((i : ℕ) × (m : ReconciliationMessage) × IsOnlyCandidate e i m × (m.id ≡ id))
unfolding reconcile_unknown_delivery
reconcile-matched e id = (to, from)
  where
    to :
        reconcile_unknown_delivery e ≡ matched id
        → (i : ℕ) × (m : ReconciliationMessage) × IsOnlyCandidate e i m × (m.id ≡ id)
    to h =
        let (m, one, same) = verdict-matched (select (is_match e) e.messages) id h in
        let (i, o) = Only-of_select (is_match e) e.messages m one in
        (
          i,
          m,
          record {
            found = o.0;
            candidate = (is_match-IsCandidate e m).0 o.1;
            alone = λ j n gn c. o.2 j n gn ((is_match-IsCandidate e n).1 c);
          },
          same,
        )

    from :
        (i : ℕ) × (m : ReconciliationMessage) × IsOnlyCandidate e i m × (m.id ≡ id)
        → reconcile_unknown_delivery e ≡ matched id
    from (i, m, c, same) =
        rw
          (select_of_Only (is_match e) e.messages i m (
            c.found,
            (is_match-IsCandidate e m).1 c.candidate,
            λ j n gn t. c.alone j n gn ((is_match-IsCandidate e n).0 t),
          ))
          (ap matched same)
