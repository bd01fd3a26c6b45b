-- ===== src/Outreach/Freeze/Verdicts.antt =====
-- What a freeze decides about each selected recipient.
use tiktok_outreach.Prelude.{
  ℕ, suc, ◌+◌, ◌≤◌, ◌≡◌, ◌≢◌, inl, inr, refl, sym, ◌∙◌, subst, String, true, false, List, [], ◌∷◌,
  Option, none, some, arith, ◌==◌, length, find, All-mem, Bool-cases, Distinct, Distinct-select,
  mem-select, ◌⊎◌, ap, some_and,
}
use mathlib.Core.List.{Memᴰ}
use tiktok_outreach.Prelude.Sorting.{Distinct-sort, mem-sort}
use tiktok_outreach.Prelude.Tables.{find-key, find-update_found}
use tiktok_outreach.Worker.Dispatch.Rows.{
  Campaign, Recipient, RecipientState, Creator, Reservation, Store, creator?, recipient?, campaign?,
  is_recipient, is_creator,
}
use tiktok_outreach.Outreach.Results.{ok, ok_of_chain, ok_inj}
use tiktok_outreach.Outreach.Freeze.{
  Outside, FreezeReason, freeze_reason_text, Freezing, frozen_message_of, exact_open_id,
  reserve_selected, freeze_all, excluded_row, frozen_row, is_current, is_selected_of, ranked_first,
  selected_of, freeze_reason, drop_over, start_freezing, freeze_ms, finish_freeze, freeze_selected,
  freeze_transaction,
}
use tiktok_outreach.Outreach.Freeze.Grounds.{
  facts_of, grounds, is_free, is_reason, is_none, freeze_reason-grounds, freeze_reason_free,
  is_reason_refl,
}
use tiktok_outreach.Outreach.Freeze.Loop.{
  Turn, freeze_one-Turn, Continues, Turn-Continues, Turn-other, freeze_all-Continues,
  freeze_all-other,
}

abbrev pub reservation_of : Campaign → ℕ → Recipient → Reservation
reservation_of c expires_at p = record {
  recipient_id = p.id;
  shop_id = c.shop_id;
  creator_id = p.creator_id;
  expires_at = expires_at;
}

-- The recipient of `s` is RESERVED in `s'`: its message is the campaign's template for its creator,
-- whose exact Open ID is kept, and its reservation holds until `expires_at`.
pub record IsFrozen (w : Outside) (c : Campaign) (expires_at : ℕ) (s : Store) (p : Recipient)
    (s' : Store) : Type 0 where
  pub creator : Creator
  pub message : String
  pub open_id : String
  pub rank : ℕ
  pub found : creator? p.creator_id s ≡ some creator
  pub rendered : frozen_message_of c creator ≡ some message
  pub exact : exact_open_id creator ≡ some open_id
  pub row : recipient? p.id s' ≡ some (frozen_row message (w.hash message) open_id rank p)
  pub reserved : Memᴰ (reservation_of c expires_at p) s'.reservations

-- What is left of a selected recipient, by its reason.
abbrev pub Verdict :
    Outside → Campaign → ℕ → Store → Recipient → Store → Option FreezeReason → Type 0
Verdict w c expires_at s p s' (some reason) = recipient? p.id s' ≡ some (excluded_row reason p)
Verdict w c expires_at s p s' none = IsFrozen w c expires_at s p s'

module _ (w : Outside) (c : Campaign) (expires_at : ℕ)
    (reason : Recipient → Option FreezeReason) where
  -- The verdict in the loop: a recipient that is kept is counted.
  abbrev Counted : Recipient → Freezing → Freezing → Option FreezeReason → Type 0
  Counted p f g (some r) = Verdict w c expires_at f.store p g.store (some r)
  Counted p f g none = Verdict w c expires_at f.store p g.store none × (1 ≤ g.final_selected)

  Turn-Counted :
      (index : ℕ) (p : Recipient) (f m g : Freezing) (r : Option FreezeReason)
      → recipient? p.id f.store ≡ some p
      → Turn w c expires_at index r p f m
      → Continues w c expires_at m g
      → recipient? p.id g.store ≡ recipient? p.id m.store
      → Counted p f g r
  Turn-Counted index p f m g (some r) at turn rest same =
      same
      ∙ subst (λ (x : Freezing). recipient? p.id x.store ≡ some (excluded_row r p)) (sym turn)
          (find-update_found (is_recipient p.id) (excluded_row r) (λ x. refl) f.store.recipients p
            at)
  Turn-Counted index p f m g none at turn rest same =
      let row = frozen_row turn.message (w.hash turn.message) turn.open_id (suc index) in
      let kept = reserve_selected w c expires_at index turn.message turn.open_id p f in
      let counted : 1 ≤ m.final_selected =
        subst (λ (x : Freezing). 1 ≤ x.final_selected) (sym turn.result) (omega arith) in
      (
        record {
          creator = turn.creator;
          message = turn.message;
          open_id = turn.open_id;
          rank = suc index;
          found = turn.found;
          rendered = turn.rendered;
          exact = turn.exact;
          row =
              same
              ∙ subst (λ (x : Freezing). recipient? p.id x.store ≡ some (row p)) (sym turn.result)
                  (find-update_found (is_recipient p.id) row (λ x. refl) f.store.recipients p at);
          reserved = rest.reservations (reservation_of c expires_at p) (
              subst (λ (x : Freezing). Memᴰ (reservation_of c expires_at p) x.store.reservations)
                (sym turn.result) (Memᴰ.head refl));
        },
        omega (arith, rest.final_selected, counted),
      )

  -- A verdict speaks of the creators, and the loop changes none.
  Counted-earlier :
      (p : Recipient) (f m g : Freezing) (r : Option FreezeReason)
      → m.store.creators ≡ f.store.creators
      → Counted p m g r
      → Counted p f g r
  Counted-earlier p f m g (some r) same v = v
  Counted-earlier p f m g none same v = (
    record {
      creator = v.0.creator;
      message = v.0.message;
      open_id = v.0.open_id;
      rank = v.0.rank;
      found = subst (λ ks. find (is_creator p.creator_id) ks ≡ some v.0.creator) same v.0.found;
      rendered = v.0.rendered;
      exact = v.0.exact;
      row = v.0.row;
      reserved = v.0.reserved;
    },
    v.1,
  )

  loop-Counted :
      (index : ℕ) (ps : List Recipient) (f g : Freezing) (p : Recipient)
      → Distinct (λ q. q.id) ps
      → Memᴰ p ps
      → recipient? p.id f.store ≡ some p
      → freeze_all w c expires_at reason index ps f ≡ ok g
      → Counted p f g (reason p)
  unfolding freeze_all
  loop-Counted index [] f g p d m at h = elim m [ ]
  loop-Counted index (q ∷ qs) f g p d (Memᴰ.head e) at h =
      let (n, rest, hn) = ok_of_chain _ _ h in
      let at' : recipient? q.id f.store ≡ some q =
        subst (λ x. recipient? x.id f.store ≡ some x) e at in
      subst (λ x. Counted x f g (reason x)) (sym e)
        (Turn-Counted index q f n g (reason q) at'
          (freeze_one-Turn w c expires_at index (reason q) q f n hn)
          (freeze_all-Continues w c expires_at reason (suc index) qs n g rest)
          (freeze_all-other w c expires_at reason (suc index) qs n g q.id d.0 rest))
  loop-Counted index (q ∷ qs) f g p d (Memᴰ.tail m) at h =
      let (n, rest, hn) = ok_of_chain _ _ h in
      let turn = freeze_one-Turn w c expires_at index (reason q) q f n hn in
      let apart : q.id ≢ p.id = λ e. All-mem (λ x. x.id ≢ q.id) p qs d.0 m (sym e) in
      Counted-earlier p f n g (reason p)
        (Turn-Continues w c expires_at index (reason q) q f n turn).creators
        (loop-Counted (suc index) qs n g p d.1 m
          (Turn-other w c expires_at index (reason q) q f n p.id apart turn ∙ at) rest)

  finished-Verdict :
      (count : ℕ) (p : Recipient) (f g : Freezing) (r : Option FreezeReason)
      → Counted p f g r
      → Verdict w c expires_at f.store p (finish_freeze c expires_at count g) r
  finished-Verdict count p f g (some r) v = elim (Bool-cases (g.final_selected == 0)) [
    | inl e ↦ rw e v
    | inr e ↦ rw e v
  ]
  finished-Verdict count p f g none v =
      let some_kept : (g.final_selected == 0) ≡ false = let counted = v.1 in ground arith in
      rw some_kept (record {
        creator = v.0.creator;
        message = v.0.message;
        open_id = v.0.open_id;
        rank = v.0.rank;
        found = v.0.found;
        rendered = v.0.rendered;
        exact = v.0.exact;
        row = v.0.row;
        reserved = v.0.reserved;
      })

-- What the campaign's rows are of a recipient that the freeze takes away, and of one that it keeps.
pub record IsExcluded (text : String) (p : Recipient) (s' : Store) : Type 0 where
  pub row : Recipient
  pub found : recipient? p.id s' ≡ some row
  pub deselected : row.selected ≡ false
  pub excluded : row.excluded ≡ true
  pub skip_reason : row.skip_reason ≡ some text
  pub state : row.state ≡ RecipientState.discovered
  pub unwritten : row.frozen_message ≡ none

pub record IsReserved (w : Outside) (c : Campaign) (expires_at : ℕ) (s : Store) (p : Recipient)
    (s' : Store) : Type 0 where
  pub row : Recipient
  pub found : recipient? p.id s' ≡ some row
  pub state : row.state ≡ RecipientState.reserved
  pub creator : Creator
  pub from : creator? p.creator_id s ≡ some creator
  pub message : String
  pub rendered : frozen_message_of c creator ≡ some message
  pub kept_message : row.frozen_message ≡ some message
  pub kept_hash : row.content_hash ≡ some (w.hash message)
  pub open_id : String
  pub exact : creator.creator_open_id ≡ some open_id
  pub kept_open_id : row.creator_open_id ≡ some open_id
  pub reserved : Memᴰ (reservation_of c expires_at p) s'.reservations

-- The recipient is excluded on the grounds of a reason, which its row tells, or nothing is against it
-- and it is reserved.
abbrev pub Decided : Outside → Campaign → ℕ → ℕ → Store → Recipient → Store → Type 0
Decided w c now expires_at s p s' =
    ((r : FreezeReason) × (grounds r (facts_of c now s p) ≡ true)
      × IsExcluded (freeze_reason_text r) p s')
    ⊎ ((is_free (facts_of c now s p) ≡ true) × IsReserved w c expires_at s p s')

exact_open_id_lem :
    (k : Creator) (o : String) → exact_open_id k ≡ some o → k.creator_open_id ≡ some o
exact_open_id_lem k o h = ground arith

IsFrozen-IsReserved :
    (w : Outside) (c : Campaign) (expires_at : ℕ) (s : Store) (p : Recipient) (s' : Store)
    → IsFrozen w c expires_at s p s'
    → IsReserved w c expires_at s p s'
IsFrozen-IsReserved w c expires_at s p s' v = record {
  row = frozen_row v.message (w.hash v.message) v.open_id v.rank p;
  found = v.row;
  state = refl;
  creator = v.creator;
  from = v.found;
  message = v.message;
  rendered = v.rendered;
  kept_message = refl;
  kept_hash = refl;
  open_id = v.open_id;
  exact = exact_open_id_lem v.creator v.open_id v.exact;
  kept_open_id = refl;
  reserved = v.reserved;
}

Verdict-Decided :
    (w : Outside) (c : Campaign) (now expires_at : ℕ) (s : Store) (p : Recipient) (s' : Store)
    (o : Option FreezeReason)
    → freeze_reason c now s p ≡ o
    → Verdict w c expires_at s p s' o
    → Decided w c now expires_at s p s'
Verdict-Decided w c now expires_at s p s' (some r) e v = inl (
  r,
  sym (freeze_reason-grounds c now s p r) ∙ ap (λ o. some_and o (is_reason r)) e ∙ is_reason_refl r,
  record {
    row = excluded_row r p;
    found = v;
    deselected = refl;
    excluded = refl;
    skip_reason = refl;
    state = refl;
    unwritten = refl;
  },
)
Verdict-Decided w c now expires_at s p s' none e v =
    inr (
      sym (freeze_reason_free c now s p) ∙ ap is_none e,
      IsFrozen-IsReserved w c expires_at s p s' v,
    )

module _ (w : Outside) (now id version : ℕ) (c : Campaign) (s s' : Store) where
  pub freeze_transaction-selected :
      campaign? id s ≡ some c
      → freeze_transaction w now id version s ≡ ok s'
      → (is_current c version ≡ true) × (freeze_selected w now c s ≡ ok s')
  unfolding freeze_transaction
  freeze_transaction-selected hc h = ground arith

  -- Each recipient has the verdict of its reason.
  freeze-follows_reason :
      (p : Recipient)
      → campaign? id s ≡ some c
      → freeze_transaction w now id version s ≡ ok s'
      → Distinct (λ q. q.id) s.recipients
      → Memᴰ p s.recipients
      → is_selected_of c.id p ≡ true
      → let t = drop_over c.shop_id now s in
        Verdict w c (now + freeze_ms) t p s' (freeze_reason c now t p)
  unfolding freeze_selected selected_of
  freeze-follows_reason p hc h distinct m selected =
      let t = drop_over c.shop_id now s in
      let (f, done, hf) = ok_of_chain _ _ (freeze_transaction-selected hc h).1 in
      let counted =
        loop-Counted w c (now + freeze_ms) (freeze_reason c now t) 0 (selected_of c t)
          (start_freezing t) f p
          (Distinct-sort (ranked_first c.ranks_ascending) (λ q. q.id) _
            (Distinct-select (λ q. q.id) (is_selected_of c.id) s.recipients distinct))
          (mem-sort (ranked_first c.ranks_ascending) p _
            (mem-select (is_selected_of c.id) p s.recipients selected m))
          (find-key (λ q. q.id) s.recipients p distinct m) hf in
      subst (λ x. Verdict w c (now + freeze_ms) t p x (freeze_reason c now t p)) (ok_inj done)
        (finished-Verdict w c (now + freeze_ms) (freeze_reason c now t) (length (selected_of c t)) p
          (start_freezing t) f (freeze_reason c now t p) counted)

  -- A freeze that does not throw decides about each recipient that the preview selected by the contact
  -- and the reservations of that instant, less those of the shop that are over. It is EXCLUDED, no
  -- longer selected and without a message, with the reason in its row: DO_NOT_CONTACT where contact is
  -- forbidden; else DELIVERY_UNKNOWN where an earlier delivery is unresolved; else, where the last
  -- contact lies within the cooldown, CONTACTED_BY_APP_WITHIN_COOLDOWN if a campaign made it and
  -- COOLDOWN if none did; else ACTIVE_RESERVATION where a reservation holds. Where none of these is
  -- so, it is RESERVED for thirty minutes, with the message rendered for its creator, the message's
  -- hash and the creator's Open ID. The campaign is the one that its ID finds, and no two recipients
  -- have one ID.
  pub freeze-Decided :
      (p : Recipient)
      → campaign? id s ≡ some c
      → freeze_transaction w now id version s ≡ ok s'
      → Distinct (λ q. q.id) s.recipients
      → Memᴰ p s.recipients
      → is_selected_of c.id p ≡ true
      → Decided w c now (now + freeze_ms) (drop_over c.shop_id now s) p s'
  freeze-Decided p hc h distinct m selected =
      let t = drop_over c.shop_id now s in
      Verdict-Decided w c now (now + freeze_ms) t p s' (freeze_reason c now t p) refl
        (freeze-follows_reason p hc h distinct m selected)
