-- ===== src/Outreach/Freeze/Loop.antt =====
-- The loop of a freeze over the selected recipients: what one turn does, and what a run leaves alone.
use tiktok_outreach.Prelude.{
  ℕ, suc, ◌≤◌, ◌≡◌, ◌≢◌, refl, sym, ◌∙◌, subst, String, List, [], ◌∷◌, Option, none, some, arith,
  eq_apart, All,
}
use mathlib.Core.List.{Memᴰ}
use tiktok_outreach.Prelude.Tables.{find-update_other}
use tiktok_outreach.Worker.Dispatch.Rows.{
  Campaign, Recipient, Creator, Reservation, creator?, recipient?, is_recipient,
}
use tiktok_outreach.Outreach.Results.{
  ok, unexpected, open_id_missing, ok_of_chain, or_throw-eq-ok, ok_inj,
}
use tiktok_outreach.Outreach.Freeze.{
  Outside, FreezeReason, Freezing, frozen_message_of, exact_open_id, exclude_selected,
  reserve_selected, keep_selected, freeze_one, freeze_all, excluded_row, frozen_row,
}

module _ (w : Outside) (c : Campaign) (expires_at : ℕ) where
  -- What a turn that keeps its recipient has found.
  pub record Keeps (index : ℕ) (p : Recipient) (f g : Freezing) : Type 0 where
    pub creator : Creator
    pub message : String
    pub open_id : String
    pub found : creator? p.creator_id f.store ≡ some creator
    pub rendered : frozen_message_of c creator ≡ some message
    pub exact : exact_open_id creator ≡ some open_id
    pub result : g ≡ reserve_selected w c expires_at index message open_id p f

  keep_selected-Keeps :
      (index : ℕ) (p : Recipient) (f g : Freezing)
      → keep_selected w c expires_at index p f ≡ ok g
      → Keeps index p f g
  unfolding keep_selected
  keep_selected-Keeps index p f g h =
      let (k, h1, hk) = ok_of_chain _ _ h in
      let (m, h2, hm) = ok_of_chain _ _ h1 in
      let (o, h3, ho) = ok_of_chain _ _ h2 in
      record {
        creator = k;
        message = m;
        open_id = o;
        found = or_throw-eq-ok _ unexpected hk;
        rendered = or_throw-eq-ok _ unexpected hm;
        exact = or_throw-eq-ok _ open_id_missing ho;
        result = sym (ok_inj h3);
      }

  abbrev pub Turn : ℕ → Option FreezeReason → Recipient → Freezing → Freezing → Type 0
  Turn index (some reason) p f g = g ≡ exclude_selected reason p f
  Turn index none p f g = Keeps index p f g

  pub freeze_one-Turn :
      (index : ℕ) (reason : Option FreezeReason) (p : Recipient) (f g : Freezing)
      → freeze_one w c expires_at index reason p f ≡ ok g
      → Turn index reason p f g
  unfolding freeze_one
  freeze_one-Turn index (some reason) p f g h = sym (ok_inj h)
  freeze_one-Turn index none p f g h = keep_selected-Keeps index p f g h

  -- What every turn, and so every run, leaves of the variables.
  pub record Continues (f g : Freezing) : Type 0 where
    pub creators : g.store.creators ≡ f.store.creators
    pub campaigns : g.store.campaigns ≡ f.store.campaigns
    pub deliveries : g.store.deliveries ≡ f.store.deliveries
    pub outbox : g.store.outbox ≡ f.store.outbox
    pub reservations : (v : Reservation) → Memᴰ v f.store.reservations → Memᴰ v g.store.reservations
    pub final_selected : f.final_selected ≤ g.final_selected

  Continues-trans : {f g h : Freezing} → Continues f g → Continues g h → Continues f h
  Continues-trans a b = record {
    creators = b.creators ∙ a.creators;
    campaigns = b.campaigns ∙ a.campaigns;
    deliveries = b.deliveries ∙ a.deliveries;
    outbox = b.outbox ∙ a.outbox;
    reservations = λ v m. b.reservations v (a.reservations v m);
    final_selected = omega (arith, a.final_selected, b.final_selected);
  }

  Continues-refl : (f : Freezing) → Continues f f
  Continues-refl f = record {
    creators = refl;
    campaigns = refl;
    deliveries = refl;
    outbox = refl;
    reservations = λ v m. m;
    final_selected = omega arith;
  }

  pub Turn-Continues :
      (index : ℕ) (reason : Option FreezeReason) (p : Recipient) (f g : Freezing)
      → Turn index reason p f g
      → Continues f g
  Turn-Continues index (some reason) p f g h = subst (Continues f) (sym h) (record {
    creators = refl;
    campaigns = refl;
    deliveries = refl;
    outbox = refl;
    reservations = λ v m. m;
    final_selected = omega arith;
  })
  Turn-Continues index none p f g h = subst (Continues f) (sym h.result) (record {
    creators = refl;
    campaigns = refl;
    deliveries = refl;
    outbox = refl;
    reservations = λ v m. Memᴰ.tail m;
    final_selected = omega arith;
  })

  pub Turn-other :
      (index : ℕ) (reason : Option FreezeReason) (p : Recipient) (f g : Freezing) (k : ℕ)
      → p.id ≢ k
      → Turn index reason p f g
      → recipient? k g.store ≡ recipient? k f.store
  Turn-other index (some reason) p f g k ne h =
      subst (λ (x : Freezing). recipient? k x.store ≡ recipient? k f.store) (sym h)
        (find-update_other (is_recipient k) (is_recipient p.id) (excluded_row reason)
          (λ x e. eq_apart x.id p.id k e ne) (λ x. refl) f.store.recipients)
  Turn-other index none p f g k ne h =
      subst (λ (x : Freezing). recipient? k x.store ≡ recipient? k f.store) (sym h.result)
        (find-update_other (is_recipient k) (is_recipient p.id)
          (frozen_row h.message (w.hash h.message) h.open_id (suc index))
          (λ x e. eq_apart x.id p.id k e ne) (λ x. refl) f.store.recipients)

  module _ (reason : Recipient → Option FreezeReason) where
    pub freeze_all-Continues :
        (index : ℕ) (ps : List Recipient) (f g : Freezing)
        → freeze_all w c expires_at reason index ps f ≡ ok g
        → Continues f g
    unfolding freeze_all
    freeze_all-Continues index [] f g h = subst (Continues f) (ok_inj h) (Continues-refl f)
    freeze_all-Continues index (p ∷ ps) f g h =
        let (m, rest, hm) = ok_of_chain _ _ h in
        Continues-trans
          (Turn-Continues index (reason p) p f m (freeze_one-Turn index (reason p) p f m hm))
          (freeze_all-Continues (suc index) ps m g rest)

    -- A run leaves the rows of the recipients that it does not visit.
    pub freeze_all-other :
        (index : ℕ) (ps : List Recipient) (f g : Freezing) (k : ℕ)
        → All (λ q. q.id ≢ k) ps
        → freeze_all w c expires_at reason index ps f ≡ ok g
        → recipient? k g.store ≡ recipient? k f.store
    unfolding freeze_all
    freeze_all-other index [] f g k ne h =
        subst (λ (x : Freezing). recipient? k x.store ≡ recipient? k f.store) (ok_inj h) refl
    freeze_all-other index (p ∷ ps) f g k ne h =
        let (m, rest, hm) = ok_of_chain _ _ h in
        freeze_all-other (suc index) ps m g k ne.1 rest
        ∙ Turn-other index (reason p) p f m k ne.0 (freeze_one-Turn index (reason p) p f m hm)
