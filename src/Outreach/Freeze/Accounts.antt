-- ===== src/Outreach/Freeze/Accounts.antt =====
-- That the numbers of a freeze add up, and what it leaves of the campaign.
use tiktok_outreach.Prelude.{
  ℕ, suc, ◌+◌, ◌-◌, ◌≡◌, inl, inr, refl, sym, subst, List, [], ◌∷◌, none, some, arith, ◌==◌, ==_iff,
  if◌then◌else◌, length, find, Bool-cases, Bool, count, ◌≤◌, ◌∙◌,
}
use tiktok_outreach.Prelude.Tables.{find-update_found, find_passed}
use tiktok_outreach.Worker.Dispatch.Rows.{
  CampaignState, Campaign, Recipient, Store, campaign?, is_campaign,
}
use tiktok_outreach.Outreach.Results.{ok, ok_of_chain, ok_inj}
use tiktok_outreach.Outreach.Freeze.{
  Outside, FreezeReason, do_not_contact, delivery_unknown, cooldown, contacted_by_app,
  active_reservation, Freezing, final_summary, finish_freeze, selected_of, freeze_reason, drop_over,
  start_freezing, freeze_ms, freeze_selected, freeze_transaction,
}
use tiktok_outreach.Outreach.Freeze.Grounds.{
  Facts, facts_of, grounds, is_free, freeze_reason-grounds, freeze_reason_free,
}
use tiktok_outreach.Outreach.Freeze.Loop.{freeze_all-Continues}
use tiktok_outreach.Outreach.Freeze.Verdicts.{freeze_transaction-selected}
use tiktok_outreach.Outreach.Freeze.Tallies.{
  freeze_all-Tallied, freeze_all-visited, from_nothing, started, tally, visited,
}

-- The campaign after a freeze of `selected` recipients that kept `f.final_selected`.
abbrev pub settled_row : ℕ → ℕ → Freezing → Campaign → Campaign
settled_row expires_at selected f c = record c {
  state = if f.final_selected == 0 then CampaignState.preview_expired else CampaignState.frozen;
  freeze_expires_at = if f.final_selected == 0 then none else some expires_at;
  summary = final_summary c selected f;
  version = suc c.version;
}

finish-campaign? :
    (c : Campaign) (expires_at selected : ℕ) (f : Freezing)
    → campaign? c.id f.store ≡ some c
    → campaign? c.id (finish_freeze c expires_at selected f)
      ≡ some (settled_row expires_at selected f c)
finish-campaign? c expires_at selected f h = elim (Bool-cases (f.final_selected == 0)) [
  | inl e ↦ rw e (find-update_found (is_campaign c.id) _ (λ x. refl) f.store.campaigns c h)
  | inr e ↦ rw e (find-update_found (is_campaign c.id) _ (λ x. refl) f.store.campaigns c h)
]

count-eq :
    (p q : Recipient → Bool) (xs : List Recipient)
    → ((x : Recipient) → p x ≡ q x)
    → count p xs ≡ count q xs
count-eq p q [] h = refl
count-eq p q (x ∷ xs) h = rw (h x) (rw (count-eq p q xs h) refl)

-- What a freeze leaves of a campaign `c` whose selected recipients are `ps`, with the facts of each:
-- `d`. The numbers are of the facts.
pub record Accounted (c : Campaign) (expires_at : ℕ) (facts : Recipient → Facts)
    (ps : List Recipient) (d : Campaign) : Type 0 where
  pub selected : d.summary.selected ≡ count (λ p. is_free (facts p)) ps
  pub blocked :
      d.summary.skipped_do_not_contact
      ≡ c.summary.skipped_do_not_contact + count (λ p. grounds do_not_contact (facts p)) ps
  pub unknown :
      d.summary.skipped_unknown_delivery
      ≡ c.summary.skipped_unknown_delivery + count (λ p. grounds delivery_unknown (facts p)) ps
  pub cooling :
      d.summary.skipped_cooldown
      ≡ c.summary.skipped_cooldown + count (λ p. grounds cooldown (facts p)) ps
  pub reserved :
      d.summary.skipped_active_reservation
      ≡ c.summary.skipped_active_reservation + count (λ p. grounds active_reservation (facts p)) ps
  pub adjustment : d.summary.freeze_adjustment + d.summary.selected ≡ length ps
  pub eligible : d.summary.eligible ≡ c.summary.eligible - d.summary.freeze_adjustment
  pub shortfall : d.summary.shortfall ≡ c.target_count - d.summary.selected
  pub uncounted :
      d.summary.skipped_do_not_contact
        + d.summary.skipped_unknown_delivery
        + d.summary.skipped_cooldown
        + d.summary.skipped_active_reservation
        + count (λ p. grounds contacted_by_app (facts p)) ps
      ≡ c.summary.skipped_do_not_contact + c.summary.skipped_unknown_delivery
        + c.summary.skipped_cooldown + c.summary.skipped_active_reservation
        + d.summary.freeze_adjustment
  pub empty :
      d.summary.selected ≡ 0
      → (d.state ≡ CampaignState.preview_expired) × (d.freeze_expires_at ≡ none)
  pub frozen :
      1 ≤ d.summary.selected
      → (d.state ≡ CampaignState.frozen) × (d.freeze_expires_at ≡ some expires_at)
  pub version : d.version ≡ suc c.version

settled-Accounted :
    (c : Campaign) (expires_at : ℕ) (facts : Recipient → Facts) (ps : List Recipient) (f : Freezing)
    → f.final_selected ≡ count (λ p. is_free (facts p)) ps
    → ((r : FreezeReason) → tally r f.exclusions ≡ count (λ p. grounds r (facts p)) ps)
    → visited f ≡ length ps
    → Accounted c expires_at facts ps (settled_row expires_at (length ps) f c)
unfolding final_summary
settled-Accounted c expires_at facts ps f free tallies all = record {
  selected = free;
  blocked = omega (arith, tallies do_not_contact);
  unknown = omega (arith, tallies delivery_unknown);
  cooling = omega (arith, tallies cooldown);
  reserved = omega (arith, tallies active_reservation);
  adjustment = omega arith;
  eligible = omega arith;
  shortfall = refl;
  uncounted = omega (arith, tallies contacted_by_app);
  empty = λ none_kept. ground arith;
  frozen = λ kept. ground arith;
  version = refl;
}

-- A freeze that does not throw leaves these numbers of the recipients that the preview selected, by
-- their contacts and the reservations of that instant, less those of the shop that are over. The
-- campaign's summary selects those that nothing is against; its counts of blocked, unresolved, cooling
-- and reserved recipients grow by those excluded on each of these grounds; the adjustment is the
-- excluded ones, and they leave the eligible ones. The campaign is FROZEN for thirty minutes, or
-- PREVIEW_EXPIRED if none was kept, with the next version. So the counts of skipped recipients grow
-- by the adjustment less those that a campaign has contacted within the cooldown: no count has these.
pub freeze-Accounted :
    (w : Outside) (now id version : ℕ) (c : Campaign) (s s' : Store)
    → campaign? id s ≡ some c
    → freeze_transaction w now id version s ≡ ok s'
    → (d : Campaign) × (campaign? id s' ≡ some d)
      × Accounted c
          (now + freeze_ms)
          (facts_of c now (drop_over c.shop_id now s))
          (selected_of c (drop_over c.shop_id now s))
          d
unfolding freeze_selected
freeze-Accounted w now id version c s s' hc h =
    let t = drop_over c.shop_id now s in
    let n = length (selected_of c t) in
    let (f, done, hf) =
      ok_of_chain _ _ (freeze_transaction-selected w now id version c s s' hc h).1 in
    let all_visited =
      freeze_all-visited w c (now + freeze_ms) (freeze_reason c now t) 0 (selected_of c t)
        (start_freezing t) f hf in
    let kept =
      freeze_all-Continues w c (now + freeze_ms) (freeze_reason c now t) 0 (selected_of c t)
        (start_freezing t) f hf in
    let same : c.id ≡ id = (==_iff c.id id).0 (find_passed (is_campaign id) s.campaigns c hc) in
    let still : campaign? c.id f.store ≡ some c =
      subst (λ cs. find (is_campaign c.id) cs ≡ some c) (sym kept.campaigns)
        (subst (λ k. find (is_campaign k) s.campaigns ≡ some c) (sym same) hc) in
    let counted : visited f ≡ n = omega (arith, all_visited) in
    let row : campaign? id (finish_freeze c (now + freeze_ms) n f)
        ≡ some (settled_row (now + freeze_ms) n f c) =
      subst
        (λ k.
          campaign? k (finish_freeze c (now + freeze_ms) n f)
          ≡ some (settled_row (now + freeze_ms) n f c))
        same (finish-campaign? c (now + freeze_ms) n f still) in
    let (tallies, kept_count) =
      freeze_all-Tallied w c (now + freeze_ms) (freeze_reason c now t) 0 (selected_of c t)
        (start_freezing t) f hf in
    (
      settled_row (now + freeze_ms) n f c,
      subst (λ x. campaign? id x ≡ some (settled_row (now + freeze_ms) n f c)) (ok_inj done) row,
      settled-Accounted c (now + freeze_ms) (facts_of c now t) (selected_of c t) f
          (kept_count
            ∙ from_nothing _
            ∙ count-eq _ _ (selected_of c t) (freeze_reason_free c now t))
          (λ r.
            tallies r
            ∙ started r _
            ∙ count-eq _ _ (selected_of c t) (λ p. freeze_reason-grounds c now t p r))
          counted,
    )
