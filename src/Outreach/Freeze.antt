-- ===== src/Outreach/Freeze.antt =====
-- freeze of OutreachService (apps/api/src/outreach/outreach.service.ts). The clock is read several
-- times within the method; here it is one instant. The locks only order the transactions.
pub mod Grounds
pub mod Loop
pub mod Verdicts
pub mod Tallies
pub mod Accounts
use tiktok_outreach.Prelude.{
  ℕ, suc, ◌+◌, ◌-◌, String, Bool, true, false, not, ◌&&◌, ◌||◌, List, [], ◌∷◌, Option, none, some,
  ◌==◌, leb, if◌then◌else◌, or_else, is_some, some_and, any, select, length, is_empty,
}
use tiktok_outreach.Prelude.Int.{leb_ℤ}
use tiktok_outreach.Prelude.Sorting.{sort}
use tiktok_outreach.Prelude.Tables.{update_where, delete_where}
use tiktok_outreach.Domain.Preview.{after_cutoff}
use tiktok_outreach.Domain.Template.{Values, render_message}
use tiktok_outreach.Worker.Dispatch.Rows.{
  CampaignState, RecipientState, Campaign, Summary, Recipient, Creator, Contact, Reservation,
  AuditKind, Store, is_campaign, is_recipient, campaign?, creator?, contact?, recipient?,
}
use tiktok_outreach.Outreach.Expiry.{log, expire_frozen_campaigns}
use tiktok_outreach.Outreach.Results.{
  OutreachError, preview_stale, no_eligible_recipients, open_id_missing, unexpected,
  campaign_not_found, outbound_unavailable, Result, ok, err, ◌>>=◌, or_throw, MethodEnd, commit,
  then_get,
}

-- What the program asks of others: whether outbound is available (or why not), the hash of a message,
-- and whether the `get` at the end of freeze throws.
pub record Outside : Type 0 where
  pub unavailable : Option String
  pub hash : String → String
  pub get_fails : Bool

-- `eligibility: "EXCLUDED"` with its reason.
pub data FreezeReason : Type 0 where
  do_not_contact delivery_unknown cooldown contacted_by_app active_reservation : FreezeReason

abbrev pub freeze_reason_text : FreezeReason → String
freeze_reason_text do_not_contact = "DO_NOT_CONTACT"
freeze_reason_text delivery_unknown = "DELIVERY_UNKNOWN"
freeze_reason_text cooldown = "COOLDOWN"
freeze_reason_text contacted_by_app = "CONTACTED_BY_APP_WITHIN_COOLDOWN"
freeze_reason_text active_reservation = "ACTIVE_RESERVATION"

abbrev pub is_preview_ready : CampaignState → Bool
is_preview_ready CampaignState.preview_ready = true
is_preview_ready _ = false

abbrev pub is_current : Campaign → ℕ → Bool
is_current c version = is_preview_ready c.state && c.version == version

abbrev pub is_selected_of : ℕ → Recipient → Bool
is_selected_of campaign p = p.campaign_id == campaign && p.selected

abbrev pub ranked_first : Bool → Recipient → Recipient → Bool
ranked_first ascending p q =
    if ascending
    then leb_ℤ p.ranking_value q.ranking_value
    else leb_ℤ q.ranking_value p.ranking_value

unfoldable pub selected_of : Campaign → Store → List Recipient
selected_of c s = sort (ranked_first c.ranks_ascending) (select (is_selected_of c.id) s.recipients)

abbrev pub is_over : ℕ → ℕ → Reservation → Bool
is_over shop now v = v.shop_id == shop && leb v.expires_at now

-- `activelyReservedCreatorIds.has(creatorId)`.
abbrev pub actively_reserved : Campaign → ℕ → Store → ℕ → Bool
actively_reserved c now s creator =
    any (λ v. v.shop_id == c.shop_id && v.creator_id == creator && not (leb v.expires_at now))
      s.reservations

unfoldable pub contact_reason : Campaign → ℕ → Option Contact → Bool → Option FreezeReason
contact_reason c now none reserved = if reserved then some active_reservation else none
contact_reason c now (some k) reserved =
    if k.do_not_contact
    then some do_not_contact
    else if k.unresolved_delivery
    then some delivery_unknown
    else if some_and k.last_contacted_at (λ t. after_cutoff now c.cooldown_days t)
    then some (if is_some k.last_campaign_id then contacted_by_app else cooldown)
    else if reserved
    then some active_reservation
    else none

-- The reason of a recipient, on the tables as they are when eligibility is checked.
unfoldable pub freeze_reason : Campaign → ℕ → Store → Recipient → Option FreezeReason
unfolding contact_reason
freeze_reason c now s p =
    contact_reason c now (contact? c.shop_id p.creator_id s)
      (actively_reserved c now s p.creator_id)

-- `exclusionCounts`: COOLDOWN and CONTACTED_BY_APP_WITHIN_COOLDOWN are counted apart.
pub record Exclusions : Type 0 where
  pub do_not_contact : ℕ
  pub delivery_unknown : ℕ
  pub cooldown : ℕ
  pub contacted_by_app : ℕ
  pub active_reservation : ℕ

abbrev pub no_exclusions : Exclusions
no_exclusions = record {
  do_not_contact = 0;
  delivery_unknown = 0;
  cooldown = 0;
  contacted_by_app = 0;
  active_reservation = 0;
}

abbrev pub count_exclusion : FreezeReason → Exclusions → Exclusions
count_exclusion do_not_contact x = record x { do_not_contact = suc x.do_not_contact }
count_exclusion delivery_unknown x = record x { delivery_unknown = suc x.delivery_unknown }
count_exclusion cooldown x = record x { cooldown = suc x.cooldown }
count_exclusion contacted_by_app x = record x { contacted_by_app = suc x.contacted_by_app }
count_exclusion active_reservation x = record x { active_reservation = suc x.active_reservation }

-- `Object.values(exclusionCounts).reduce(…)`.
abbrev pub total_exclusions : Exclusions → ℕ
total_exclusions x =
    x.do_not_contact + x.delivery_unknown + x.cooldown + x.contacted_by_app + x.active_reservation

-- The variables of the loop over the selected recipients.
pub record Freezing : Type 0 where
  pub store : Store
  pub exclusions : Exclusions
  pub final_selected : ℕ

abbrev pub excluded_row : FreezeReason → Recipient → Recipient
excluded_row reason p = record p {
  selected = false;
  excluded = true;
  skip_reason = some (freeze_reason_text reason);
  state = RecipientState.discovered;
  frozen_message = none;
  content_hash = none;
}

abbrev pub frozen_row : String → String → String → ℕ → Recipient → Recipient
frozen_row message content_hash open_id rank p = record p {
  frozen_message = some message;
  content_hash = some content_hash;
  state = RecipientState.reserved;
  creator_open_id = some open_id;
  frozen_rank = some rank;
}

-- `nickname ?? username ?? "there"`.
abbrev pub display_name : Creator → String
display_name k = or_else k.nickname (or_else k.username "there")

abbrev pub frozen_message_of : Campaign → Creator → Option String
frozen_message_of c k = render_message c.message_template (record {
  creator_display_name = display_name k;
  product_name = c.product_name;
  campaign_name = c.name;
})

-- An Open ID that a condition takes as true.
abbrev pub exact_open_id : Creator → Option String
exact_open_id k = elim k.creator_open_id [
  | none ↦ none
  | some o ↦ if is_empty o then none else some o
]

abbrev pub exclude_selected : FreezeReason → Recipient → Freezing → Freezing
exclude_selected reason p f = record {
  store = record f.store {
    recipients = update_where (is_recipient p.id) (excluded_row reason) f.store.recipients;
  };
  exclusions = count_exclusion reason f.exclusions;
  final_selected = f.final_selected;
}

module _ (w : Outside) (c : Campaign) (expires_at : ℕ) where
  abbrev pub reserve_selected : ℕ → String → String → Recipient → Freezing → Freezing
  reserve_selected index message open_id p f = record {
    store = record f.store {
      reservations =
          record {
            recipient_id = p.id;
            shop_id = c.shop_id;
            creator_id = p.creator_id;
            expires_at = expires_at;
          }
          ∷ f.store.reservations;
      recipients =
          update_where (is_recipient p.id) (frozen_row message (w.hash message) open_id (suc index))
            f.store.recipients;
    };
    exclusions = f.exclusions;
    final_selected = suc f.final_selected;
  }

  unfoldable pub keep_selected : ℕ → Recipient → Freezing → Result Freezing
  keep_selected index p f = do
    k ← or_throw (creator? p.creator_id f.store) unexpected
    message ← or_throw (frozen_message_of c k) unexpected
    open_id ← or_throw (exact_open_id k) open_id_missing
    ok (reserve_selected index message open_id p f)

  -- One turn of the loop; the reason is of the tables at the check.
  unfoldable pub freeze_one : ℕ → Option FreezeReason → Recipient → Freezing → Result Freezing
  unfolding keep_selected
  freeze_one index (some reason) p f = ok (exclude_selected reason p f)
  freeze_one index none p f = keep_selected index p f

  unfoldable pub freeze_all :
      (Recipient → Option FreezeReason) → ℕ → List Recipient → Freezing → Result Freezing
  unfolding freeze_one
  freeze_all reason index [] f = ok f
  freeze_all reason index (p ∷ ps) f =
      freeze_one index (reason p) p f >>= freeze_all reason (suc index) ps

unfoldable pub final_summary : Campaign → ℕ → Freezing → Summary
final_summary c selected f = record {
  selected = f.final_selected;
  eligible = c.summary.eligible - total_exclusions f.exclusions;
  shortfall = c.target_count - f.final_selected;
  skipped_do_not_contact = c.summary.skipped_do_not_contact + f.exclusions.do_not_contact;
  skipped_unknown_delivery = c.summary.skipped_unknown_delivery + f.exclusions.delivery_unknown;
  skipped_cooldown = c.summary.skipped_cooldown + f.exclusions.cooldown;
  skipped_active_reservation =
      c.summary.skipped_active_reservation + f.exclusions.active_reservation;
  freeze_adjustment = selected - f.final_selected;
}

abbrev pub reserved_by : ℕ → Store → Reservation → Bool
reserved_by campaign s v = some_and (recipient? v.recipient_id s) (λ p. p.campaign_id == campaign)

abbrev pub empty_freeze : Campaign → Summary → Store → Store
empty_freeze c summary s = log c AuditKind.campaign_freeze_empty (record s {
  reservations = delete_where (reserved_by c.id s) s.reservations;
  campaigns =
      update_where (is_campaign c.id)
        (λ d. record d {
          state = CampaignState.preview_expired;
          freeze_expires_at = none;
          summary = summary;
          version = suc d.version;
        })
        s.campaigns;
})

abbrev pub full_freeze : Campaign → ℕ → Summary → Store → Store
full_freeze c expires_at summary s = log c AuditKind.campaign_frozen (record s {
  campaigns =
      update_where (is_campaign c.id)
        (λ d. record d {
          state = CampaignState.frozen;
          freeze_expires_at = some expires_at;
          summary = summary;
          version = suc d.version;
        })
        s.campaigns;
})

abbrev pub finish_freeze : Campaign → ℕ → ℕ → Freezing → Store
finish_freeze c expires_at selected f =
    if f.final_selected == 0
    then empty_freeze c (final_summary c selected f) f.store
    else full_freeze c expires_at (final_summary c selected f) f.store

abbrev pub freeze_ms : ℕ
freeze_ms = 1800000

abbrev pub drop_over : ℕ → ℕ → Store → Store
drop_over shop now s = record s { reservations = delete_where (is_over shop now) s.reservations }

abbrev pub start_freezing : Store → Freezing
start_freezing s = record { store = s; exclusions = no_exclusions; final_selected = 0 }

module _ (w : Outside) (now : ℕ) where
  -- The recipients of a campaign that is still as it was previewed.
  unfoldable pub freeze_selected : Campaign → Store → Result Store
  unfolding freeze_all selected_of final_summary
  freeze_selected c s =
      let t = drop_over c.shop_id now s in
      let ps = selected_of c t in
      freeze_all w c (now + freeze_ms) (freeze_reason c now t) 0 ps (start_freezing t) >>= λ f.
      ok (finish_freeze c (now + freeze_ms) (length ps) f)

  -- The transaction. An empty selection throws before the campaign is read again.
  unfoldable pub freeze_transaction : ℕ → ℕ → Store → Result Store
  unfolding freeze_selected
  freeze_transaction id version s =
      if is_nil (select (is_selected_of id) s.recipients)
      then err no_eligible_recipients
      else or_throw (campaign? id s) unexpected >>= λ c.
          if is_current c version then freeze_selected c s else err preview_stale
    where
      is_nil : List Recipient → Bool
      is_nil [] = true
      is_nil (p ∷ ps) = false

  -- From the campaign on, as it is found or not.
  unfoldable pub freeze_found : ℕ → ℕ → Store → Option Campaign → MethodEnd
  unfolding freeze_transaction
  freeze_found id version s none = (some campaign_not_found, s)
  freeze_found id version s (some c) =
      if is_current c version
      then then_get w.get_fails (commit s (freeze_transaction id version s))
      else (some preview_stale, s)

  -- `requireOutboundAvailable`, and what follows it.
  abbrev pub if_available : Option String → Store → MethodEnd → MethodEnd
  if_available none s a = a
  if_available (some reason) s a = (some (outbound_unavailable reason), s)

  unfoldable pub freeze : ℕ → ℕ → Store → MethodEnd
  unfolding freeze_found expire_frozen_campaigns
  freeze id version s =
      let t = (expire_frozen_campaigns now s).1 in
      if_available w.unavailable s (freeze_found id version t (campaign? id t))
