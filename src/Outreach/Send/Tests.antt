-- ===== src/Outreach/Send/Tests.antt =====
-- A campaign of one recipient is frozen and queued by one send.
use tiktok_outreach.Prelude.{◌≡◌, refl, ◌+◌, true, false, [], ◌∷◌, map, none, some}
use mathlib.Core.List.{Memᴰ}
use mathlib.Core.Option
use tiktok_outreach.Prelude.Sorting.{sort}
use tiktok_outreach.Domain.Template.{render_message}
use tiktok_outreach.Worker.Dispatch.Rows.{
  CampaignState, RecipientState, Campaign, Recipient, Store, campaign?,
}
use tiktok_outreach.Worker.Dispatch.Sample.{campaign, recipient, database}
use tiktok_outreach.Worker.Maintenance.{JobState}
use tiktok_outreach.Outreach.Freeze.{
  Outside, freeze_ms, freeze_reason, selected_of, drop_over, freeze_transaction,
}
use tiktok_outreach.Outreach.Freeze.Grounds.{facts_of}
use tiktok_outreach.Outreach.Freeze.Verdicts.{Decided, freeze-Decided}
use tiktok_outreach.Outreach.Freeze.Accounts.{Accounted, freeze-Accounted}
use tiktok_outreach.Outreach.Results.{Result, ok, err, unexpected, as_is}
use tiktok_outreach.Outreach.Queue.{QueueAnswers, queue_transaction}
use tiktok_outreach.Outreach.Send.{send}

abbrev outside : Outside
outside = record { unavailable = none; hash = λ text. text; get_fails = false }

abbrev answers : QueueAnswers
answers = record {
  read_only = false;
  job = λ p. JobState.absent;
  added = λ p. none;
  available = λ e. true;
  limit = 100;
  broken = none;
  get_fails = false;
  reread_fails = false;
  answer_fails = false;
}

abbrev previewed_campaign : Campaign
previewed_campaign = record campaign { state = CampaignState.preview_ready }

abbrev previewed_recipient : Recipient
previewed_recipient = record recipient {
  state = RecipientState.selected;
  frozen_message = none;
  content_hash = none;
  creator_open_id = none;
  frozen_rank = none;
}

abbrev previewed : Store
previewed = record (database []) {
  campaigns = previewed_campaign ∷ [];
  recipients = previewed_recipient ∷ [];
  deliveries = [];
  reservations = [];
}

abbrev result_of : Result Store → Store
result_of (ok t) = t
result_of (err e) = previewed

abbrev frozen : Store
frozen = result_of (freeze_transaction outside 1000 7 3 previewed)

freezes : freeze_transaction outside 1000 7 3 previewed ≡ ok frozen
unfolding freeze_transaction sort freeze_reason render_message
freezes = refl

messages : map (λ (p : Recipient). p.frozen_message) frozen.recipients ≡ some "Hi Ada" ∷ []
unfolding freeze_transaction sort freeze_reason render_message
messages = refl

freeze-Decided_example :
    Decided outside previewed_campaign 1000
      (1000 + freeze_ms)
      (drop_over 1 1000 previewed)
      previewed_recipient
      frozen
freeze-Decided_example =
    freeze-Decided outside 1000 7 3 previewed_campaign previewed frozen previewed_recipient refl
      freezes (tt, tt) (Memᴰ.head refl) refl

freeze-Accounted_example :
    (d : Campaign) × (campaign? 7 frozen ≡ some d)
    × Accounted previewed_campaign
        (1000 + freeze_ms)
        (facts_of previewed_campaign 1000 (drop_over 1 1000 previewed))
        (selected_of previewed_campaign (drop_over 1 1000 previewed))
        d
freeze-Accounted_example =
    freeze-Accounted outside 1000 7 3 previewed_campaign previewed frozen refl freezes

abbrev frozen_recipient : Recipient
frozen_recipient = record previewed_recipient {
  state = RecipientState.reserved;
  frozen_message = some "Hi Ada";
  content_hash = some "Hi Ada";
  creator_open_id = some "o";
  frozen_rank = some 1;
}

abbrev frozen_store : Store
frozen_store = record previewed {
  campaigns =
      record previewed_campaign {
        state = CampaignState.frozen;
        freeze_expires_at = some 1801000;
        version = 4;
      }
      ∷ [];
  recipients = frozen_recipient ∷ [];
  reservations =
      record { recipient_id = 5; shop_id = 1; creator_id = 4; expires_at = 1801000 } ∷ [];
}

freezes_recipients : frozen.recipients ≡ frozen_store.recipients
unfolding freeze_transaction sort freeze_reason render_message
freezes_recipients = refl

abbrev queued : Store
queued = result_of (queue_transaction (λ p. 90 + p) previewed_campaign 7 4 frozen_store)

-- The outbox breaks in the first turn of the reconciliation, when the campaign is queued, and so does
-- the read that would answer with it.
abbrev breaking : QueueAnswers
breaking = record answers { broken = some 0; answer_fails = true }

breaks : (send outside breaking (λ p. 90 + p) 1000 7 3 previewed).0 ≡ some (as_is unexpected)
unfolding send sort freeze_reason render_message
breaks = refl

sends :
    map
      (λ (c : Campaign). c.state)
      (send outside answers (λ p. 90 + p) 1000 7 3 previewed).1.campaigns
    ≡ CampaignState.queued ∷ []
unfolding send sort freeze_reason render_message
sends = refl
