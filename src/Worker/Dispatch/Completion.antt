-- ===== src/Worker/Dispatch/Completion.antt =====
-- apps/worker/src/campaign-completion.ts.
use tiktok_outreach.Prelude.{
  ℕ, ◌+◌, ◌-◌, ◌≤◌, ◌<◌, ◌≡◌, ◌↔◌, refl, Bool, true, false, ◌&&◌, List, [], ◌∷◌, arith, ltb, ◌==◌,
  length, all, count, count-le,
}
use tiktok_outreach.Worker.Dispatch.Rows.{RecipientState, Completion}

abbrev pub is_sent : RecipientState → Bool
is_sent RecipientState.sent = true
is_sent _ = false

abbrev pub is_failed : RecipientState → Bool
is_failed RecipientState.failed = true
is_failed _ = false

abbrev pub is_restricted : RecipientState → Bool
is_restricted RecipientState.restricted = true
is_restricted _ = false

abbrev pub is_cancelled : RecipientState → Bool
is_cancelled RecipientState.cancelled = true
is_cancelled _ = false

abbrev pub is_unresolved : RecipientState → Bool
is_unresolved RecipientState.delivery_unknown_unresolved = true
is_unresolved _ = false

abbrev pub is_terminal : RecipientState → Bool
is_terminal RecipientState.sent = true
is_terminal RecipientState.restricted = true
is_terminal RecipientState.failed = true
is_terminal RecipientState.delivery_unknown_unresolved = true
is_terminal RecipientState.cancelled = true
is_terminal _ = false

unfoldable pub all_frozen_recipients_terminal : List RecipientState → Bool
all_frozen_recipients_terminal states = ltb 0 (length states) && all is_terminal states

unfoldable pub campaign_completion_summary : List RecipientState → Completion
campaign_completion_summary states =
    let sent = count is_sent states in
    let failed = count is_failed states in
    let restricted = count is_restricted states in
    let safety_cancelled = count is_cancelled states in
    let unresolved = count is_unresolved states in
    record {
      completed_successfully = ltb 0 (length states) && sent == length states;
      sent = sent;
      restricted = restricted;
      failed = failed;
      safety_cancelled = safety_cancelled;
      unresolved = unresolved;
      other_terminal = length states - sent - failed - restricted - safety_cancelled - unresolved;
      terminal_recipients = length states;
    }

abbrev pub counted : Completion → ℕ
counted k = k.sent + k.restricted + k.failed + k.safety_cancelled + k.unresolved

counted-le :
    (states : List RecipientState) → counted (campaign_completion_summary states) ≤ length states
unfolding campaign_completion_summary
counted-le [] = omega arith
counted-le (RecipientState.sent ∷ states) = omega (arith, counted-le states)
counted-le (RecipientState.restricted ∷ states) = omega (arith, counted-le states)
counted-le (RecipientState.failed ∷ states) = omega (arith, counted-le states)
counted-le (RecipientState.delivery_unknown_unresolved ∷ states) = omega (arith, counted-le states)
counted-le (RecipientState.cancelled ∷ states) = omega (arith, counted-le states)
counted-le (_ ∷ states) = omega (arith, counted-le states)

terminal_counted :
    (states : List RecipientState)
    → all is_terminal states ≡ true
    → counted (campaign_completion_summary states) ≡ length states
unfolding campaign_completion_summary
terminal_counted [] h = refl
terminal_counted (RecipientState.sent ∷ states) h = omega (arith, terminal_counted states h)
terminal_counted (RecipientState.restricted ∷ states) h = omega (arith, terminal_counted states h)
terminal_counted (RecipientState.failed ∷ states) h = omega (arith, terminal_counted states h)
terminal_counted (RecipientState.delivery_unknown_unresolved ∷ states) h =
    omega (arith, terminal_counted states h)
terminal_counted (RecipientState.cancelled ∷ states) h = omega (arith, terminal_counted states h)
terminal_counted (_ ∷ states) h = cc

sent_count :
    (states : List RecipientState)
    → (count is_sent states ≡ length states) ↔ (all is_sent states ≡ true)
sent_count [] = (λ h. refl, λ h. refl)
sent_count (s ∷ states) = (
  λ h. ground (arith, sent_count states, count-le is_sent states),
  λ h. ground (arith, sent_count states),
)

-- campaignCompletionSummary counts every recipient once: its counters, `otherTerminal` among them,
-- add up to the recipients; where allFrozenRecipientsTerminal holds `otherTerminal` is zero; and the
-- campaign has completed successfully exactly where there are recipients and all of them are SENT.
pub completion_accounts :
    (states : List RecipientState)
    → (counted (campaign_completion_summary states)
          + (campaign_completion_summary states).other_terminal
        ≡ (campaign_completion_summary states).terminal_recipients)
      × (all_frozen_recipients_terminal states ≡ true
          → (campaign_completion_summary states).other_terminal ≡ 0)
      × (((campaign_completion_summary states).completed_successfully ≡ true)
          ↔ ((0 < length states) × (all is_sent states ≡ true)))
unfolding campaign_completion_summary all_frozen_recipients_terminal
completion_accounts states = (
  omega (arith, counted-le states),
  λ h. ground (arith, terminal_counted states),
  (λ h. ground (arith, sent_count states), λ h. ground (arith, sent_count states)),
)
