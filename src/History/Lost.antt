-- ===== src/History/Lost.antt =====
-- A worker that has lost its lease leaves the job alone.
use tiktok_outreach.Prelude.{
  ℕ, suc, ◌≡◌, refl, inl, inr, Bool, true, false, ◌&&◌, is_some, Bool-cases, truthy, ltb,
}
use tiktok_outreach.History.Rows.{
  PassKind, Failure, ConversationPage, MessagePage, Job, Work, History, HistoryEvent, Settings,
  is_held_by,
}
use tiktok_outreach.History.Pages.{
  audit_if, import_messages, fetch_conversation_page, store_message_page, advance_head,
  continue_backfill, finish_backfill, advance_backfill, advance_incremental, advance_by,
  advance_completed_page, has_more, next_index,
}
use tiktok_outreach.History.Errors.{handle_error}

-- What every write of a worker that holds no lease of the job leaves of it.
module _ (s : Settings) (now owner : ℕ) (snapshot : Job) (h : History) where
  same_job :
      (b : Bool) (e : HistoryEvent) (t : History) → t.job ≡ h.job → (audit_if b e t).job ≡ h.job
  same_job true e t g = g
  same_job false e t g = g

  fetch_lost :
      (page : ConversationPage)
      → is_held_by owner h.job ≡ false
      → (fetch_conversation_page s now snapshot owner page h).job ≡ h.job
  unfolding fetch_conversation_page
  fetch_lost page lost = rw lost refl

  store_lost :
      (b : Bool) (w : Work) (page : MessagePage)
      → is_held_by owner h.job ≡ false
      → (store_message_page s now owner b w page h).job ≡ h.job
  unfolding store_message_page
  store_lost b w page lost =
      same_job (ltb 0 (import_messages w.conversation_id page.items h.messages).0) _ _
        (rw lost refl)

  continue_lost :
      is_held_by owner h.job ≡ false → (continue_backfill s now snapshot owner h).job ≡ h.job
  unfolding continue_backfill
  continue_lost lost = rw lost (
      same_job _ (HistoryEvent.history_provider_page_completed (suc snapshot.pages_processed)) _
        refl)

  backfill_lost :
      is_held_by owner h.job ≡ false → (advance_backfill s now snapshot owner h).1.job ≡ h.job
  unfolding advance_backfill finish_backfill
  backfill_lost lost = elim (Bool-cases (has_more s now snapshot owner)) [
    | inl more ↦ elim (Bool-cases (is_some (truthy snapshot.pending_next_page_token))) [
      | inl token ↦ rw more (rw token (continue_lost lost))
      | inr missing ↦ rw more (rw missing refl)
    ]
    | inr last ↦ rw last (rw lost refl)
  ]

  advance_lost :
      (k : PassKind)
      → is_held_by owner h.job ≡ false
      → (advance_by s now snapshot owner k h).1.job ≡ h.job
  unfolding advance_by advance_head advance_incremental
  advance_lost PassKind.head lost = rw lost refl
  advance_lost PassKind.backfill lost = backfill_lost lost
  advance_lost PassKind.incremental lost =
      elim (Bool-cases (
        has_more s now snapshot owner
        && is_some (truthy snapshot.pending_next_page_token)
        && ltb (next_index s now snapshot owner) s.incremental_pages)) [
          | inl on ↦ rw on (rw lost refl)
          | inr over ↦ rw over (rw lost refl)
        ]

  error_lost : (f : Failure) → is_held_by owner h.job ≡ false → handle_error now owner f h ≡ h
  unfolding handle_error
  error_lost f lost = rw lost refl

  -- What the writes of a worker leave of the job.
  pub record LeavesJob : Type 0 where
    pub listed :
        (page : ConversationPage)
        → (fetch_conversation_page s now snapshot owner page h).job ≡ h.job
    pub read :
        (b : Bool) (w : Work) (page : MessagePage)
        → (store_message_page s now owner b w page h).job ≡ h.job
    pub advanced : (advance_completed_page s now snapshot owner h).1.job ≡ h.job
    pub failed : (f : Failure) → handle_error now owner f h ≡ h

  -- A worker whose lease another has taken changes nothing of the job, whatever it has read of it
  -- before and whatever the provider answers: neither its cursors nor its counters nor its state;
  -- and an error of this worker changes no row.
  pub LeavesJob-lost : is_held_by owner h.job ≡ false → LeavesJob
  unfolding advance_completed_page
  LeavesJob-lost lost = record {
    listed = λ page. fetch_lost page lost;
    read = λ b w page. store_lost b w page lost;
    advanced = advance_lost snapshot.pass_kind lost;
    failed = λ f. error_lost f lost;
  }
