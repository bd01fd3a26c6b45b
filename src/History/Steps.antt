-- ===== src/History/Steps.antt =====
-- Each step of a run keeps IsSound.
use tiktok_outreach.Prelude.{
  ℕ, ◌≡◌, refl, sym, ◌∙◌, subst, inr, Bool, true, false, List, [], ◌∷◌, Option, none, some, arith,
  ◌==◌, All, some_and,
}
use tiktok_outreach.Prelude.Tables.{All-update_where, All-upsert}
use tiktok_outreach.History.Rows.{
  SyncState, SyncMode, SyncPhase, Item, ConversationPage, MessagePage, Job, Work, History, Settings,
  HistoryEvent, is_held_by, is_work,
}
use tiktok_outreach.History.Pages.{
  stage, new_work, fetch_conversation_page, page_read, store_message_page, import_messages,
  audit_if, ensure_conversation,
}
use tiktok_outreach.History.Sound.{Placed, SoundState, IsSound, SoundState-leased, Placed-reading}

-- An audit event changes nothing that IsSound reads.
pub IsSound-audit_if :
    {s : Settings} {id : ℕ} (b : Bool) (e : HistoryEvent) (h : History)
    → IsSound s id h
    → IsSound s id (audit_if b e h)
IsSound-audit_if true e h g = record {
  own = g.own;
  placed = g.placed;
  pass = g.pass;
  index = g.index;
  state = g.state;
  phase = g.phase;
  mode = g.mode;
}
IsSound-audit_if false e h g = g

pub held-running :
    (owner : ℕ) (j : Job)
    → is_held_by owner j ≡ true
    → SoundState j.state j.lease_owner j.phase j.mode j.completed_at
    → j.state ≡ SyncState.running
held-running owner j held g = by_owner j.lease_owner held g
  where
    by_owner :
        (o : Option ℕ)
        → some_and o (λ x. x == owner) ≡ true
        → SoundState j.state o j.phase j.mode j.completed_at
        → j.state ≡ SyncState.running
    by_owner none held g = cc
    by_owner (some o) held g = SoundState-leased j.state o j.phase j.mode j.completed_at g

stage-Placed :
    (n : ℕ) (items : List Item) (ws : List Work)
    → All (Placed n SyncPhase.messages) ws
    → All (Placed n SyncPhase.messages) (stage n items ws)
unfolding stage
stage-Placed n [] ws h = h
stage-Placed n (i ∷ is) ws h = stage-Placed n is _ (
    All-upsert (Placed n SyncPhase.messages) (is_work n i.id) (λ w. w) (new_work n i)
      (inr (refl, refl)) (λ w g. g) ws h)

-- A state that stays running.
pub still_running :
    {state : SyncState} (owner : Option ℕ) (phase : SyncPhase) (mode : SyncMode)
    (completed : Option ℕ)
    → state ≡ SyncState.running
    → SoundState state owner phase mode completed
still_running owner phase mode completed e =
    subst (λ x. SoundState x owner phase mode completed) (sym e) tt

is_work-page :
    (x w : Work)
    → is_work w.page_sequence w.conversation_id x ≡ true
    → x.page_sequence ≡ w.page_sequence
is_work-page x w own = ground arith

module _ {s : Settings} {id : ℕ} (owner now : ℕ) (h : History) where
  pub fetch_conversation_page-IsSound :
      (page : ConversationPage)
      → is_held_by owner h.job ≡ true
      → IsSound s id h
      → IsSound s id (fetch_conversation_page s now h.job owner page h)
  unfolding fetch_conversation_page
  fetch_conversation_page-IsSound page held g = rw (held) (record {
    own = g.own;
    placed =
        stage-Placed h.job.page_sequence page.items h.works
          (Placed-reading h.job.page_sequence h.job.phase h.works g.placed);
    pass = g.pass;
    index = g.index;
    state =
        still_running none SyncPhase.messages h.job.mode h.job.completed_at
          (held-running owner h.job held g.state);
    phase = refl;
    mode = g.mode;
  })

  pub ensure_conversation-IsSound :
      (creator : ℕ) (item : Item)
      → IsSound s id h
      → IsSound s id (ensure_conversation now creator item h).1
  unfolding ensure_conversation
  ensure_conversation-IsSound creator item g = record {
    own = g.own;
    placed = g.placed;
    pass = g.pass;
    index = g.index;
    state = g.state;
    phase = g.phase;
    mode = g.mode;
  }

  pub store_message_page-IsSound :
      (new_conversation : Bool) (w : Work) (page : MessagePage)
      → is_held_by owner h.job ≡ true
      → w.page_sequence ≡ h.job.page_sequence
      → h.job.phase ≡ SyncPhase.messages
      → IsSound s id h
      → IsSound s id (store_message_page s now owner new_conversation w page h)
  unfolding store_message_page
  store_message_page-IsSound new_conversation w page held here reading g = rw (held) (
      IsSound-audit_if _
        (HistoryEvent.history_messages_imported w.conversation_id
          (import_messages w.conversation_id page.items h.messages).0)
        _
        (record {
          own = g.own;
          placed =
              All-update_where (Placed h.job.page_sequence h.job.phase)
                (is_work w.page_sequence w.conversation_id)
                (page_read now page (import_messages w.conversation_id page.items h.messages).0)
                h.works g.placed (λ x q own. inr (is_work-page x w own ∙ here, reading));
          pass = g.pass;
          index = g.index;
          state =
              still_running none h.job.phase h.job.mode h.job.completed_at
                (held-running owner h.job held g.state);
          phase = g.phase;
          mode = g.mode;
        }))
