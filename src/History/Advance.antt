-- ===== src/History/Advance.antt =====
-- advanceCompletedPage keeps IsSound: a page is left only when none of its works is open.
use tiktok_outreach.Prelude.{
  ℕ, suc, ◌≡◌, refl, sym, subst, inl, inr, true, ◌&&◌, none, arith, leb, ltb, is_some, All,
  Bool-cases, truthy,
}
use tiktok_outreach.History.Rows.{
  SyncMode, PassKind, SyncPhase, Job, History, Settings, HistoryEvent, is_held_by,
}
use tiktok_outreach.History.Pages.{
  advance_head, continue_backfill, finish_backfill, advance_backfill, advance_incremental,
  advance_by, advance_completed_page, has_more, next_index,
}
use tiktok_outreach.History.Sound.{Placed, SoundPass, IsSound, HasMinima}
use tiktok_outreach.History.Steps.{IsSound-audit_if, held-running, still_running}

-- The facts of a pass whose kind is known.
abbrev PassOf : Settings → PassKind → Job → Type 0
PassOf s k j = SoundPass s k j.mode j.backfill_pages_since_head j.incremental_page_token

pub pass_at :
    (s : Settings) (j : Job) {k : PassKind}
    → j.pass_kind ≡ k
    → PassOf s j.pass_kind j
    → PassOf s k j
pass_at s j e g = subst (λ x. PassOf s x j) e g

module _ (s : Settings) (id owner now : ℕ) (h : History) where
  abbrev NextPlaced : Type 0
  NextPlaced = All (Placed (suc h.job.page_sequence) SyncPhase.list) h.works

  advance_head-IsSound :
      HasMinima s
      → is_held_by owner h.job ≡ true
      → NextPlaced
      → h.job.pass_kind ≡ PassKind.head
      → IsSound s id h
      → IsSound s id (advance_head s now h.job owner h)
  unfolding advance_head
  advance_head-IsSound configured held placed kind g = rw held (record {
    own = g.own;
    placed = placed;
    pass = ((pass_at s h.job kind g.pass).0, configured.head_every);
    index = g.index;
    state =
        still_running none SyncPhase.list h.job.mode h.job.completed_at
          (held-running owner h.job held g.state);
    phase = (refl, refl);
    mode = g.mode;
  })

  continue_backfill-IsSound :
      is_held_by owner h.job ≡ true
      → NextPlaced
      → h.job.pass_kind ≡ PassKind.backfill
      → IsSound s id h
      → IsSound s id (continue_backfill s now h.job owner h)
  unfolding continue_backfill
  continue_backfill-IsSound held placed kind g =
      let initial : h.job.mode ≡ SyncMode.initial_backfill = (pass_at s h.job kind g.pass).0 in
      let running =
        still_running none SyncPhase.list h.job.mode h.job.completed_at
          (held-running owner h.job held g.state) in
      elim (Bool-cases (leb s.head_every_backfill_pages (suc h.job.backfill_pages_since_head))) [
        | inl due ↦ rw held (
            rw due (
              IsSound-audit_if _
                (HistoryEvent.history_provider_page_completed (suc h.job.pages_processed)) _
                (record {
                  own = g.own;
                  placed = placed;
                  pass = (initial, refl);
                  index = g.index;
                  state = running;
                  phase = (refl, refl);
                  mode = g.mode;
                })))
        | inr early ↦ rw held (
            rw early (
              IsSound-audit_if _
                (HistoryEvent.history_provider_page_completed (suc h.job.pages_processed)) _
                (record {
                  own = g.own;
                  placed = placed;
                  pass =
                      subst
                        (λ k.
                          SoundPass s k h.job.mode (suc h.job.backfill_pages_since_head)
                            h.job.incremental_page_token)
                        (sym kind) (initial, ground arith);
                  index = g.index;
                  state = running;
                  phase = (refl, refl);
                  mode = g.mode;
                })))
      ]

  finish_backfill-IsSound :
      is_held_by owner h.job ≡ true
      → NextPlaced
      → IsSound s id h
      → IsSound s id (finish_backfill s now h.job owner h)
  unfolding finish_backfill
  finish_backfill-IsSound held placed g = rw held (record {
    own = g.own;
    placed = placed;
    pass = refl;
    index = g.index;
    state = (refl, refl, refl, refl);
    phase = (refl, refl);
    mode = refl;
  })

  advance_backfill-IsSound :
      is_held_by owner h.job ≡ true
      → NextPlaced
      → h.job.pass_kind ≡ PassKind.backfill
      → IsSound s id h
      → IsSound s id (advance_backfill s now h.job owner h).1
  unfolding advance_backfill
  advance_backfill-IsSound held placed kind g = elim (Bool-cases (has_more s now h.job owner)) [
    | inl more ↦ elim (Bool-cases (is_some (truthy h.job.pending_next_page_token))) [
      | inl token ↦ rw more (rw token (continue_backfill-IsSound held placed kind g))
      | inr missing ↦ rw more (rw missing g)
    ]
    | inr last ↦ rw last (finish_backfill-IsSound held placed g)
  ]

  advance_incremental-IsSound :
      HasMinima s
      → is_held_by owner h.job ≡ true
      → NextPlaced
      → h.job.pass_kind ≡ PassKind.incremental
      → IsSound s id h
      → IsSound s id (advance_incremental s now h.job owner h)
  unfolding advance_incremental
  advance_incremental-IsSound configured held placed kind g =
      elim (Bool-cases (
        has_more s now h.job owner
        && is_some (truthy h.job.pending_next_page_token)
        && ltb (next_index s now h.job owner) s.incremental_pages)) [
          | inl on ↦ rw on (
              rw held (record {
                own = g.own;
                placed = placed;
                pass =
                    subst
                      (λ k.
                        SoundPass s k h.job.mode h.job.backfill_pages_since_head
                          h.job.pending_next_page_token)
                      (sym kind) (pass_at s h.job kind g.pass);
                index = ground arith;
                state =
                    still_running none SyncPhase.list h.job.mode h.job.completed_at
                      (held-running owner h.job held g.state);
                phase = (refl, refl);
                mode = g.mode;
              }))
          | inr over ↦ rw over (
              rw held (record {
                own = g.own;
                placed = placed;
                pass = pass_at s h.job kind g.pass;
                index = configured.pages;
                state = (refl, refl, pass_at s h.job kind g.pass, refl);
                phase = (refl, refl);
                mode = g.mode;
              }))
        ]

  advance_by-IsSound :
      (k : PassKind)
      → HasMinima s
      → is_held_by owner h.job ≡ true
      → NextPlaced
      → h.job.pass_kind ≡ k
      → IsSound s id h
      → IsSound s id (advance_by s now h.job owner k h).1
  unfolding advance_by
  advance_by-IsSound PassKind.head configured held placed kind g =
      advance_head-IsSound configured held placed kind g
  advance_by-IsSound PassKind.backfill configured held placed kind g =
      advance_backfill-IsSound held placed kind g
  advance_by-IsSound PassKind.incremental configured held placed kind g =
      advance_incremental-IsSound configured held placed kind g

  pub advance_completed_page-IsSound :
      HasMinima s
      → is_held_by owner h.job ≡ true
      → NextPlaced
      → IsSound s id h
      → IsSound s id (advance_completed_page s now h.job owner h).1
  unfolding advance_completed_page
  advance_completed_page-IsSound configured held placed g =
      advance_by-IsSound h.job.pass_kind configured held placed refl g
