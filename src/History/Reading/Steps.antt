-- ===== src/History/Reading/Steps.antt =====
-- What the steps of a run leave of the works' progress.
use tiktok_outreach.Prelude.{
  ℕ, ◌≡◌, refl, inl, inr, String, Bool, true, false, List, [], ◌∷◌, Option, none, some, arith, ltb,
  truthy, is_some, find, ◌&&◌, Bool-cases,
}
use mathlib.Core.List.{Memᴰ}
use tiktok_outreach.History.Rows.{
  PassKind, Failure, ApiAnswer, MessagePage, Work, Job, History, HistoryEvent, Settings,
  is_complete_work, is_held_by,
}
use tiktok_outreach.History.Pages.{
  audit_if, item_of, ensure_conversation, import_messages, store_message_page, has_more, advance_by,
  advance_head, advance_backfill, advance_incremental, continue_backfill, finish_backfill,
  next_index,
}
use tiktok_outreach.History.Errors.{
  handle_error, handle_failure, recover_cursor, back_off, fail_job, is_cursor_invalid,
  is_temporary_kind,
}
use tiktok_outreach.History.Runs.{
  Answers, is_open_work, on_answer, unless_thrown, read_messages, fetch_message_page,
}
use tiktok_outreach.History.Reading.{Answering, Tracks}
use tiktok_outreach.History.Reading.Works.{store-Tracks, drop-Tracks}

-- Each page of messages that the run is given is one of the provider's answers.
abbrev pub Asks : Answering → Answers → Type 0
Asks P a =
    (c : ℕ) (token : Option String) (page : MessagePage)
    → a.messages c token ≡ ApiAnswer.answered page
    → P c token page

abbrev pub TracksShop : Answering → History → Type 0
TracksShop P h = Tracks P h.messages h.works

pub open_incomplete : (n : ℕ) (w : Work) → is_open_work n w ≡ true → is_complete_work w ≡ false
open_incomplete n w e = ground arith

pub find_there : (p : Work → Bool) (ws : List Work) (w : Work) → find p ws ≡ some w → Memᴰ w ws
find_there p [] w e = cc
find_there p (v ∷ vs) w e = elim (Bool-cases (p v)) [
  | inl g ↦ Memᴰ.head (ground arith)
  | inr g ↦ Memᴰ.tail (find_there p vs w (ground arith))
]

module _ (P : Answering) where
  pub audit-Tracks :
      (b : Bool) (e : HistoryEvent) (h : History) → TracksShop P h → TracksShop P (audit_if b e h)
  audit-Tracks true e h g = g
  audit-Tracks false e h g = g

  pub handle_error-Tracks :
      (now owner : ℕ) (f : Failure) (h : History)
      → TracksShop P h
      → TracksShop P (handle_error now owner f h)
  unfolding handle_error handle_failure recover_cursor back_off fail_job
  handle_error-Tracks now owner f h g = elim (Bool-cases (is_held_by owner h.job)) [
    | inl e ↦ rw e (failure f)
    | inr e ↦ rw e g
  ]
    where
      failure : (f : Failure) → TracksShop P (handle_failure now f h)
      failure Failure.other = g
      failure (Failure.api x) = elim (Bool-cases (is_cursor_invalid h.job x)) [
        | inl e ↦ rw e (drop-Tracks P _ h.messages h.works g)
        | inr e ↦ elim (Bool-cases (is_temporary_kind x.kind)) [
          | inl k ↦ rw e (rw k g)
          | inr k ↦ rw e (rw k g)
        ]
      ]

  module _ (s : Settings) (now : ℕ) (snapshot : Job) (owner : ℕ) (h : History) where
    backfill-Tracks : TracksShop P h → TracksShop P (advance_backfill s now snapshot owner h).1
    unfolding advance_backfill continue_backfill finish_backfill
    backfill-Tracks g = elim (Bool-cases (has_more s now snapshot owner)) [
      | inl more ↦ elim (Bool-cases (is_some (truthy snapshot.pending_next_page_token))) [
        | inl token ↦ rw more (rw token (audit-Tracks _ _ _ g))
        | inr missing ↦ rw more (rw missing g)
      ]
      | inr last ↦ rw last g
    ]

    incremental-Tracks : TracksShop P h → TracksShop P (advance_incremental s now snapshot owner h)
    unfolding advance_incremental
    incremental-Tracks g =
        elim (Bool-cases (
          has_more s now snapshot owner
          && is_some (truthy snapshot.pending_next_page_token)
          && ltb (next_index s now snapshot owner) s.incremental_pages)) [
            | inl on ↦ rw on g
            | inr off ↦ rw off g
          ]

    pub advance-Tracks :
        (k : PassKind) → TracksShop P h → TracksShop P (advance_by s now snapshot owner k h).1
    unfolding advance_by advance_head
    advance-Tracks PassKind.head g = g
    advance-Tracks PassKind.backfill g = backfill-Tracks g
    advance-Tracks PassKind.incremental g = incremental-Tracks g

  module _ (s : Settings) (a : Answers) (owner : ℕ) (asks : Asks P a) where
    messages-Tracks :
        (b : Bool) (creator : ℕ) (w : Work) (h : History)
        → Memᴰ w h.works
        → is_complete_work w ≡ false
        → TracksShop P h
        → TracksShop P (read_messages s a owner b creator w h).1
    unfolding read_messages store_message_page
    messages-Tracks b creator w h m shut g =
        given (a.messages w.conversation_id (truthy w.message_page_token)) refl
      where
        rolled :
            (o : Option Failure) (t : History)
            → TracksShop P t
            → TracksShop P (unless_thrown h o t).1
        rolled (some f) t k = g
        rolled none t k = k

        given :
            (o : ApiAnswer MessagePage)
            → a.messages w.conversation_id (truthy w.message_page_token) ≡ o
            → TracksShop P
                (on_answer h o (λ page.
                  unless_thrown h
                    (a.not_rebuilt creator)
                    (store_message_page s a.answered_at owner b w page h))).1
        given (ApiAnswer.thrown f) e = g
        given (ApiAnswer.answered page) e =
            rolled (a.not_rebuilt creator) (store_message_page s a.answered_at owner b w page h) (
              audit-Tracks _ _ _ (
                store-Tracks P a.answered_at
                  (import_messages w.conversation_id page.items h.messages).0 page w h.messages
                  h.works m shut (asks w.conversation_id (truthy w.message_page_token) page e) g))

    pub fetch-Tracks :
        (w : Work) (h : History)
        → Memᴰ w h.works
        → is_complete_work w ≡ false
        → TracksShop P h
        → TracksShop P (fetch_message_page s a owner w h).1
    unfolding fetch_message_page ensure_conversation
    fetch-Tracks w h m shut g = given (a.creator_of (item_of w))
      where
        given :
            (o : ApiAnswer ℕ)
            → TracksShop P
                (on_answer h o (λ creator.
                  let (imported, t) = ensure_conversation a.synced_at creator (item_of w) h in
                  read_messages s a owner imported creator w t)).1
        given (ApiAnswer.thrown f) = g
        given (ApiAnswer.answered creator) =
            messages-Tracks _ creator w (ensure_conversation a.synced_at creator (item_of w) h).1 m
              shut g
