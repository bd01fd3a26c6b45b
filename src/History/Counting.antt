-- ===== src/History/Counting.antt =====
-- What the count of imported conversations leaves out.
use tiktok_outreach.Prelude.{
  ℕ, ◌≡◌, refl, sym, subst, inl, inr, Bool, true, false, Option, none, some, arith, any, truthy,
  ltb, List, [], ◌∷◌, ◌||◌, Bool-cases,
}
use tiktok_outreach.Prelude.Tables.{upsert}
use tiktok_outreach.History.Rows.{
  Failure, ApiAnswer, MessagePage, Work, ConversationRow, History, HistoryEvent, Settings,
  is_held_by,
}
use tiktok_outreach.History.Pages.{
  item_of, is_conversation, ensure_conversation, import_messages, store_message_page, audit_if,
}
use tiktok_outreach.History.Runs.{
  Answers, on_answer, unless_thrown, read_messages, fetch_message_page,
}

own_row : (c : ConversationRow) (rest f : Bool) → f ≡ true → (f || rest) ≡ true
own_row c rest f h = rw h refl

-- After an upsert the row is there.
upserted_there :
    (id : ℕ) (f : ConversationRow → ConversationRow) (new : ConversationRow)
    → ((c : ConversationRow) → (f c).id ≡ c.id)
    → new.id ≡ id
    → (cs : List ConversationRow)
    → any (is_conversation id) (upsert (is_conversation id) f new cs) ≡ true
upserted_there id f new same own [] = ground arith
upserted_there id f new same own (c ∷ cs) = elim (Bool-cases (is_conversation id c)) [
  | inl e ↦ rw e (rw (same c) (rw e refl))
  | inr e ↦ rw e (rw e (upserted_there id f new same own cs))
]

ensured_there :
    (now creator : ℕ) (w : Work) (h : History)
    → any
        (is_conversation w.conversation_id)
        (ensure_conversation now creator (item_of w) h).1.conversations
      ≡ true
unfolding ensure_conversation
ensured_there now creator w h =
    upserted_there w.conversation_id _ _ (λ c. refl) refl h.conversations

kept_by_audit :
    (n : ℕ) (b : Bool) (e : HistoryEvent) (t : History)
    → t.job.conversations_imported ≡ n
    → (audit_if b e t).job.conversations_imported ≡ n
kept_by_audit n true e t g = g
kept_by_audit n false e t g = g

module _ (s : Settings) (a : Answers) (owner : ℕ) where
  store_kept :
      (w : Work) (page : MessagePage) (h : History)
      → (store_message_page s a.answered_at owner false w page h).job.conversations_imported
        ≡ h.job.conversations_imported
  unfolding store_message_page
  store_kept w page h = elim (Bool-cases (is_held_by owner h.job)) [
    | inl held ↦ rw held (
        kept_by_audit h.job.conversations_imported
          (ltb 0 (import_messages w.conversation_id page.items h.messages).0) _ _ (omega arith))
    | inr lost ↦ rw lost (
        kept_by_audit h.job.conversations_imported
          (ltb 0 (import_messages w.conversation_id page.items h.messages).0) _ _ refl)
  ]

  unless_thrown_kept :
      (o : Option Failure) (h t : History)
      → t.job.conversations_imported ≡ h.job.conversations_imported
      → (unless_thrown h o t).1.job.conversations_imported ≡ h.job.conversations_imported
  unless_thrown_kept (some f) h t g = refl
  unless_thrown_kept none h t g = g

  on_answer_kept {ℓ} :
      {A : Type ℓ} (o : ApiAnswer A) (h : History) (k : A → Option Failure × History)
      → ((x : A) → (k x).1.job.conversations_imported ≡ h.job.conversations_imported)
      → (on_answer h o k).1.job.conversations_imported ≡ h.job.conversations_imported
  on_answer_kept (ApiAnswer.thrown f) h k rest = refl
  on_answer_kept (ApiAnswer.answered x) h k rest = rest x

  read_kept :
      (creator : ℕ) (w : Work) (h : History)
      → (read_messages s a owner false creator w h).1.job.conversations_imported
        ≡ h.job.conversations_imported
  unfolding read_messages
  read_kept creator w h =
      on_answer_kept (a.messages w.conversation_id (truthy w.message_page_token)) h _
        (λ page. unless_thrown_kept (a.not_rebuilt creator) h _ (store_kept w page h))

  -- A conversation that is there is not counted.
  known_kept :
      (w : Work) (h : History)
      → any (is_conversation w.conversation_id) h.conversations ≡ true
      → (fetch_message_page s a owner w h).1.job.conversations_imported
        ≡ h.job.conversations_imported
  unfolding fetch_message_page ensure_conversation
  known_kept w h there = on_answer_kept (a.creator_of (item_of w)) h _ (λ creator.
      rw there (read_kept creator w (ensure_conversation a.synced_at creator (item_of w) h).1))

  failed_there :
      (w : Work) (h : History) (creator : ℕ) (f : Failure)
      → a.creator_of (item_of w) ≡ ApiAnswer.answered creator
      → a.messages w.conversation_id (truthy w.message_page_token) ≡ ApiAnswer.thrown f
      → (fetch_message_page s a owner w h
          ≡ (some f, (ensure_conversation a.synced_at creator (item_of w) h).1))
  unfolding fetch_message_page read_messages ensure_conversation
  failed_there w h creator f known failing = rw known (rw failing refl)

ensured_count :
    (now creator : ℕ) (w : Work) (h : History)
    → (ensure_conversation now creator (item_of w) h).1.job.conversations_imported
      ≡ h.job.conversations_imported
unfolding ensure_conversation
ensured_count now creator w h = refl

-- What a failed first attempt leaves.
pub record Uncounted (s : Settings) (w : Work) (h t : History) : Type 0 where
  pub there : any (is_conversation w.conversation_id) t.conversations ≡ true
  pub same_count : t.job.conversations_imported ≡ h.job.conversations_imported
  pub never_counted :
      (b : Answers) (owner : ℕ) (u : History)
      → u.conversations ≡ t.conversations
      → (fetch_message_page s b owner w u).1.job.conversations_imported
        ≡ u.job.conversations_imported

-- Where the provider refuses the first page of a conversation's messages (a throttle, a locally paced
-- call or any other error), the conversation is in the table all the same, the job has not counted
-- it as imported, and no later run that reads its messages from this table counts it, whatever the
-- provider then answers.
pub fetch_message_page-Uncounted :
    (s : Settings) (a : Answers) (owner : ℕ) (w : Work) (h : History) (creator : ℕ) (f : Failure)
    → a.creator_of (item_of w) ≡ ApiAnswer.answered creator
    → a.messages w.conversation_id (truthy w.message_page_token) ≡ ApiAnswer.thrown f
    → Uncounted s w h (fetch_message_page s a owner w h).1
fetch_message_page-Uncounted s a owner w h creator f known failing =
    subst (λ r. Uncounted s w h r.1) (sym (failed_there s a owner w h creator f known failing))
      (record {
        there = ensured_there a.synced_at creator w h;
        same_count = ensured_count a.synced_at creator w h;
        never_counted = λ b o u e. known_kept s b o w u (
            subst (λ cs. any (is_conversation w.conversation_id) cs ≡ true) (sym e)
              (ensured_there a.synced_at creator w h));
      })
