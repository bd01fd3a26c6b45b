-- ===== src/History/Reading.antt =====
-- How far the messages of the conversations are read, by the works and the rows of messages.
pub mod Works
pub mod Steps
pub mod Runs
use tiktok_outreach.Prelude.{
  ℕ, ◌≡◌, ◌≢◌, refl, sym, ap, ◌∙◌, subst, inl, inr, String, Bool, true, false, not, ◌&&◌, List, [],
  ◌∷◌, Option, none, some, arith, ◌==◌, ==_iff, any, truthy, find, select, All, All-imp, All-mem,
  All-select, Distinct, Distinct-select, same_key, Bool-cases, if◌then◌else◌,
}
use mathlib.Core.List.{Memᴰ}
use tiktok_outreach.Prelude.Tables.{when, update_where, upsert, Distinct-update_where}
use tiktok_outreach.History.Rows.{
  WorkState, Item, Message, MessagePage, MessageRow, Work, is_work, is_complete_work,
}
use tiktok_outreach.History.Pages.{is_message, import_messages, page_read, new_work, stage}
use tiktok_outreach.History.Imports.{import_keeps, IsImported, import-IsImported}
use tiktok_outreach.History.Runs.{is_open_work}

-- The provider's answers to requests for a conversation's messages at a cursor.
abbrev pub Answering : Type 1
Answering = ℕ → Option String → MessagePage → Type 0

module _ (P : Answering) (rows : List MessageRow) (conversation : ℕ) where
  -- From the first page on, each page up to the cursor was answered, and its messages are stored.
  pub data ReadTo : Option String → Type 0 where
    start : ReadTo none
    next :
        (token : Option String) (page : MessagePage)
        → ReadTo token
        → P conversation (truthy token) page
        → page.has_more ≡ true
        → All (IsImported rows) page.items
        → ReadTo page.next_page_token

  -- The pages were read up to one that is the last by the provider's answer.
  pub record IsRead : Type 0 where
    pub token : Option String
    pub page : MessagePage
    pub before : ReadTo token
    pub answered : P conversation (truthy token) page
    pub last : page.has_more ≡ false
    pub stored : All (IsImported rows) page.items

  abbrev pub KeptAt : WorkState → Option String → Type 0
  KeptAt WorkState.complete token = IsRead
  KeptAt _ token = ReadTo token

abbrev pub Kept : Answering → List MessageRow → Work → Type 0
Kept P rows w = KeptAt P rows w.conversation_id w.state w.message_page_token

abbrev pub work_key : Work → ℕ × ℕ
work_key w = (w.page_sequence, w.conversation_id)

-- The works tell how far each conversation is read, and a page has one work for a conversation.
abbrev pub Tracks : Answering → List MessageRow → List Work → Type 0
Tracks P rows ws = All (Kept P rows) ws × Distinct work_key ws

module _ (P : Answering) where
  pub grow_to :
      (rows rows' : List MessageRow) (c : ℕ)
      → ((m : Message) → IsImported rows m → IsImported rows' m)
      → (token : Option String) → ReadTo P rows c token
      → ReadTo P rows' c token
  grow_to rows rows' c more token (ReadTo.start) = ReadTo.start
  grow_to rows rows' c more token (ReadTo.next t page before asked has_more stored) =
      ReadTo.next t page (grow_to rows rows' c more t before) asked has_more
        (All-imp (IsImported rows) (IsImported rows') more page.items stored)

  grow_read :
      (rows rows' : List MessageRow) (c : ℕ)
      → ((m : Message) → IsImported rows m → IsImported rows' m)
      → IsRead P rows c
      → IsRead P rows' c
  grow_read rows rows' c more r = record {
    token = r.token;
    page = r.page;
    before = grow_to rows rows' c more r.token r.before;
    answered = r.answered;
    last = r.last;
    stored = All-imp (IsImported rows) (IsImported rows') more r.page.items r.stored;
  }

  pub grow_at :
      (rows rows' : List MessageRow) (c : ℕ) (x : WorkState) (token : Option String)
      → ((m : Message) → IsImported rows m → IsImported rows' m)
      → KeptAt P rows c x token
      → KeptAt P rows' c x token
  grow_at rows rows' c WorkState.complete token more h = grow_read rows rows' c more h
  grow_at rows rows' c WorkState.queued token more h = grow_to rows rows' c more token h
  grow_at rows rows' c WorkState.running token more h = grow_to rows rows' c more token h

  pub open_to :
      (rows : List MessageRow) (c : ℕ) (x : WorkState) (token : Option String)
      → elim x [ WorkState.complete ↦ true | _ ↦ false ] ≡ false
      → KeptAt P rows c x token
      → ReadTo P rows c token
  open_to rows c WorkState.complete token shut h = cc
  open_to rows c WorkState.queued token shut h = h
  open_to rows c WorkState.running token shut h = h

  -- A page of the messages of an open work, once its messages are stored.
  pub page_read-Kept :
      (now imported : ℕ) (page : MessagePage) (rows : List MessageRow) (w : Work)
      → is_complete_work w ≡ false
      → P w.conversation_id (truthy w.message_page_token) page
      → All (IsImported rows) page.items
      → ReadTo P rows w.conversation_id w.message_page_token
      → Kept P rows (page_read now page imported w)
  page_read-Kept now imported page rows w shut asked stored before =
      elim (Bool-cases page.has_more) [
        | inl more ↦ rw more (ReadTo.next w.message_page_token page before asked more stored)
        | inr last ↦ rw last (record {
          token = w.message_page_token;
          page = page;
          before = before;
          answered = asked;
          last = last;
          stored = stored;
        })
      ]
