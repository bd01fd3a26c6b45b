-- ===== src/History/Staging.antt =====
-- What a page of conversations leaves to be read.
use tiktok_outreach.Prelude.{
  ℕ, ◌≡◌, ◌⊎◌, refl, sym, ap, ◌∙◌, subst, inl, inr, true, false, ◌&&◌, List, [], ◌∷◌, none, some,
  some_inj, arith, ◌==◌, is_some, find, All, All-imp, Bool-cases, Option-cases,
}
use tiktok_outreach.Prelude.Tables.{upsert, find-upsert_self}
use tiktok_outreach.History.Rows.{
  WorkState, SyncPhase, Item, ConversationPage, Job, Work, History, Settings, is_work, is_held_by,
}
use tiktok_outreach.History.Pages.{new_work, stage, fetch_conversation_page}

same_work :
    (n k : ℕ) (i : ℕ) (w : Work)
    → is_work n i w ≡ true
    → (n == n && i == k) ≡ false
    → is_work n k w ≡ false
same_work n k i w own off = ground arith

own_work : (n i : ℕ) → (n == n && i == i) ≡ true
own_work n i = ground arith

-- An upsert that updates nothing keeps what is found.
upsert_keeps :
    (m n k : ℕ) (item : Item) (ws : List Work) (w : Work)
    → find (is_work m k) ws ≡ some w
    → find (is_work m k) (upsert (is_work n item.id) (λ x. x) (new_work n item) ws) ≡ some w
upsert_keeps m n k item [] w e = cc
upsert_keeps m n k item (x ∷ xs) w e = elim (Bool-cases (is_work n item.id x)) [
  | inl own ↦ rw own e
  | inr off ↦ elim (Bool-cases (is_work m k x)) [
    | inl here ↦ ground arith
    | inr later ↦ rw off (rw later (upsert_keeps m n k item xs w (ground arith)))
  ]
]

stage_keeps :
    (m n k : ℕ) (items : List Item) (ws : List Work) (w : Work)
    → find (is_work m k) ws ≡ some w
    → find (is_work m k) (stage n items ws) ≡ some w
unfolding stage
stage_keeps m n k [] ws w e = e
stage_keeps m n k (i ∷ is) ws w e = stage_keeps m n k is _ w (upsert_keeps m n k i ws w e)

-- Nothing has been read of a work's conversation.
abbrev pub Unread : Work → Type 0
Unread w = (w.state ≡ WorkState.queued) × (w.message_page_token ≡ none) × (w.messages_imported ≡ 0)

-- What is found is what was found before, or is unread.
abbrev Fresh : List Work → List Work → Type 0
Fresh before ws =
    (m k : ℕ) (w : Work)
    → find (is_work m k) ws ≡ some w
    → (find (is_work m k) before ≡ some w) ⊎ Unread w

upsert-Unread :
    (m n k : ℕ) (item : Item) (ws : List Work) (w : Work)
    → find (is_work m k) ws ≡ none
    → find (is_work m k) (upsert (is_work n item.id) (λ x. x) (new_work n item) ws) ≡ some w
    → Unread w
upsert-Unread m n k item [] w absent e = elim (Bool-cases (is_work m k (new_work n item))) [
  | inl own ↦
      let same : some (new_work n item) ≡ some w = ground arith in
      subst Unread (some_inj same) (refl, refl, refl)
  | inr off ↦ ground arith
]
upsert-Unread m n k item (x ∷ xs) w absent e = elim (Bool-cases (is_work m k x)) [
  | inl here ↦ ground arith
  | inr later ↦ elim (Bool-cases (is_work n item.id x)) [
    | inl own ↦ ground arith
    | inr off ↦ upsert-Unread m n k item xs w (ground arith) (ground arith)
  ]
]

upsert-Fresh :
    (before : List Work) (n : ℕ) (item : Item) (ws : List Work)
    → Fresh before ws
    → Fresh before (upsert (is_work n item.id) (λ x. x) (new_work n item) ws)
upsert-Fresh before n item ws h = λ m k w e. elim (Option-cases (find (is_work m k) ws)) [
  | inl absent ↦ inr (upsert-Unread m n k item ws w absent e)
  | inr (v, found) ↦
      let same : v ≡ w = some_inj (sym (upsert_keeps m n k item ws v found) ∙ e) in
      h m k w (subst (λ x. find (is_work m k) ws ≡ some x) same found)
]

stage-Fresh :
    (before : List Work) (n : ℕ) (items : List Item) (ws : List Work)
    → Fresh before ws
    → Fresh before (stage n items ws)
unfolding stage
stage-Fresh before n [] ws h = h
stage-Fresh before n (i ∷ is) ws h = stage-Fresh before n is _ (upsert-Fresh before n i ws h)

abbrev IsFound : ℕ → List Work → Item → Type 0
IsFound n ws i = is_some (find (is_work n i.id) ws) ≡ true

find-IsFound :
    (n : ℕ) (items : List Item) (i : Item) (ws : List Work) (w : Work)
    → find (is_work n i.id) ws ≡ some w
    → IsFound n (stage n items ws) i
find-IsFound n items i ws w e = ap is_some (stage_keeps n n i.id items ws w e)

stage-IsFound :
    (n : ℕ) (items : List Item) (ws : List Work) → All (IsFound n (stage n items ws)) items
unfolding stage
stage-IsFound n [] ws = tt
stage-IsFound n (i ∷ is) ws = (
  find-IsFound n is i (upsert (is_work n i.id) (λ w. w) (new_work n i) ws) _
      (find-upsert_self (is_work n i.id) (λ w. w) (new_work n i) (own_work n i.id) (λ w. refl) ws),
  stage-IsFound n is _,
)

-- A conversation of the page has its work: the one that was there, or one of which nothing has been
-- read.
abbrev pub IsStaged : ℕ → List Work → List Work → Item → Type 0
IsStaged n before ws i =
    (w : Work) × (find (is_work n i.id) ws ≡ some w)
    × ((find (is_work n i.id) before ≡ some w) ⊎ Unread w)

found-IsStaged :
    (n : ℕ) (before ws : List Work) (i : Item)
    → Fresh before ws
    → IsFound n ws i
    → IsStaged n before ws i
found-IsStaged n before ws i fresh h = elim (Option-cases (find (is_work n i.id) ws)) [
  | inl e ↦ ground arith
  | inr (w, e) ↦ (w, e, fresh n i.id w e)
]

-- After a page of conversations.
pub record StagesPage (items : List Item) (n : ℕ) (h t : History) : Type 0 where
  pub phase : t.job.phase ≡ SyncPhase.messages
  pub staged : All (IsStaged n h.works t.works) items
  pub kept :
      (m k : ℕ) (w : Work)
      → find (is_work m k) h.works ≡ some w
      → find (is_work m k) t.works ≡ some w

-- A page of conversations that the lease's holder has fetched leaves a work of the page for each of
-- its conversations: the one that was there, as it was, or one that is QUEUED, of whose messages none
-- has been read. No work that was there changes, so a page which is fetched again loses no progress.
pub fetch_conversation_page-StagesPage :
    (s : Settings) (now : ℕ) (snapshot : Job) (owner : ℕ) (page : ConversationPage) (h : History)
    → is_held_by owner h.job ≡ true
    → StagesPage page.items snapshot.page_sequence h
        (fetch_conversation_page s now snapshot owner page h)
unfolding fetch_conversation_page
fetch_conversation_page-StagesPage s now snapshot owner page h held =
    let n = snapshot.page_sequence in
    let fresh = stage-Fresh h.works n page.items h.works (λ m k w e. inl e) in
    rw held (record {
      phase = refl;
      staged =
          All-imp (IsFound n (stage n page.items h.works))
            (IsStaged n h.works (stage n page.items h.works))
            (λ i g. found-IsStaged n h.works (stage n page.items h.works) i fresh g) page.items
            (stage-IsFound n page.items h.works);
      kept = λ m k w e. stage_keeps m n k page.items h.works w e;
    })
