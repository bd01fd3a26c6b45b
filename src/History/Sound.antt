-- ===== src/History/Sound.antt =====
-- What holds of a shop's synchronisation between two runs.
use tiktok_outreach.Prelude.{
  ℕ, suc, String, ◌<◌, ◌≡◌, refl, ◌⊎◌, inl, inr, Bool, true, false, List, [], ◌∷◌, Option, none,
  some, arith, is_some, All, All-imp, Bool-cases, find,
}
use tiktok_outreach.History.Rows.{
  SyncState, SyncMode, PassKind, SyncPhase, WorkState, Work, History, Settings, is_complete_work,
}
use tiktok_outreach.History.Runs.{is_open_work}

-- A work belongs to an earlier page, and is complete, or to the page whose messages are being read.
abbrev pub Placed : ℕ → SyncPhase → Work → Type 0
Placed sequence phase w =
    (w.page_sequence < sequence × (w.state ≡ WorkState.complete))
    ⊎ ((w.page_sequence ≡ sequence) × (phase ≡ SyncPhase.messages))

-- The pass: backfill and head passes only before the history is complete.
abbrev pub SoundPass : Settings → PassKind → SyncMode → ℕ → Option String → Type 0
SoundPass s PassKind.backfill mode since_head token =
    (mode ≡ SyncMode.initial_backfill) × since_head < s.head_every_backfill_pages
SoundPass s PassKind.head mode since_head token =
    (mode ≡ SyncMode.initial_backfill) × (token ≡ none)
SoundPass s PassKind.incremental mode since_head token = mode ≡ SyncMode.incremental

-- Only a running job is leased; a complete one has no page open and a complete history.
abbrev pub SoundState : SyncState → Option ℕ → SyncPhase → SyncMode → Option ℕ → Type 0
SoundState SyncState.running owner phase mode completed = Unit
SoundState SyncState.complete owner phase mode completed =
    (owner ≡ none)
    × (phase ≡ SyncPhase.list)
    × (mode ≡ SyncMode.incremental)
    × (is_some completed ≡ true)
SoundState _ owner phase mode completed = owner ≡ none

abbrev pub SoundPhase : SyncPhase → Option Bool → Option String → Type 0
SoundPhase SyncPhase.list more token = (more ≡ none) × (token ≡ none)
SoundPhase SyncPhase.messages more token = is_some more ≡ true

abbrev pub SoundMode : SyncMode → Option ℕ → Type 0
SoundMode SyncMode.initial_backfill completed = Unit
SoundMode SyncMode.incremental completed = is_some completed ≡ true

pub record IsSound (s : Settings) (id : ℕ) (h : History) : Type 0 where
  pub own : h.job.id ≡ id
  pub placed : All (Placed h.job.page_sequence h.job.phase) h.works
  pub pass :
      SoundPass s h.job.pass_kind h.job.mode h.job.backfill_pages_since_head
        h.job.incremental_page_token
  pub index : h.job.incremental_page_index < s.incremental_pages
  pub state : SoundState h.job.state h.job.lease_owner h.job.phase h.job.mode h.job.completed_at
  pub phase : SoundPhase h.job.phase h.job.pending_has_more h.job.pending_next_page_token
  pub mode : SoundMode h.job.mode h.job.initial_completed_at

-- The configuration's minima.
pub record HasMinima (s : Settings) : Type 0 where
  pub pages : 0 < s.incremental_pages
  pub head_every : 0 < s.head_every_backfill_pages

pub SoundState-leased :
    (state : SyncState) (owner : ℕ) (phase : SyncPhase) (mode : SyncMode) (completed : Option ℕ)
    → SoundState state (some owner) phase mode completed
    → state ≡ SyncState.running
SoundState-leased SyncState.running owner phase mode completed h = refl
SoundState-leased SyncState.queued owner phase mode completed h = cc
SoundState-leased SyncState.backing_off owner phase mode completed h = cc
SoundState-leased SyncState.paused owner phase mode completed h = cc
SoundState-leased SyncState.complete owner phase mode completed h = ground arith
SoundState-leased SyncState.failed owner phase mode completed h = cc

-- A page that is open may hold works; those of earlier pages stay.
pub Placed-reading :
    (n : ℕ) (p : SyncPhase) (ws : List Work)
    → All (Placed n p) ws
    → All (Placed n SyncPhase.messages) ws
Placed-reading n p ws h =
    All-imp (Placed n p) (Placed n SyncPhase.messages)
      (λ w q. elim q [ inl earlier ↦ inl earlier | inr here ↦ inr (here.0, refl) ]) ws h

is_complete_state : (w : Work) → is_complete_work w ≡ true → w.state ≡ WorkState.complete
is_complete_state w h = ground arith

Placed-closed :
    (n : ℕ) (p q : SyncPhase) (w : Work)
    → Placed n p w
    → is_open_work n w ≡ false
    → Placed (suc n) q w
Placed-closed n p q w (inl (lt, e)) shut = inl (omega arith, e)
Placed-closed n p q w (inr (e, r)) shut = elim (Bool-cases (is_complete_work w)) [
  | inl c ↦ inl (omega arith, is_complete_state w c)
  | inr c ↦ ground arith
]

-- Where no work of the page is open, the next page may begin.
pub Placed-next :
    (n : ℕ) (p q : SyncPhase) (ws : List Work)
    → find (is_open_work n) ws ≡ none
    → All (Placed n p) ws
    → All (Placed (suc n) q) ws
Placed-next n p q [] none_open h = tt
Placed-next n p q (w ∷ ws) none_open h = elim (Bool-cases (is_open_work n w)) [
  | inl e ↦ ground arith
  | inr e ↦ (Placed-closed n p q w h.0 e, Placed-next n p q ws (ground arith) h.1)
]
