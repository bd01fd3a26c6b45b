-- ===== src/History/Reading/Runs.antt =====
-- Every sequence of runs keeps the works' progress, and a page is left only when it is read.
use tiktok_outreach.Prelude.{◌<◌, List}
use mathlib.Core.List.{Memᴰ}
use tiktok_outreach.History.Rows.{Work, History}
use tiktok_outreach.History.Reading.{Answering, IsRead}

-- Every conversation of a page before the current one was read to its end.
abbrev pub PagesRead : Answering → History → Type 0
PagesRead P h =
    (w : Work)
    → Memᴰ w h.works
    → w.page_sequence < h.job.page_sequence
    → IsRead P h.messages w.conversation_id
