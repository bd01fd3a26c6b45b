-- ===== src/History/Reading/Works.antt =====
-- What a page of conversations, a page of messages and a recovery leave of the works' progress.
use tiktok_outreach.Prelude.{
  ℕ, ◌≡◌, ◌≢◌, refl, sym, ap, subst, inl, inr, Bool, true, false, List, [], ◌∷◌, arith, truthy,
  select, All, All-mem, All-select, Distinct, Distinct-select, same_key, Bool-cases, if◌then◌else◌,
}
use mathlib.Core.List.{Memᴰ}
use tiktok_outreach.Prelude.Tables.{when, update_where, upsert, All-upsert, Distinct-update_where}
use tiktok_outreach.History.Rows.{
  Item, Message, MessagePage, MessageRow, Work, is_work, is_complete_work,
}
use tiktok_outreach.History.Pages.{import_messages, page_read, new_work, stage}
use tiktok_outreach.History.Imports.{import_keeps, IsImported, import-IsImported}
use tiktok_outreach.History.Reading.{
  Answering, ReadTo, Kept, Tracks, work_key, grow_at, grow_to, open_to, page_read-Kept,
}

module _ (P : Answering) where
  -- The store of a page of messages: the works of other conversations keep what they tell.
  pub store-Tracks :
      (now imported : ℕ) (page : MessagePage) (w : Work) (rows : List MessageRow) (ws : List Work)
      → Memᴰ w ws
      → is_complete_work w ≡ false
      → P w.conversation_id (truthy w.message_page_token) page
      → Tracks P rows ws
      → Tracks P (import_messages w.conversation_id page.items rows).1 (
          update_where (is_work w.page_sequence w.conversation_id) (page_read now page imported) ws)
  store-Tracks now imported page w rows ws m shut asked (kept, distinct) =
      let rows' = (import_messages w.conversation_id page.items rows).1 in
      let hit = is_work w.page_sequence w.conversation_id in
      let read = page_read now page imported in
      let more : (k : Message) → IsImported rows k → IsImported rows' k =
        λ k. import_keeps w.conversation_id k.id page.items rows in
      let each : (v : Work) → Memᴰ v ws → Kept P rows v → Kept P rows' (when hit read v) = λ v n g.
        elim (Bool-cases (hit v)) [
          | inl e ↦
              let same : w ≡ v = same_key work_key ws w v distinct m n (hit_key v e) in
              rw e (
                subst (λ x. Kept P rows' (read x)) same
                  (page_read-Kept P now imported page rows' w shut asked
                    (import-IsImported w.conversation_id page.items rows)
                    (grow_to P rows rows' w.conversation_id more w.message_page_token (
                      open_to P rows w.conversation_id w.state w.message_page_token shut
                        (All-mem (Kept P rows) w ws kept m)))))
          | inr e ↦
              rw e (grow_at P rows rows' v.conversation_id v.state v.message_page_token more g)
        ] in
      (
        updated hit read rows rows' ws ws each (λ v n. n) kept,
        Distinct-update_where work_key hit read ws (same_keys hit read ws (λ v. refl)) distinct,
      )
    where
      hit_key :
          (v : Work) → is_work w.page_sequence w.conversation_id v ≡ true → work_key w ≡ work_key v
      hit_key v e =
          let sequence : w.page_sequence ≡ v.page_sequence = ground arith in
          let conversation : w.conversation_id ≡ v.conversation_id = ground arith in cc

      updated :
          (p : Work → Bool) (f : Work → Work) (rows rows' : List MessageRow) (all ws : List Work)
          → ((v : Work) → Memᴰ v all → Kept P rows v → Kept P rows' (when p f v))
          → ((v : Work) → Memᴰ v ws → Memᴰ v all)
          → All (Kept P rows) ws
          → All (Kept P rows') (update_where p f ws)
      updated p f rows rows' all [] h sub kept = tt
      updated p f rows rows' all (v ∷ vs) h sub kept = (
        h v (sub v (Memᴰ.head refl)) kept.0,
        updated p f rows rows' all vs h (λ x n. sub x (Memᴰ.tail n)) kept.1,
      )

      same_keys :
          (p : Work → Bool) (f : Work → Work) (ws : List Work)
          → ((v : Work) → work_key (f v) ≡ work_key v)
          → All (λ v. work_key (when p f v) ≡ work_key v) ws
      same_keys p f [] h = tt
      same_keys p f (v ∷ vs) h = (one (p v), same_keys p f vs h)
        where
          one : (b : Bool) → work_key (if b then f v else v) ≡ work_key v
          one true = h v
          one false = refl

  -- The works of a page that is listed: those that are new are unread.
  pub stage-Tracks :
      (n : ℕ) (items : List Item) (rows : List MessageRow) (ws : List Work)
      → Tracks P rows ws
      → Tracks P rows (stage n items ws)
  unfolding stage
  stage-Tracks n [] rows ws h = h
  stage-Tracks n (item ∷ items) rows ws h = stage-Tracks n items rows _ (
    All-upsert (Kept P rows) (is_work n item.id) (λ w. w) (new_work n item) ReadTo.start (λ w g. g)
        ws h.0,
    upsert_distinct n item ws h.1,
  )
    where
      apart :
          (n : ℕ) (item : Item) (key : ℕ × ℕ) (ws : List Work)
          → key ≢ (n, item.id)
          → All (λ v. work_key v ≢ key) ws
          → All (λ v. work_key v ≢ key) (upsert (is_work n item.id) (λ w. w) (new_work n item) ws)
      apart n item key [] ne h = ((λ e. ne (sym e)), tt)
      apart n item key (w ∷ ws) ne h = elim (Bool-cases (is_work n item.id w)) [
        | inl e ↦ rw e h
        | inr e ↦ rw e (h.0, apart n item key ws ne h.1)
      ]

      upsert_distinct :
          (n : ℕ) (item : Item) (ws : List Work)
          → Distinct work_key ws
          → Distinct work_key (upsert (is_work n item.id) (λ w. w) (new_work n item) ws)
      upsert_distinct n item [] h = (tt, tt)
      upsert_distinct n item (w ∷ ws) h = elim (Bool-cases (is_work n item.id w)) [
        | inl e ↦ rw e h
        | inr e ↦
            rw e
              (apart n item (work_key w) ws (λ k. other w e k) h.0, upsert_distinct n item ws h.1)
      ]
        where
          other : (w : Work) → is_work n item.id w ≡ false → work_key w ≡ (n, item.id) → ⊥
          other w e k =
              let sequence : w.page_sequence ≡ n = ap (λ x. x.0) k in
              let conversation : w.conversation_id ≡ item.id = ap (λ x. x.1) k in ground arith

  pub drop-Tracks :
      (p : Work → Bool) (rows : List MessageRow) (ws : List Work)
      → Tracks P rows ws
      → Tracks P rows (select p ws)
  drop-Tracks p rows ws h = (All-select (Kept P rows) p ws h.0, Distinct-select work_key p ws h.1)
