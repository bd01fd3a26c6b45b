-- ===== src/History/Imports.antt =====
-- What a page of messages inserts.
use tiktok_outreach.Prelude.{
  ℕ, ◌+◌, ◌≡◌, ◌≢◌, refl, sym, ◌∙◌, subst, inl, inr, Bool, true, false, ◌||◌, List, [], ◌∷◌, ◌++◌,
  arith, any, length, length-append, All, All-append, Distinct, Bool-cases,
}
use tiktok_outreach.History.Rows.{Message, MessageRow}
use tiktok_outreach.History.Pages.{is_message, import_messages}

abbrev row : ℕ → Message → MessageRow
row conversation m = record { conversation_id = conversation; message = m }

any-append :
    (p : MessageRow → Bool) (xs ys : List MessageRow) → any p (xs ++ ys) ≡ (any p xs || any p ys)
any-append p [] ys = refl
any-append p (x ∷ xs) ys = ground (arith, any-append p xs ys)

-- A message that is there stays there.
pub import_keeps :
    (c k : ℕ) (ms : List Message) (rows : List MessageRow)
    → any (is_message k) rows ≡ true
    → any (is_message k) (import_messages c ms rows).1 ≡ true
unfolding import_messages
import_keeps c k [] rows h = h
import_keeps c k (m ∷ ms) rows h = elim (Bool-cases (any (is_message m.id) rows)) [
  | inl e ↦ rw e (import_keeps c k ms rows h)
  | inr e ↦ rw e (
      import_keeps c k ms (rows ++ (row c m ∷ []))
        (any-append (is_message k) rows (row c m ∷ []) ∙ rw h refl))
]

abbrev pub IsImported : List MessageRow → Message → Type 0
IsImported rows m = any (is_message m.id) rows ≡ true

appended :
    (c : ℕ) (m : Message) (rows : List MessageRow)
    → any (is_message m.id) (rows ++ (row c m ∷ [])) ≡ true
appended c m rows = ground (arith, any-append (is_message m.id) rows (row c m ∷ []))

import_present :
    (c : ℕ) (m : Message) (ms : List Message) (rows : List MessageRow)
    → any (is_message m.id) rows ≡ true
    → import_messages c ms rows ≡ import_messages c (m ∷ ms) rows
unfolding import_messages
import_present c m ms rows e = rw e refl

import_absent :
    (c : ℕ) (m : Message) (ms : List Message) (rows : List MessageRow)
    → any (is_message m.id) rows ≡ false
    → (import_messages c ms (rows ++ (row c m ∷ []))).1 ≡ (import_messages c (m ∷ ms) rows).1
unfolding import_messages
import_absent c m ms rows e = rw e refl

pub import-IsImported :
    (c : ℕ) (ms : List Message) (rows : List MessageRow)
    → All (IsImported (import_messages c ms rows).1) ms
unfolding import_messages
import-IsImported c [] rows = tt
import-IsImported c (m ∷ ms) rows = elim (Bool-cases (any (is_message m.id) rows)) [
  | inl e ↦
      subst (λ r. All (IsImported r.1) (m ∷ ms)) (import_present c m ms rows e)
        (import_keeps c m.id ms rows e, import-IsImported c ms rows)
  | inr e ↦
      let more = rows ++ (row c m ∷ []) in
      subst (λ r. All (IsImported r) (m ∷ ms)) (import_absent c m ms rows e)
        (import_keeps c m.id ms more (appended c m rows), import-IsImported c ms more)
]

-- Where every message is there, nothing is inserted.
import_none :
    (c : ℕ) (ms : List Message) (rows : List MessageRow)
    → All (IsImported rows) ms
    → import_messages c ms rows ≡ (0, rows)
unfolding import_messages
import_none c [] rows h = refl
import_none c (m ∷ ms) rows h = rw h.0 (import_none c ms rows h.1)

import_counts :
    (c : ℕ) (ms : List Message) (rows : List MessageRow)
    → length (import_messages c ms rows).1 ≡ length rows + (import_messages c ms rows).0
unfolding import_messages
import_counts c [] rows = omega arith
import_counts c (m ∷ ms) rows = elim (Bool-cases (any (is_message m.id) rows)) [
  | inl e ↦ rw e (import_counts c ms rows)
  | inr e ↦ rw e (
      omega (arith, import_counts c ms (rows ++ (row c m ∷ [])), length-append rows (row c m ∷ [])))
]

abbrev pub message_key : MessageRow → ℕ
message_key r = r.message.id

absent_apart :
    (k : ℕ) (rows : List MessageRow)
    → any (is_message k) rows ≡ false
    → All (λ r. message_key r ≢ k) rows
absent_apart k [] h = tt
absent_apart k (r ∷ rs) h = (ground arith, absent_apart k rs (ground arith))

Distinct-append_one :
    (rows : List MessageRow) (r : MessageRow)
    → Distinct message_key rows
    → All (λ x. message_key x ≢ message_key r) rows
    → Distinct message_key (rows ++ (r ∷ []))
Distinct-append_one [] r d h = (tt, tt)
Distinct-append_one (x ∷ xs) r d h = (
  All-append (λ y. message_key y ≢ message_key x) xs (r ∷ []) d.0 ((λ e. h.0 (sym e)), tt),
  Distinct-append_one xs r d.1 h.1,
)

import-Distinct :
    (c : ℕ) (ms : List Message) (rows : List MessageRow)
    → Distinct message_key rows
    → Distinct message_key (import_messages c ms rows).1
unfolding import_messages
import-Distinct c [] rows d = d
import-Distinct c (m ∷ ms) rows d = elim (Bool-cases (any (is_message m.id) rows)) [
  | inl e ↦
      subst (λ r. Distinct message_key r.1) (import_present c m ms rows e)
        (import-Distinct c ms rows d)
  | inr e ↦ subst (Distinct message_key) (import_absent c m ms rows e) (
      import-Distinct c ms (rows ++ (row c m ∷ []))
        (Distinct-append_one rows (row c m) d (absent_apart m.id rows e)))
]

-- What an import leaves.
pub record Imports (c : ℕ) (ms : List Message) (rows : List MessageRow) : Type 0 where
  pub there : All (IsImported (import_messages c ms rows).1) ms
  pub counted : length (import_messages c ms rows).1 ≡ length rows + (import_messages c ms rows).0
  pub distinct : Distinct message_key (import_messages c ms rows).1
  pub kept :
      (k : ℕ)
      → any (is_message k) rows ≡ true
      → any (is_message k) (import_messages c ms rows).1 ≡ true
  pub again :
      import_messages c ms (import_messages c ms rows).1 ≡ (0, (import_messages c ms rows).1)

-- An import of a page of messages leaves every message of the page in the table, loses none, never
-- puts one there twice, counts exactly the rows that it has inserted, and a second import of the page
-- inserts nothing.
pub import_messages-Imports :
    (c : ℕ) (ms : List Message) (rows : List MessageRow)
    → Distinct message_key rows
    → Imports c ms rows
import_messages-Imports c ms rows d = record {
  there = import-IsImported c ms rows;
  counted = import_counts c ms rows;
  distinct = import-Distinct c ms rows d;
  kept = λ k h. import_keeps c k ms rows h;
  again = import_none c ms (import_messages c ms rows).1 (import-IsImported c ms rows);
}
