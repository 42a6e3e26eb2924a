-- ===== src/Notes.antt =====
-- The shared notes of bounded_contexts/notes: who may read one, and who may change it. The table is
-- the list of its rows, in the order of their keys, which the database hands out. Groups and their
-- members are tables too (shared/infrastructure/models), of which one query is used.
pub mod Book
pub mod Access
pub mod Ownership
mod Tests
use fastapitemplate.Common.Lists.{contains, keep, length}
use fastapitemplate.Common.Results.{Result, raised, done, and_then}
use fastapitemplate.Common.Text.{text_length, is_empty, strip}
use fastapitemplate.Common.Table.{update_where, delete_where}
use fastapitemplate.Common.{
  ℕ, String, Bool, true, false, not, ◌&&◌, ◌||◌, Option, none, some, List, [], ◌∷◌, ◌++◌, map, ltb,
  suc, none_or, some_and, nat_eq, option_eq, ◌==◌, if◌then◌else◌,
}

-- domain/value_objects/viewer.py. `group_ids` is a set: only membership is asked.
pub record Viewer : Type 0 where
  pub user_id : ℕ
  pub group_ids : List ℕ

-- The exceptions of domain/exceptions.py.
pub data NoteError : Type 0 where
  note_not_found note_not_owned share_group_not_joined note_validation : NoteError

-- `NoteTitle` and `NoteBody` are the text that they hold, once it is checked.
pub record NoteContent : Type 0 where
  pub title : String
  pub body : String
  pub shared_group_id : Option ℕ

pub record Note : Type 0 where
  pub id : ℕ
  pub owner_user_id : ℕ
  pub content : NoteContent

abbrev pub title_max_length : ℕ
title_max_length = 100

abbrev pub body_max_length : ℕ
body_max_length = 4000

-- `NoteTitle.__post_init__`
unfoldable pub note_title : String → Result NoteError String
unfolding strip
note_title value =
    if is_empty (strip value) || ltb title_max_length (text_length value)
    then raised note_validation
    else done value

-- `NoteBody.__post_init__`
unfoldable pub note_body : String → Result NoteError String
note_body value =
    if ltb body_max_length (text_length value) then raised note_validation else done value

unfoldable pub can_share_with : Viewer → Option ℕ → Bool
can_share_with viewer group_id = none_or (λ g. contains g viewer.group_ids) group_id

unfoldable pub owned_by : Note → Viewer → Bool
owned_by note viewer = note.owner_user_id == viewer.user_id

unfoldable pub readable_by : Note → Viewer → Bool
unfolding owned_by
readable_by note viewer =
    if owned_by note viewer
    then true
    else some_and (λ g. contains g viewer.group_ids) note.content.shared_group_id

unfoldable pub changeable_by : Note → Viewer → Bool
unfolding owned_by
changeable_by note viewer = owned_by note viewer

-- A row of the table (infrastructure/note_model.py).
pub record NoteModel : Type 0 where
  pub id : ℕ
  pub tenant_id : ℕ
  pub owner_user_id : ℕ
  pub title : String
  pub body : String
  pub shared_group_id : Option ℕ

abbrev pub row_id : NoteModel → ℕ
row_id row = row.id

-- `_to_note`, which checks the title and the body again.
unfoldable pub to_note : NoteModel → Result NoteError Note
unfolding note_title note_body
to_note row = and_then (note_title row.title) (λ title. and_then (note_body row.body) (λ body.
    done (record {
      id = row.id;
      owner_user_id = row.owner_user_id;
      content = record { title = title; body = body; shared_group_id = row.shared_group_id };
    })))

-- `_write`
unfoldable pub write : NoteContent → NoteModel → NoteModel
write content row = record row {
  title = content.title;
  body = content.body;
  shared_group_id = content.shared_group_id;
}

-- `[_to_note(row) for row in rows]`
unfoldable pub to_notes : List NoteModel → Result NoteError (List Note)
unfolding to_note
to_notes [] = done []
to_notes (row ∷ rows) =
    and_then (to_note row) (λ note. and_then (to_notes rows) (λ notes. done (note ∷ notes)))

-- `SqlNoteRepository._row`
unfoldable pub row_of : List NoteModel → (tenant_id note_id : ℕ) → Option NoteModel
row_of [] tenant_id note_id = none
row_of (row ∷ rows) tenant_id note_id =
    if row.id == note_id && row.tenant_id == tenant_id
    then some row
    else row_of rows tenant_id note_id

-- `SqlNoteRepository.get`
unfoldable pub get_note : List NoteModel → (tenant_id note_id : ℕ) → Result NoteError (Option Note)
unfolding row_of to_note
get_note rows tenant_id note_id = elim (row_of rows tenant_id note_id) [
  | none ↦ done none
  | some row ↦ and_then (to_note row) (λ note. done (some note))
]

-- `SqlNoteRepository.add`; `note_id` is the key that the database hands out.
unfoldable pub add_note :
    List NoteModel
    → (tenant_id note_id owner_user_id : ℕ) → NoteContent
    → Result NoteError (Note × List NoteModel)
unfolding to_note
add_note rows tenant_id note_id owner_user_id content =
    let row : NoteModel = record {
      id = note_id;
      tenant_id = tenant_id;
      owner_user_id = owner_user_id;
      title = content.title;
      body = content.body;
      shared_group_id = content.shared_group_id;
    } in
    and_then (to_note row) (λ note. done (note, rows ++ row ∷ []))

-- The condition of `SqlNoteRepository.find_readable`
unfoldable pub is_selected : (tenant_id : ℕ) → Viewer → NoteModel → Bool
is_selected tenant_id viewer row =
    row.tenant_id == tenant_id
    && (row.owner_user_id == viewer.user_id
        || some_and (λ g. contains g viewer.group_ids) row.shared_group_id)

unfoldable pub find_readable :
    List NoteModel → (tenant_id : ℕ) → Viewer → Result NoteError (List Note)
unfolding is_selected to_notes
find_readable rows tenant_id viewer = to_notes (keep (is_selected tenant_id viewer) rows)

-- The condition of `_row`: the key is unique, so that `replace` and `remove` reach one row at most.
abbrev pub is_row : (tenant_id note_id : ℕ) → NoteModel → Bool
is_row tenant_id note_id row = row.id == note_id && row.tenant_id == tenant_id

-- `SqlNoteRepository.replace`
unfoldable pub replace_note : List NoteModel → (tenant_id : ℕ) → Note → List NoteModel
unfolding update_where write
replace_note rows tenant_id note = update_where (is_row tenant_id note.id) (write note.content) rows

-- `SqlNoteRepository.remove`
unfoldable pub remove_note : List NoteModel → (tenant_id note_id : ℕ) → List NoteModel
unfolding delete_where
remove_note rows tenant_id note_id = delete_where (is_row tenant_id note_id) rows
