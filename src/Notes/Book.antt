-- ===== src/Notes/Book.antt =====
-- The use cases of the notes: bounded_contexts/notes/application/use_cases/note_access.py and
-- note_book.py, for one tenant. `viewer` is what `SqlGroupMembership.viewer` reads of the user, and
-- `note_id` of `create` is the key that the database hands out.
use fastapitemplate.Common.Results.{Result, raised, done, and_then}
use fastapitemplate.Common.{
  ℕ, String, Bool, not, ◌&&◌, Option, none, some, List, some_and, nat_eq, option_eq, ◌==◌,
  if◌then◌else◌,
}
use fastapitemplate.Notes.{
  Viewer, Note, NoteContent, NoteModel, NoteError, note_not_found, note_not_owned,
  share_group_not_joined, readable_by, changeable_by, can_share_with, owned_by, note_title,
  note_body, get_note, add_note, replace_note, remove_note,
}

-- application/dto/note_dto.py
pub record NoteInput : Type 0 where
  pub title : String
  pub body : String
  pub shared_group_id : Option ℕ

pub record NoteDto : Type 0 where
  pub id : ℕ
  pub title : String
  pub body : String
  pub shared_group_id : Option ℕ
  pub mine : Bool
  pub can_change : Bool

unfoldable pub dto_of : Note → Viewer → NoteDto
unfolding owned_by changeable_by
dto_of note viewer = record {
  id = note.id;
  title = note.content.title;
  body = note.content.body;
  shared_group_id = note.content.shared_group_id;
  mine = owned_by note viewer;
  can_change = changeable_by note viewer;
}

-- The answer of `readable_note` for what `notes.get` returns.
unfoldable pub require_readable : Viewer → Option Note → Result NoteError Note
unfolding readable_by
require_readable viewer none = raised note_not_found
require_readable viewer (some note) =
    if readable_by note viewer then done note else raised note_not_found

module _ (tenant_id : ℕ) where
  unfoldable pub readable_note : List NoteModel → Viewer → ℕ → Result NoteError Note
  unfolding get_note require_readable
  readable_note rows viewer note_id =
      and_then (get_note rows tenant_id note_id) (require_readable viewer)

  unfoldable pub changeable_note : List NoteModel → Viewer → ℕ → Result NoteError Note
  unfolding readable_note changeable_by
  changeable_note rows viewer note_id =
      and_then (readable_note rows viewer note_id)
        (λ note. if changeable_by note viewer then done note else raised note_not_owned)

-- The shared group stays what it is: `unchanged` of `content_for`.
abbrev pub unchanged : Option Note → NoteInput → Bool
unchanged current input = some_and (λ n. n.content.shared_group_id == input.shared_group_id) current

unfoldable pub content_for : Viewer → NoteInput → Option Note → Result NoteError NoteContent
unfolding can_share_with note_title note_body
content_for viewer input current =
    if not (unchanged current input) && not (can_share_with viewer input.shared_group_id)
    then raised share_group_not_joined
    else and_then (note_title input.title) (λ title. and_then (note_body input.body) (λ body.
      done (record { title = title; body = body; shared_group_id = input.shared_group_id })))

module _ (tenant_id : ℕ) where
  unfoldable pub get : List NoteModel → Viewer → ℕ → Result NoteError NoteDto
  unfolding readable_note dto_of
  get rows viewer note_id =
      and_then (readable_note tenant_id rows viewer note_id) (λ note. done (dto_of note viewer))

  unfoldable pub create :
      List NoteModel → Viewer → ℕ → NoteInput → Result NoteError (NoteDto × List NoteModel)
  unfolding content_for add_note dto_of
  create rows viewer note_id input = and_then (content_for viewer input none) (λ content.
      and_then (add_note rows tenant_id note_id viewer.user_id content)
        (λ added. done (dto_of added.0 viewer, added.1)))

  unfoldable pub update :
      List NoteModel → Viewer → ℕ → NoteInput → Result NoteError (NoteDto × List NoteModel)
  unfolding changeable_note content_for replace_note dto_of
  update rows viewer note_id input =
      and_then (changeable_note tenant_id rows viewer note_id) (λ current.
        and_then (content_for viewer input (some current)) (λ content.
          let updated : Note = record current { content = content } in
          done (dto_of updated viewer, replace_note rows tenant_id updated)))

  unfoldable pub delete : List NoteModel → Viewer → ℕ → Result NoteError (List NoteModel)
  unfolding changeable_note remove_note
  delete rows viewer note_id =
      and_then (changeable_note tenant_id rows viewer note_id)
        (λ note. done (remove_note rows tenant_id note.id))
