-- ===== src/Notes/Tests.antt =====
-- The notes at concrete inputs: Ann (1) shares a note with group 5, of which Bob (2) is a member.
use fastapitemplate.Common.Results.{raised}
use fastapitemplate.Common.{
  ◌≡◌, refl, sym, subst, ◌∙◌, false, none, some, List, [], ◌∷◌, arith, nat_eq, option_eq,
}
use fastapitemplate.Notes.{
  note_title, note_body, readable_by, Viewer, NoteModel, row_of, note_not_found, note_not_owned,
}
use fastapitemplate.Notes.Book.{NoteInput, get, update, delete}
use fastapitemplate.Notes.Access.{
  note_of, IsWritten, unreadable-hidden, Request, create_one, update_one, delete_one, serve,
}
use fastapitemplate.Notes.Ownership.{foreign-requests}

abbrev shared : NoteModel
shared = record {
  id = 1;
  tenant_id = 3;
  owner_user_id = 1;
  title = "plan";
  body = "";
  shared_group_id = some 5;
}

abbrev own : NoteModel
own = record shared { id = 2; shared_group_id = none }

abbrev rows : List NoteModel
rows = shared ∷ own ∷ []

abbrev bob : Viewer
bob = record { user_id = 2; group_ids = 5 ∷ [] }

abbrev input : NoteInput
input = record { title = "mine"; body = "now"; shared_group_id = none }

bob_may_not : delete 3 rows bob 1 ≡ raised note_not_owned
unfolding delete
bob_may_not = refl

some-injective : (a b : NoteModel) → some a ≡ some b → a ≡ b
some-injective a b e = cc e

own-row : row_of rows 3 2 ≡ some own
unfolding row_of
own-row = refl

-- Ann's own note is written, and Bob may not read it.
own_hidden :
    (row : NoteModel)
    → row_of rows 3 2 ≡ some row
    → IsWritten row × (readable_by (note_of row) bob ≡ false)
unfolding note_title note_body readable_by
own_hidden row found =
    let same : own ≡ row = some-injective own row (sym own-row ∙ found) in
    subst (λ r. IsWritten r × (readable_by (note_of r) bob ≡ false)) same ((refl, refl), refl)

unreadable-hidden_example :
    (get 3 rows bob 2 ≡ raised note_not_found)
    × (update 3 rows bob 2 input ≡ raised note_not_found)
    × (delete 3 rows bob 2 ≡ raised note_not_found)
unreadable-hidden_example = unreadable-hidden rows 3 2 bob input own_hidden

abbrev requests : List Request
requests = update_one 3 bob 1 input ∷ create_one 3 bob 9 input ∷ delete_one 3 bob 1 ∷ []

shared-row : row_of rows 3 1 ≡ some shared
unfolding row_of
shared-row = refl

foreign-requests_example : row_of (serve rows requests) 3 1 ≡ some shared
foreign-requests_example =
    foreign-requests rows requests 3 1 shared shared-row
      (omega arith, (omega arith, (omega arith, tt)))
