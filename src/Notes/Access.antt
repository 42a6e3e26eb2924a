-- ===== src/Notes/Access.antt =====
-- Who reads a note and who changes it, whatever the other users do.
use fastapitemplate.Common.Lists.{All, keep}
use fastapitemplate.Common.Results.{Result, raised, done, committed}
use fastapitemplate.Common.Table.{update_where, delete_where}
use fastapitemplate.Common.{
  ℕ, ◌≡◌, refl, Bool, false, ◌&&◌, some, List, [], ◌∷◌, ◌++◌, map, arith, nat_eq, ◌==◌,
  Option-cases, inl, inr,
}
use fastapitemplate.Notes.{
  Viewer, Note, NoteModel, note_not_found, note_title, note_body, to_note, to_notes, readable_by,
  is_selected, find_readable, row_of, get_note, replace_note, remove_note, write,
}
use fastapitemplate.Notes.Book.{NoteInput, readable_note, get, create, update, delete}

-- The text of the row passes the checks of `NoteTitle` and `NoteBody`.
abbrev pub IsWritten : NoteModel → Type 0
IsWritten row = (note_title row.title ≡ done row.title) × (note_body row.body ≡ done row.body)

-- The note that a written row holds.
abbrev pub note_of : NoteModel → Note
note_of row = record {
  id = row.id;
  owner_user_id = row.owner_user_id;
  content = record { title = row.title; body = row.body; shared_group_id = row.shared_group_id };
}

to_note_written : (row : NoteModel) → IsWritten row → to_note row ≡ done (note_of row)
unfolding to_note
to_note_written row (t, b) = rw (t, b)

-- The notes of a tenant that a viewer may read, by the rule of the entity.
abbrev pub readable_notes : List NoteModel → ℕ → Viewer → List Note
readable_notes rows tenant_id viewer =
    keep (λ n. readable_by n viewer) (map note_of (keep (λ r. r.tenant_id == tenant_id) rows))

-- The list that the SQL selects is the list of the notes that the entity's own rule lets the viewer
-- read: the two ways in which the rule is written agree.
pub find_readable-readable_by :
    (rows : List NoteModel) (tenant_id : ℕ) (viewer : Viewer)
    → All IsWritten rows
    → find_readable rows tenant_id viewer ≡ done (readable_notes rows tenant_id viewer)
unfolding find_readable is_selected to_notes readable_by
find_readable-readable_by [] tenant_id viewer all = refl
find_readable-readable_by (row ∷ rows) tenant_id viewer (written, all) =
    ground (arith, find_readable-readable_by rows tenant_id viewer all, to_note_written row written)

unreadable-raises :
    (rows : List NoteModel) (tenant_id note_id : ℕ) (viewer : Viewer)
    → ((row : NoteModel)
        → row_of rows tenant_id note_id ≡ some row
        → IsWritten row × (readable_by (note_of row) viewer ≡ false))
    → readable_note tenant_id rows viewer note_id ≡ raised note_not_found
unfolding readable_note get_note
unreadable-raises rows tenant_id note_id viewer h =
    elim (Option-cases (row_of rows tenant_id note_id)) [
      | inl missing ↦ ground arith
      | inr (row, found) ↦ ground (arith, to_note_written row (h row found).0, (h row found).1)
    ]

-- A viewer who may not read a note is told what is told of a note that does not exist, by every use
-- case that names one; nothing is written.
pub unreadable-hidden :
    (rows : List NoteModel) (tenant_id note_id : ℕ) (viewer : Viewer) (input : NoteInput)
    → ((row : NoteModel)
        → row_of rows tenant_id note_id ≡ some row
        → IsWritten row × (readable_by (note_of row) viewer ≡ false))
    → (get tenant_id rows viewer note_id ≡ raised note_not_found)
      × (update tenant_id rows viewer note_id input ≡ raised note_not_found)
      × (delete tenant_id rows viewer note_id ≡ raised note_not_found)
unfolding get update delete
unreadable-hidden rows tenant_id note_id viewer input h =
    let e = unreadable-raises rows tenant_id note_id viewer h in
    (ground arith, ground arith, ground arith)

-- A request to change a note, by a viewer of a tenant.
pub data Request : Type 0 where
  create_one : (tenant_id : ℕ) (viewer : Viewer) (note_id : ℕ) (input : NoteInput) → Request
  update_one : (tenant_id : ℕ) (viewer : Viewer) (note_id : ℕ) (input : NoteInput) → Request
  delete_one : (tenant_id : ℕ) (viewer : Viewer) (note_id : ℕ) → Request

abbrev pub by : Request → Viewer
by (create_one tenant_id viewer note_id input) = viewer
by (update_one tenant_id viewer note_id input) = viewer
by (delete_one tenant_id viewer note_id) = viewer

-- The table that an answer leaves.
abbrev pub table_of : {E A R : Type 0} → Result E (A × R) → Result E R
table_of (raised e) = raised e
table_of (done (_, rows)) = done rows

unfoldable pub handle : List NoteModel → Request → List NoteModel
handle rows (create_one tenant_id viewer note_id input) =
    committed rows (table_of (create tenant_id rows viewer note_id input))
handle rows (update_one tenant_id viewer note_id input) =
    committed rows (table_of (update tenant_id rows viewer note_id input))
handle rows (delete_one tenant_id viewer note_id) =
    committed rows (delete tenant_id rows viewer note_id)

unfoldable pub serve : List NoteModel → List Request → List NoteModel
serve rows [] = rows
serve rows (r ∷ rest) = serve (handle rows r) rest

pub row_of-append :
    (rows : List NoteModel) (extra row : NoteModel) (tenant_id note_id : ℕ)
    → row_of rows tenant_id note_id ≡ some row
    → row_of (rows ++ extra ∷ []) tenant_id note_id ≡ some row
unfolding row_of
row_of-append [] extra row tenant_id note_id found = cc
row_of-append (r ∷ rows) extra row tenant_id note_id found =
    ground (arith, row_of-append rows extra row tenant_id note_id)

-- Two addresses of a note: the tenant and the key.
abbrev pub same_note : (tenant_id note_id tenant_id' note_id' : ℕ) → Bool
same_note tenant_id note_id tenant_id' note_id' = note_id == note_id' && tenant_id == tenant_id'

pub row_of-replace :
    (rows : List NoteModel) (row : NoteModel) (note : Note) (tenant_id tenant_id' note_id' : ℕ)
    → same_note tenant_id note.id tenant_id' note_id' ≡ false
    → row_of rows tenant_id' note_id' ≡ some row
    → row_of (replace_note rows tenant_id note) tenant_id' note_id' ≡ some row
unfolding row_of replace_note write update_where
row_of-replace [] row note tenant_id tenant_id' note_id' other found = found
row_of-replace (r ∷ rows) row note tenant_id tenant_id' note_id' other found = ground (
  arith,
  row_of-replace rows row note tenant_id tenant_id' note_id' other,
  nat_eq.beq_iff note.id note_id',
  nat_eq.beq_iff tenant_id tenant_id',
  nat_eq.beq_iff r.id note.id,
  nat_eq.beq_iff r.tenant_id tenant_id,
  nat_eq.beq_iff r.id note_id',
  nat_eq.beq_iff r.tenant_id tenant_id',
)

pub row_of-remove :
    (rows : List NoteModel) (row : NoteModel) (tenant_id note_id tenant_id' note_id' : ℕ)
    → same_note tenant_id note_id tenant_id' note_id' ≡ false
    → row_of rows tenant_id' note_id' ≡ some row
    → row_of (remove_note rows tenant_id note_id) tenant_id' note_id' ≡ some row
unfolding row_of remove_note delete_where
row_of-remove [] row tenant_id note_id tenant_id' note_id' other found = found
row_of-remove (r ∷ rows) row tenant_id note_id tenant_id' note_id' other found = ground (
  arith,
  row_of-remove rows row tenant_id note_id tenant_id' note_id' other,
  nat_eq.beq_iff note_id note_id',
  nat_eq.beq_iff tenant_id tenant_id',
  nat_eq.beq_iff r.id note_id,
  nat_eq.beq_iff r.tenant_id tenant_id,
  nat_eq.beq_iff r.id note_id',
  nat_eq.beq_iff r.tenant_id tenant_id',
)
