-- ===== src/Notes/Ownership.antt =====
-- A note changes only at the request of its owner.
use fastapitemplate.Common.Lists.{All}
use fastapitemplate.Common.Results.{done, Result-cases}
use fastapitemplate.Common.{
  ℕ, ◌≡◌, sym, ap, ◌∙◌, subst, ◌≢◌, false, none, some, List, [], ◌∷◌, ◌++◌, arith, nat_eq,
  Bool-cases, Option-cases, inl, inr,
}
use fastapitemplate.Notes.{
  Viewer, Note, NoteModel, NoteContent, to_note, row_of, owned_by, changeable_by, get_note,
  add_note, note_title, note_body,
}
use fastapitemplate.Notes.Book.{
  require_readable, readable_note, changeable_note, content_for, create, update, delete,
}
use fastapitemplate.Notes.Access.{
  Request, create_one, update_one, delete_one, by, handle, serve, same_note, row_of-append,
  row_of-replace, row_of-remove,
}

row_of-key :
    (rows : List NoteModel) (row : NoteModel) (tenant_id note_id : ℕ)
    → row_of rows tenant_id note_id ≡ some row
    → row.id ≡ note_id
unfolding row_of
row_of-key [] row tenant_id note_id found = cc
row_of-key (r ∷ rows) row tenant_id note_id found =
    ground (arith, row_of-key rows row tenant_id note_id, nat_eq.beq_iff r.id note_id)

to_note-fields :
    (row : NoteModel) (note : Note)
    → to_note row ≡ done note
    → (note.id ≡ row.id) × (note.owner_user_id ≡ row.owner_user_id)
unfolding to_note note_title note_body
to_note-fields row note e = ground arith

-- What `changeable_note` lets through is a note that the viewer owns.
changeable-owner :
    (tenant_id : ℕ) (rows : List NoteModel) (viewer : Viewer) (note_id : ℕ) (note : Note)
    → changeable_note tenant_id rows viewer note_id ≡ done note
    → (note.id ≡ note_id)
      × ((row : NoteModel)
          → row_of rows tenant_id note_id ≡ some row
          → row.owner_user_id ≡ viewer.user_id)
unfolding changeable_note readable_note get_note require_readable changeable_by owned_by
changeable-owner tenant_id rows viewer note_id note e =
    elim (Option-cases (row_of rows tenant_id note_id)) [
      | inl missing ↦ absurd (ground arith)
      | inr (row, found) ↦ elim (Result-cases (to_note row)) [
        | inl (_, refused) ↦ absurd (ground arith)
        | inr (n, read) ↦
            let fields = to_note-fields row n read in
            let key = row_of-key rows row tenant_id note_id found in
            (
              ground (arith, fields, key),
              λ row' found'. ground (arith, fields, nat_eq.beq_iff n.owner_user_id viewer.user_id),
            )
      ]
    ]

-- The row of a note of somebody else is another one than the one that `changeable_note` lets through.
other-note :
    (tenant_id tenant_id' : ℕ) (rows : List NoteModel) (viewer : Viewer) (note_id note_id' : ℕ)
    (note : Note) (row : NoteModel)
    → changeable_note tenant_id rows viewer note_id ≡ done note
    → row_of rows tenant_id' note_id' ≡ some row
    → viewer.user_id ≢ row.owner_user_id
    → same_note tenant_id note.id tenant_id' note_id' ≡ false
other-note tenant_id tenant_id' rows viewer note_id note_id' note row e found foreign =
    let (id, own) = changeable-owner tenant_id rows viewer note_id note e in
    elim (Bool-cases (same_note tenant_id note.id tenant_id' note_id')) [
      | inr other ↦ other
      | inl same ↦
          let k : note.id ≡ note_id' = ground (arith, nat_eq.beq_iff note.id note_id') in
          let t : tenant_id ≡ tenant_id' = ground (arith, nat_eq.beq_iff tenant_id tenant_id') in
          absurd (
            foreign (
              sym (
                own row (
                  ap (λ i. row_of rows i note_id) t
                  ∙ (ap (row_of rows tenant_id') (sym id ∙ k) ∙ found)))))
    ]

added-found :
    (rows : List NoteModel) (t id user_id : ℕ) (content : NoteContent) (note : Note)
    (rows' : List NoteModel) (tenant_id note_id : ℕ) (row : NoteModel)
    → add_note rows t id user_id content ≡ done (note, rows')
    → row_of rows tenant_id note_id ≡ some row
    → row_of rows' tenant_id note_id ≡ some row
unfolding add_note
added-found rows t id user_id content note rows' tenant_id note_id row stored found =
    let extra : NoteModel = record {
      id = id;
      tenant_id = t;
      owner_user_id = user_id;
      title = content.title;
      body = content.body;
      shared_group_id = content.shared_group_id;
    } in
    elim (Result-cases (to_note extra)) [
      | inl (_, refused) ↦ absurd (ground arith)
      | inr (n, read) ↦
          let same : rows ++ extra ∷ [] ≡ rows' = ground arith in
          subst (λ x. row_of x tenant_id note_id ≡ some row) same
            (row_of-append rows extra row tenant_id note_id found)
    ]

handle-foreign :
    (rows : List NoteModel) (r : Request) (tenant_id note_id : ℕ) (row : NoteModel)
    → row_of rows tenant_id note_id ≡ some row
    → (by r).user_id ≢ row.owner_user_id
    → row_of (handle rows r) tenant_id note_id ≡ some row
unfolding handle create update delete add_note
handle-foreign rows (create_one t viewer id input) tenant_id note_id row found foreign =
    elim (Result-cases (content_for viewer input none)) [
      | inl (_, refused) ↦ ground arith
      | inr (content, checked) ↦ elim (Result-cases (add_note rows t id viewer.user_id content)) [
        | inl (_, refused) ↦ ground arith
        | inr (added, stored) ↦ ground (
          arith,
          added-found rows t id viewer.user_id content added.0 added.1 tenant_id note_id row stored
              found,
        )
      ]
    ]
handle-foreign rows (update_one t viewer id input) tenant_id note_id row found foreign =
    elim (Result-cases (changeable_note t rows viewer id)) [
      | inl (_, refused) ↦ ground arith
      | inr (note, mine) ↦
          let other = other-note t tenant_id rows viewer id note_id note row mine found foreign in
          elim (Result-cases (content_for viewer input (some note))) [
            | inl (_, refused) ↦ ground arith
            | inr (content, checked) ↦ ground (
              arith,
              row_of-replace rows row (record note { content = content }) t tenant_id note_id other
                  found,
            )
          ]
    ]
handle-foreign rows (delete_one t viewer id) tenant_id note_id row found foreign =
    elim (Result-cases (changeable_note t rows viewer id)) [
      | inl (_, refused) ↦ ground arith
      | inr (note, mine) ↦
          let other = other-note t tenant_id rows viewer id note_id note row mine found foreign in
          ground (arith, row_of-remove rows row t note.id tenant_id note_id other found)
    ]

-- A note is changed, replaced or deleted by its owner alone: whatever the other users request, in any
-- tenant and with any input, its row stays as it is.
pub foreign-requests :
    (rows : List NoteModel) (requests : List Request) (tenant_id note_id : ℕ) (row : NoteModel)
    → row_of rows tenant_id note_id ≡ some row
    → All (λ r. (by r).user_id ≢ row.owner_user_id) requests
    → row_of (serve rows requests) tenant_id note_id ≡ some row
unfolding serve
foreign-requests rows [] tenant_id note_id row found all = found
foreign-requests rows (r ∷ rest) tenant_id note_id row found (foreign, all) =
    foreign-requests (handle rows r) rest tenant_id note_id row
      (handle-foreign rows r tenant_id note_id row found foreign) all
