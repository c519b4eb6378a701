-- ===== src/Store/Notes.antt =====
-- The outreach notes: `addNote` of api.js over the store of mockSource.js, and `listNotes` after it.
use league_table.Prelude.{
  String, ◌≡◌, ◌≢◌, refl, true, false, ◌⊎◌, Bool-cases, Option, ◌===◌, arith, if◌then◌else◌, length,
  eq_iff, inl, inr,
}
use league_table.Number.{Number}
use league_table.Model.{Note}
use league_table.Api.Types.{Error, err, api_error, Caller, DataSource, ApiState}
use league_table.Api.Evaluate.{instructor_or_default}
use league_table.Api.Writes.{trim, trimmed, add_note}
use league_table.Store.{ToyStore, new_note, toy_app_store}
use league_table.Store as Store

module _ {W : Type 0} ⦃num : Number W⦄ (source : DataSource W) where
  -- the note that `addNote` writes
  abbrev pub written : ToyStore W → String → String → Option String → Caller → String → Note
  unfolding trim
  written store class_id student_id body caller now_text =
      new_note (length store.notes)
        (record {
          class_id = class_id;
          student_id = student_id;
          instructor_id = instructor_or_default caller.instructor_id;
          body = trimmed body;
        })
        now_text

  -- the refusal of a note, by who writes it
  abbrev pub note_refusal : Caller → Error
  note_refusal caller =
      if caller.role === "instructor"
      then api_error "A note needs some text." 400
      else api_error "Only an instructor can log outreach." 403

  -- Who is not an instructor is refused with 403, and an instructor's note without text, or of white
  -- space only, with 400; neither leaves a trace.
  pub add_note_refused :
      (class_id student_id : String) (body : Option String) (caller : Caller) (now_text : String)
      (s : ApiState W (ToyStore W))
      → (caller.role ≢ "instructor") ⊎ (trimmed body ≡ "")
      → add_note source toy_app_store class_id student_id body caller now_text s
        ≡ (err (note_refusal caller), s)
  unfolding add_note trim
  add_note_refused class_id student_id body caller now_text s (inl h) =
      let role : (caller.role === "instructor") ≡ false =
        ground (arith, eq_iff caller.role "instructor") in
      rw role refl
  add_note_refused class_id student_id body caller now_text s (inr e) =
      let text : (trimmed body === "") ≡ true = ground (arith, eq_iff (trimmed body) "") in
      elim (Bool-cases (caller.role === "instructor")) [
        | inl role ↦ rw role (rw text refl)
        | inr role ↦ rw role refl
      ]
