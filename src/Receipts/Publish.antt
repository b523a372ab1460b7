-- ===== src/Receipts/Publish.antt =====
-- `SecureDirectory.publish_bytes` and the end of `publish_intent` in
-- src/betmaxxing/providers/the_odds_api/receipt_store.py: every system call, each with its failure. What
-- the operating system answers is an argument; the directory is changed as the call is documented.
use betmaxxing.Prelude.{
  ℕ, String, Bool, true, false, ◌||◌, not, Option, none, some, List, [], ◌∷◌, ◌++◌, map,
  if◌then◌else◌, take, length,
}
use betmaxxing.Receipts.Directory.{Bytes, Files, content, put, remove}
use betmaxxing.Receipts.Writing.{
  WriteAnswer, WriteEnd, all_written, write_stalled, write_failed, interrupted, Writes, write_loop,
  write_fuel, last_or,
}

-- Whether each call succeeds: the creation of the temporary, the writes, `fsync` of it, the hard link
-- (which fails besides if the name is taken), the two `fsync` of the directory, the removal of the
-- temporary, and its removal after a failure, whose errors are suppressed.
pub record Os : Type 0 where
  pub creates : Bool
  pub writes : ℕ → WriteAnswer
  pub syncs_file : Bool
  pub links : Bool
  pub syncs_link : Bool
  pub unlinks : Bool
  pub syncs_removal : Bool
  pub cleans_up : Bool

-- How it ends: `Published` with its outcome (written, or the name was taken), `PersistenceFailed` with
-- its two flags, what ended the program, or the FileExistsError of the temporary.
pub data PublishEnd : Type 0 where
  published_written published_exists : PublishEnd
  persistence_failed : Bool → Bool → PublishEnd
  publish_interrupted temporary_taken : PublishEnd

-- The states of the directory after each change, in order, with the end.
abbrev pub Publication : Type 0
Publication = List Files × PublishEnd

abbrev pub cleaned : Os → String → Files → List Files
cleaned os temporary files = if os.cleans_up then remove temporary files ∷ [] else []

abbrev pub published : Bool → PublishEnd
published true = published_written
published false = published_exists

-- steps 4 to 6, after the link; `written` unless the name was taken
unfoldable pub after_link : Os → String → Bool → Files → Publication
after_link os temporary written files =
    let removed = remove temporary files in
    if not os.syncs_link
    then (cleaned os temporary files, persistence_failed written true)
    else if not os.unlinks
    then ([], persistence_failed written true)
    else if not os.syncs_removal
    then (removed ∷ [], persistence_failed written true)
    else (removed ∷ [], published written)

abbrev pub then_state : Files → Publication → Publication
then_state files (states, end) = (files ∷ states, end)

-- steps 2 and 3
unfoldable pub after_write : Os → String → String → Bytes → WriteEnd → Files → Publication
unfolding after_link
after_write os name temporary bytes write_stalled files =
    (cleaned os temporary files, persistence_failed false false)
after_write os name temporary bytes write_failed files =
    (cleaned os temporary files, persistence_failed false false)
after_write os name temporary bytes interrupted files =
    (cleaned os temporary files, publish_interrupted)
after_write os name temporary bytes all_written files =
    if not os.syncs_file || not os.links
    then (cleaned os temporary files, persistence_failed false false)
    else elim (content name files) [
      | some taken ↦ after_link os temporary false files
      | none ↦
          let linked = put name bytes files in
          then_state linked (after_link os temporary true linked)
    ]

-- the temporary with so many bytes of the payload
abbrev pub with_temporary : String → Bytes → Files → ℕ → Files
with_temporary temporary payload files written = put temporary (take written payload) files

abbrev pub before_states : List Files → Publication → Publication
before_states states (more, end) = (states ++ more, end)

-- The first clause is never reached: the loop ends within its fuel.
abbrev pub after_loop : Os → String → String → Bytes → Files → Option Writes → Publication
after_loop os name temporary payload files none = ([], publish_interrupted)
after_loop os name temporary payload files (some (visited, end)) =
    let written = last_or 0 visited in
    before_states
      (with_temporary temporary payload files 0
        ∷ map (with_temporary temporary payload files) visited)
      (after_write os name temporary (take written payload) end
        (with_temporary temporary payload files written))

-- `publish_bytes`
unfoldable pub publish_bytes : Os → String → String → Bytes → Files → Publication
unfolding write_loop after_write
publish_bytes os name temporary payload files = elim (content temporary files) [
  | some old ↦ ([], temporary_taken)
  | none ↦
      if os.creates
      then after_loop os name temporary payload files
          (write_loop (write_fuel (length payload)) os.writes 0 (length payload) 0 0)
      else ([], persistence_failed false false)
]

abbrev pub final_state : Files → List Files → Files
final_state files [] = files
final_state files (f ∷ states) = final_state f states
