-- ===== src/Receipts/Atomic.antt =====
-- Publication is atomic and says truly what it achieved, whatever the operating system answers.
use betmaxxing.Prelude.{
  ℕ, ◌≡◌, refl, sym, ◌∙◌, ap, subst, String, Bool, true, false, Option, none, some, List, [], ◌∷◌,
  ◌++◌, map, arith, str_eq, Option-cases, inl, inr, if◌then◌else◌, take, length, All, All-append,
}
use betmaxxing.Receipts.Directory.{Bytes, Files, content, content-put}
use betmaxxing.Receipts.Writing.{all_written, Writes, write_loop, write_fuel, last_or}
use betmaxxing.Receipts.Written.{write_loop-total}
use betmaxxing.Receipts.Publish.{
  Os, persistence_failed, after_write, with_temporary, after_loop, publish_bytes, final_state,
}
use betmaxxing.Receipts.Outcome.{Whole, Promised, Kept, after_write-Kept, take_all}

final_state-append :
    (files : Files) (xs ys : List Files)
    → final_state files (xs ++ ys) ≡ final_state (final_state files xs) ys
final_state-append files [] ys = refl
final_state-append files (x ∷ xs) ys = final_state-append x xs ys

module _ (os : Os) (name temporary : String) (apart : str_eq temporary name ≡ false)
    (payload : Bytes) (files : Files) where
  -- the directory while the temporary is written
  abbrev written_state : ℕ → Files
  written_state = with_temporary temporary payload files

  writing-last :
      (n : ℕ) (visited : List ℕ)
      → final_state (written_state n) (map written_state visited)
        ≡ written_state (last_or n visited)
  writing-last n [] = refl
  writing-last n (w ∷ visited) = writing-last w visited

  writing-same : (n : ℕ) → content name (written_state n) ≡ content name files
  writing-same n = content-put name temporary (take n payload) files apart

  writing-Whole :
      (visited : List ℕ) → All (Whole name (content name files) payload) (map written_state visited)
  writing-Whole [] = tt
  writing-Whole (w ∷ visited) = (inl (writing-same w), writing-Whole visited)

  after_loop-Kept :
      (w : Option Writes)
      → ((visited : List ℕ) → w ≡ some (visited, all_written) → last_or 0 visited ≡ length payload)
      → Kept os name temporary apart
          (content name files)
          payload
          files
          (after_loop os name temporary payload files w)
  after_loop-Kept none total = record { whole = tt; promise = refl }
  after_loop-Kept (some (visited, end)) total =
      let at = written_state (last_or 0 visited) in
      let bytes = take (last_or 0 visited) payload in
      let rest = after_write os name temporary bytes end at in
      let kept =
        after_write-Kept os name temporary apart (content name files) payload bytes end at
          (writing-same (last_or 0 visited))
          (λ done.
            ap (λ n. take n payload) (total visited (ap (λ x. some (visited, x)) done))
            ∙ take_all payload) in
      let states = written_state 0 ∷ map written_state visited in
      record {
        whole =
            All-append (Whole name (content name files) payload) states rest.0
              (inl (writing-same 0), writing-Whole visited) kept.whole;
        promise =
            subst (λ f. Promised name temporary (content name files) payload rest.1 f)
              (sym (
                final_state-append files states rest.0
                ∙ ap (λ f. final_state f rest.0) (writing-last 0 visited)))
              kept.promise;
      }

  publish_bytes-Kept :
      Kept os name temporary apart
        (content name files)
        payload
        files
        (publish_bytes os name temporary payload files)
  unfolding publish_bytes
  publish_bytes-Kept = elim (Option-cases (content temporary files)) [
    | inr (old, e) ↦ rw (publish_bytes, e) record { whole = tt; promise = refl }
    | inl e ↦ rw (publish_bytes, e) (opened os.creates)
  ]
    where
      opened :
          (created : Bool)
          → Kept os name temporary apart (content name files) payload files (
              if created
              then after_loop os name temporary payload files
                  (write_loop (write_fuel (length payload)) os.writes 0 (length payload) 0 0)
              else ([], persistence_failed false false))
      opened false = record { whole = tt; promise = refl }
      opened true =
          after_loop-Kept
            (write_loop (write_fuel (length payload)) os.writes 0 (length payload) 0 0)
            (λ visited h.
              write_loop-total (write_fuel (length payload)) os.writes 0 (length payload) 0 0
                {visited = visited} (omega arith) h)

  -- No receipt is ever half there: at every instant of a publication, whatever the operating system
  -- answers and wherever the program is ended, the final name is as it was before, or holds the whole
  -- payload. The temporary's name is not the final one.
  pub publish_bytes-Whole :
      All
        (Whole name (content name files) payload)
        (publish_bytes os name temporary payload files).0
  publish_bytes-Whole = publish_bytes-Kept.whole

  pub publish_bytes-Promised :
      let p = publish_bytes os name temporary payload files in
      Promised name temporary (content name files) payload p.1 (final_state files p.0)
  publish_bytes-Promised = publish_bytes-Kept.promise
