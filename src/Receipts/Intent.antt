-- ===== src/Receipts/Intent.antt =====
-- The second half of `publish_intent` in src/betmaxxing/providers/the_odds_api/receipt_store.py: the
-- publication of an intent that was checked, idempotent on identical bytes only.
use betmaxxing.Prelude.{
  ◌≡◌, refl, ap, String, Bool, true, false, ◌&&◌, Option, none, some, [], ◌∷◌, ◌==◌, arith, str_eq,
  Bool-cases, inl, inr, if◌then◌else◌, Result, ok, err,
}
use betmaxxing.Receipts.Directory.{Bytes, Files, content}
use betmaxxing.Receipts.Publish.{
  Os, PublishEnd, published_written, published_exists, persistence_failed, publish_interrupted,
  temporary_taken, publish_bytes, final_state,
}
use betmaxxing.Receipts.Outcome.{Promised}
use betmaxxing.Receipts.Atomic.{publish_bytes-Promised}

abbrev pub bytes_eq : Bytes → Bytes → Bool
bytes_eq [] [] = true
bytes_eq (a ∷ xs) (b ∷ ys) = a == b && bytes_eq xs ys
bytes_eq _ _ = false

pub data IntentError : Type 0 where
  intent_unreadable intent_conflict : IntentError
  not_durable : Bool → Bool → IntentError
  intent_interrupted temporary_exists : IntentError

-- what is under the name, against the body
abbrev pub compare_body : Bytes → Option Bytes → Result IntentError Unit
compare_body body none = err intent_unreadable
compare_body body (some old) = if bytes_eq old body then ok tt else err intent_conflict

-- `readable` is whether `read_text` succeeds.
abbrev pub accept : Bool → Bytes → PublishEnd → Option Bytes → Result IntentError Unit
accept readable body published_written now = ok tt
accept readable body published_exists now =
    if readable then compare_body body now else err intent_unreadable
accept readable body (persistence_failed done pending) now = err (not_durable done pending)
accept readable body publish_interrupted now = err intent_interrupted
accept readable body temporary_taken now = err temporary_exists

unfoldable pub publish_intent :
    Os → Bool → String → String → Bytes → Files → Result IntentError Unit × Files
unfolding publish_bytes
publish_intent os readable name temporary body files =
    let p = publish_bytes os name temporary body files in
    let after = final_state files p.0 in (accept readable body p.1 (content name after), after)

bytes_eq_sound : (a b : Bytes) → bytes_eq a b ≡ true → a ≡ b
bytes_eq_sound [] [] h = refl
bytes_eq_sound [] (b ∷ ys) h = cc
bytes_eq_sound (a ∷ xs) [] h = cc
bytes_eq_sound (a ∷ xs) (b ∷ ys) h = ground (arith, h, bytes_eq_sound xs ys)

compared : (body : Bytes) (now : Option Bytes) → compare_body body now ≡ ok tt → now ≡ some body
compared body none h = cc
compared body (some old) h = elim (Bool-cases (bytes_eq old body)) [
  | inl e ↦ ap some (bytes_eq_sound old body e)
  | inr e ↦ absurd (ground (arith, h, e))
]

accepted :
    (readable : Bool) (name temporary : String) (old : Option Bytes) (body : Bytes)
    (end : PublishEnd) (files : Files)
    → Promised name temporary old body end files
    → accept readable body end (content name files) ≡ ok tt
    → content name files ≡ some body
accepted readable name temporary old body published_written files p h = p.1
accepted true name temporary old body published_exists files p h =
    compared body (content name files) h
accepted false name temporary old body published_exists files p h = cc
accepted readable name temporary old body (persistence_failed done pending) files p h = cc
accepted readable name temporary old body publish_interrupted files p h = cc
accepted readable name temporary old body temporary_taken files p h = cc

-- When the publication of an intent is accepted, whatever the operating system answered and whether or
-- not the name was taken before, exactly the intent's bytes stand under its name. The temporary's name is
-- not the final one.
pub publish_intent-recorded :
    (os : Os) (readable : Bool) (name temporary : String) (body : Bytes) (files : Files)
    → str_eq temporary name ≡ false
    → (publish_intent os readable name temporary body files).0 ≡ ok tt
    → content name (publish_intent os readable name temporary body files).1 ≡ some body
unfolding publish_intent
publish_intent-recorded os readable name temporary body files apart h =
    let p = publish_bytes os name temporary body files in
    accepted readable name temporary (content name files) body p.1 (final_state files p.0)
      (publish_bytes-Promised os name temporary apart body files) h
