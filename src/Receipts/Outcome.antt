-- ===== src/Receipts/Outcome.antt =====
-- What `publish_bytes` leaves under the final name, at every instant and at the end.
use betmaxxing.Prelude.{
  ◌≡◌, refl, sym, ◌∙◌, ap, subst, String, Bool, true, false, ◌||◌, not, Option, none, some, List,
  [], ◌∷◌, str_eq, str_eq_refl, Bool-cases, Option-cases, inl, inr, ◌⊎◌, take, length, All,
}
use betmaxxing.Table.{All-map}
use betmaxxing.Receipts.Directory.{
  Bytes, Files, content, put, content-put_same, content-remove_same, content-remove,
}
use betmaxxing.Receipts.Writing.{WriteEnd, all_written, write_stalled, write_failed, interrupted}
use betmaxxing.Receipts.Publish.{
  Os, PublishEnd, published_written, published_exists, persistence_failed, Publication, cleaned,
  published, after_link, then_state, after_write, final_state,
}

-- the final name is as it was, or holds the whole payload
abbrev pub Whole : String → Option Bytes → Bytes → Files → Type 0
Whole name old payload files = (content name files ≡ old) ⊎ (content name files ≡ some payload)

-- What the end of a publication says of the directory that it leaves.
abbrev pub Promised : String → String → Option Bytes → Bytes → PublishEnd → Files → Type 0
Promised name temporary old payload published_written files =
    (old ≡ none) × (content name files ≡ some payload) × (content temporary files ≡ none)
Promised name temporary old payload published_exists files =
    (content name files ≡ old) × (content temporary files ≡ none)
Promised name temporary old payload (persistence_failed true pending) files =
    content name files ≡ some payload
Promised name temporary old payload _ files = content name files ≡ old

final_state-All :
    (P : Files → Type 0) (files : Files) (states : List Files)
    → P files
    → All P states
    → P (final_state files states)
final_state-All P files [] h k = h
final_state-All P files (f ∷ states) h k = final_state-All P f states k.0 k.1

module _ (os : Os) (name temporary : String) (apart : str_eq temporary name ≡ false) where
  cleaned-content :
      (files : Files) (v : Option Bytes)
      → content name files ≡ v
      → All (λ f. content name f ≡ v) (cleaned os temporary files)
  cleaned-content files v h = elim (Bool-cases os.cleans_up) [
    | inl e ↦ rw e (content-remove name temporary files apart ∙ h, tt)
    | inr e ↦ rw e tt
  ]

  -- what the steps after the link keep, and how they end
  record Settled (written : Bool) (v : Option Bytes) (files : Files) (p : Publication)
      : Type 0 where
    pub kept : All (λ f. content name f ≡ v) p.0
    pub end :
        ((p.1 ≡ published written) × (content temporary (final_state files p.0) ≡ none))
        ⊎ (p.1 ≡ persistence_failed written true)

  after_link-Settled :
      (written : Bool) (files : Files) (v : Option Bytes)
      → content name files ≡ v
      → Settled written v files (after_link os temporary written files)
  unfolding after_link
  after_link-Settled written files v h =
      let removed = content-remove name temporary files apart ∙ h in
      elim (Bool-cases os.syncs_link) [
        | inr e ↦ rw (after_link, e) record { kept = cleaned-content files v h; end = inr refl }
        | inl e ↦ elim (Bool-cases os.unlinks) [
          | inr f ↦ rw (after_link, e, f) record { kept = tt; end = inr refl }
          | inl f ↦ elim (Bool-cases os.syncs_removal) [
            | inr g ↦ rw (after_link, e, f, g) record { kept = (removed, tt); end = inr refl }
            | inl g ↦
                rw (after_link, e, f, g)
                  record {
                    kept = (removed, tt);
                    end = inl (refl, content-remove_same temporary files);
                  }
          ]
        ]
      ]

  pub record Kept (old : Option Bytes) (payload : Bytes) (files : Files) (p : Publication)
      : Type 0 where
    pub whole : All (Whole name old payload) p.0
    pub promise : Promised name temporary old payload p.1 (final_state files p.0)

  unlinked-Kept :
      (old : Option Bytes) (payload : Bytes) (files : Files)
      → content name files ≡ old
      → All (Whole name old payload) (cleaned os temporary files)
        × (content name (final_state files (cleaned os temporary files)) ≡ old)
  unlinked-Kept old payload files h =
      let states = cleaned-content files old h in
      (
        All-map _ _ _ (λ f e. inl e) states,
        final_state-All (λ f. content name f ≡ old) files _ h states,
      )

  exists-Kept :
      (old : Option Bytes) (payload : Bytes) (files : Files) (p : Publication)
      → content name files ≡ old
      → Settled false old files p
      → Kept old payload files p
  exists-Kept old payload files p h s =
      let same = final_state-All (λ f. content name f ≡ old) files p.0 h s.kept in
      record {
        whole = All-map _ _ _ (λ f e. inl e) s.kept;
        promise = elim s.end [
          | inl (e, gone) ↦
              subst (λ x. Promised name temporary old payload x (final_state files p.0)) (sym e)
                (same, gone)
          | inr e ↦
              subst (λ x. Promised name temporary old payload x (final_state files p.0)) (sym e)
                same
        ];
      }

  linked-Kept :
      (old : Option Bytes) (payload : Bytes) (files linked : Files) (p : Publication)
      → old ≡ none
      → content name linked ≡ some payload
      → Settled true (some payload) linked p
      → Kept old payload files (then_state linked p)
  linked-Kept old payload files linked p free h s =
      let there = final_state-All (λ f. content name f ≡ some payload) linked p.0 h s.kept in
      record {
        whole = (inr h, All-map _ _ _ (λ f e. inr e) s.kept);
        promise = elim s.end [
          | inl (e, gone) ↦
              subst (λ x. Promised name temporary old payload x (final_state linked p.0)) (sym e)
                (free, there, gone)
          | inr e ↦
              subst (λ x. Promised name temporary old payload x (final_state linked p.0)) (sym e)
                there
        ];
      }

  pub after_write-Kept :
      (old : Option Bytes) (payload bytes : Bytes) (end : WriteEnd) (files : Files)
      → content name files ≡ old
      → (end ≡ all_written → bytes ≡ payload)
      → Kept old payload files (after_write os name temporary bytes end files)
  unfolding after_write
  after_write-Kept old payload bytes write_stalled files h full =
      let k = unlinked-Kept old payload files h in record { whole = k.0; promise = k.1 }
  after_write-Kept old payload bytes write_failed files h full =
      let k = unlinked-Kept old payload files h in record { whole = k.0; promise = k.1 }
  after_write-Kept old payload bytes interrupted files h full =
      let k = unlinked-Kept old payload files h in record { whole = k.0; promise = k.1 }
  after_write-Kept old payload bytes all_written files h full =
      elim (Bool-cases (not os.syncs_file || not os.links)) [
        | inl e ↦
            let k = unlinked-Kept old payload files h in
            rw (after_write, e) record { whole = k.0; promise = k.1 }
        | inr e ↦ elim (Option-cases (content name files)) [
          | inr (taken, f) ↦
              rw (after_write, e, f)
                (exists-Kept old payload files (after_link os temporary false files) h
                  (after_link-Settled false files old h))
          | inl f ↦
              let linked = put name bytes files in
              let there : content name linked ≡ some payload =
                content-put_same name bytes files (str_eq_refl name) ∙ ap some (full refl) in
              rw (after_write, e, f)
                (linked-Kept old payload files linked (after_link os temporary true linked)
                  (sym h ∙ f) there (after_link-Settled true linked (some payload) there))
        ]
      ]

pub take_all : (xs : Bytes) → take (length xs) xs ≡ xs
take_all [] = refl
take_all (x ∷ xs) = ap (λ ys. x ∷ ys) (take_all xs)
