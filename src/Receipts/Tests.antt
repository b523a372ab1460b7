-- ===== src/Receipts/Tests.antt =====
-- The theorems on publication at a directory that holds one receipt.
use betmaxxing.Prelude.{◌≡◌, refl, true, some, [], ◌∷◌, All}
use betmaxxing.Receipts.Directory.{Bytes, Files, content, put, remove}
use betmaxxing.Receipts.Writing.{wrote, write_loop, write_fuel, ended, write_loop-ended}
use betmaxxing.Receipts.Publish.{Os, publish_bytes}
use betmaxxing.Receipts.Outcome.{Whole}
use betmaxxing.Receipts.Atomic.{publish_bytes-Whole}
use betmaxxing.Receipts.Intent.{publish_intent, publish_intent-recorded}

-- every write takes one byte
abbrev slow : Os
slow = record {
  creates = true;
  writes = λ n. wrote 1;
  syncs_file = true;
  links = true;
  syncs_link = true;
  unlinks = true;
  syncs_removal = true;
  cleans_up = true;
}

abbrev receipts : Files
receipts = ("old.json", 7 ∷ []) ∷ []

abbrev body : Bytes
body = 1 ∷ 2 ∷ 3 ∷ []

write_loop-ended_example : ended (write_loop (write_fuel 3) (λ n. wrote 0) 0 3 0 0) ≡ true
write_loop-ended_example = write_loop-ended (λ n. wrote 0) 3

publish_bytes-Whole_example :
    All
      (Whole "new.json" (content "new.json" receipts) body)
      (publish_bytes slow "new.json" ".new" body receipts).0
publish_bytes-Whole_example = publish_bytes-Whole slow "new.json" ".new" refl body receipts

publish_intent-recorded_example :
    content "new.json" (publish_intent slow true "new.json" ".new" body receipts).1 ≡ some body
unfolding publish_intent publish_bytes content write_loop put remove
publish_intent-recorded_example =
    publish_intent-recorded slow true "new.json" ".new" body receipts refl refl
