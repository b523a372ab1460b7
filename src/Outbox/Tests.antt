-- ===== src/Outbox/Tests.antt =====
-- The outbox's theorem for two workers that run the same job.
use betmaxxing.Prelude.{◌≡◌, refl, true, List, [], ◌∷◌}
use betmaxxing.Outbox.Defs.{DeliveryKey, empty_outbox, of_key, unsent}
use betmaxxing.Outbox.Once.{
  OutboxCall, call_claim, call_sent, authorised, authorised_once, claims_key,
}
use betmaxxing.Table.{scalar}
use betmaxxing.Outbox.Once.{is_there}
use betmaxxing.Outbox.Unsent.{outbox_run, confirms_key, unconfirmed_visible}

abbrev alert : DeliveryKey
alert = record { job_id = "j1"; alert_key = "a1"; channel = "telegram" }

abbrev two_workers : List OutboxCall
two_workers = call_claim alert 5 ∷ call_claim alert 6 ∷ call_sent alert 7 ∷ call_claim alert 8 ∷ []

authorised_once_example : authorised alert empty_outbox two_workers ≡ 1
unfolding claims_key
authorised_once_example = authorised_once alert two_workers

abbrev claimed_only : List OutboxCall
claimed_only = call_claim alert 5 ∷ call_claim alert 6 ∷ []

unconfirmed_visible_example :
    is_there (scalar (of_key alert) (unsent (outbox_run empty_outbox claimed_only))) ≡ true
unfolding claims_key confirms_key
unconfirmed_visible_example = unconfirmed_visible alert claimed_only refl
