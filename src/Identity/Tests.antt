-- ===== src/Identity/Tests.antt =====
-- The identity theorems at concrete events: two providers, an ambiguity and an operator's decision.
use betmaxxing.Prelude.{
  ◌≡◌, refl, false, none, some, ◌*◌, ℕ, String, List, [], ◌∷◌, ok, err, sort_by, sort_with,
}
use betmaxxing.Table.{scalar, select, update, Keyed}
use betmaxxing.Names.Defs.{Python, normalize_participant}
use betmaxxing.Identity.Rows.{
  football, scheduled, resolved, created, IdentityDb, empty_identity, ProviderEvent, source_key,
}
use betmaxxing.Identity.Alias.{
  AliasRow, AliasProblem, import_aliases, candidate_pair_keys, alias_keys, participant_pair_key,
}
use betmaxxing.Identity.Match.{match_events, already_mapped}
use betmaxxing.Identity.Resolve.{resolve, sort_texts}
use betmaxxing.Identity.Review.{resolve_review, already_resolved}
use betmaxxing.Identity.Trace.{
  IdentityCall, call_resolve, identity_after, identity_run, answered, lookup,
}
use betmaxxing.Identity.Stable.{Assigns, identity_after-Assigns}
use betmaxxing.Identity.Answers.{identity_stable}
use betmaxxing.Identity.Invariant.{IdentityInv, identity_run-IdentityInv}
use betmaxxing.Identity.Queue.{QueueInv}
use betmaxxing.Identity.Ambiguity.{left_open, OnlyQueued, ambiguity-OnlyQueued}
use betmaxxing.Identity.Decision.{resolve_review_once}
use betmaxxing.Identity.OneEach.{of_slot, one_event_each}

abbrev plain : Python
plain = record {
  nfkd = λ s. s;
  combining = λ c. false;
  lower = λ s. s;
  strip = λ s. s;
  casefold = λ s. s;
  isoformat = λ n. "t";
  str_of = λ n. "n";
}

abbrev fixture : String → String → ℕ → ProviderEvent
fixture provider id start = record {
  provider = provider;
  provider_event_id = id;
  sport = football;
  competition = "ligue 1";
  home_name = "lyon";
  away_name = "nice";
  start_time_utc = start;
  status = scheduled;
  stage = none;
  season = none;
}

abbrev hour : ℕ
hour = 3600 * 1000000

abbrev at_noon : ProviderEvent
at_noon = fixture "odds" "e1" (1000 * hour)

abbrev next_day : ProviderEvent
next_day = fixture "odds" "e1" (1024 * hour)

first_answer : answered (resolve plain at_noon "a" 5 empty_identity).0 ≡ some (created, "evt_a")
unfolding resolve match_events candidate_pair_keys normalize_participant select scalar
first_answer = refl

-- the kick-off moves by a day
identity_stable_example :
    answered
      (resolve plain next_day "b" 9
        (identity_run plain (resolve plain at_noon "a" 5 empty_identity).1 [])).0
    ≡ some (resolved, "evt_a")
identity_stable_example =
    identity_stable plain at_noon next_day "a" "b" 5 9 empty_identity [] {status = created}
      first_answer refl refl

identity_after-Assigns_example :
    Assigns
      (λ k. lookup k empty_identity.source_map)
      (λ k. lookup k (identity_after plain empty_identity (call_resolve at_noon "a" 5)).source_map)
identity_after-Assigns_example =
    identity_after-Assigns plain empty_identity (call_resolve at_noon "a" 5)

-- two legs from one provider, then another provider's event that both could be
abbrev two_legs : List IdentityCall
two_legs = call_resolve at_noon "a" 5 ∷ call_resolve (fixture "odds" "e2" (1002 * hour)) "b" 6 ∷ []

abbrev after_legs : IdentityDb
after_legs = identity_run plain empty_identity two_legs

abbrev unclear : ProviderEvent
unclear = fixture "other" "x9" (1001 * hour)

identity_run-IdentityInv_example : IdentityInv after_legs
identity_run-IdentityInv_example = identity_run-IdentityInv plain two_legs

one_event_each_example : Keyed of_slot after_legs.source_map
one_event_each_example = one_event_each plain two_legs (refl, (refl, tt))

is_unclear : left_open (resolve plain unclear "c" 7 after_legs).0 ≡ some ("evt_a" ∷ "evt_b" ∷ [])
unfolding identity_run resolve match_events candidate_pair_keys normalize_participant select scalar
    alias_keys sort_by sort_texts sort_with participant_pair_key already_mapped
is_unclear = refl

legs-QueueInv : QueueInv after_legs.source_map after_legs.next_review_id after_legs.reviews
legs-QueueInv = (identity_run-IdentityInv plain two_legs).queue_inv

ambiguity-OnlyQueued_example :
    OnlyQueued
      (source_key unclear)
      ("evt_a" ∷ "evt_b" ∷ [])
      after_legs
      (resolve plain unclear "c" 7 after_legs).1
ambiguity-OnlyQueued_example =
    ambiguity-OnlyQueued plain unclear "c" 7 after_legs ("evt_a" ∷ "evt_b" ∷ []) legs-QueueInv
      is_unclear

abbrev queued_db : IdentityDb
queued_db = (resolve plain unclear "c" 7 after_legs).1

abbrev IsAccepted : Type 0
IsAccepted =
    (resolve_review 1 "evt_b" "anne" 8 queued_db).0
    ≡ ok record {
      status = resolved;
      internal_id = some "evt_b";
      detail = "";
      candidate_internal_ids = [];
      rescheduled = false;
    }

accepted : IsAccepted
unfolding identity_run resolve match_events candidate_pair_keys normalize_participant select scalar
    alias_keys sort_by sort_texts sort_with participant_pair_key already_mapped update
    resolve_review
accepted = refl

resolve_review_once_example :
    resolve_review 1 "evt_a" "paul" 9 (resolve_review 1 "evt_b" "anne" 8 queued_db).1
    ≡ (err already_resolved, (resolve_review 1 "evt_b" "anne" 8 queued_db).1)
resolve_review_once_example =
    resolve_review_once 1 "evt_b" "anne" 8 "evt_a" "paul" 9 queued_db accepted

abbrev lines : List AliasRow
lines =
    record {
      line = 1;
      sport = "football";
      alias = "OL";
      canonical_participant_id = "football:lyon";
      source = "odds";
    }
    ∷ record {
      line = 2;
      sport = "football";
      alias = "OL";
      canonical_participant_id = "football:nice";
      source = "odds";
    }
    ∷ []

contradiction_quarantined :
    (import_aliases plain lines []).0.quarantined ≡ (2, AliasProblem.contradiction) ∷ []
unfolding import_aliases scalar
contradiction_quarantined = refl
