-- ===== src/Scheduler/Rounds.antt =====
-- The rounds of `claim_due`: what each claims, and that the rows of the others stay.
use betmaxxing.Prelude.{
  ℕ, suc, ◌≤◌, String, ◌≡◌, refl, ap, true, false, ◌&&◌, none, some, List, [], ◌∷◌, arith, str_eq,
  opt_str_eq, if◌then◌else◌, All, eq_iff, str_eq_refl, opt_str_eq_iff,
}
use betmaxxing.Table.{
  scalar, row_count, Keyed, row_count-update, scalar-update, row_count_narrow, All-map, All-both,
  head-Keyed, tail-Keyed, row_count_zero, scalar_sound,
}
use betmaxxing.Scheduler.Row.{JobState, running, state_eq, SchedulerJobRow, Jobs, by_id, ClaimedJob}
use betmaxxing.Scheduler.Claim.{unchanged_since, start, claim_of, claim_one, claim_rows}

-- the claims of a list of rows, each with its own token
abbrev pub claims_of : ℕ → (ℕ → String) → ℕ → Jobs → List ClaimedJob
claims_of expiry tokens n [] = []
claims_of expiry tokens n (row ∷ rows) =
    claim_of expiry (tokens n) row ∷ claims_of expiry tokens (suc n) rows

-- every row of a query's result is still what its id finds
abbrev pub Found : Jobs → SchedulerJobRow → Type 0
Found jobs row = scalar (by_id row.job_id) jobs ≡ some row

pub own_id : (r : SchedulerJobRow) → by_id r.job_id r ≡ true
own_id r = str_eq_refl r.job_id

pub state_eq_refl : (s : JobState) → state_eq s s ≡ true
state_eq_refl s = ground arith

pub unchanged_self :
    (row : SchedulerJobRow)
    → (state_eq row.state row.state && opt_str_eq row.claim_token row.claim_token) ≡ true
unchanged_self row =
    rw (state_eq_refl row.state) ((opt_str_eq_iff row.claim_token row.claim_token).1 refl)

-- The row of a claimed job says what the claim says.
pub record Holds (moment expiry : ℕ) (worker : String) (jobs : Jobs) (c : ClaimedJob) : Type 0 where
  pub row : SchedulerJobRow
  pub found : scalar (by_id c.job_id) jobs ≡ some row
  pub is_running : row.state ≡ running
  pub token : row.claim_token ≡ some c.claim_token
  pub attempts : row.attempts ≡ c.attempts
  pub lease : row.lease_expires_at ≡ some expiry
  pub owner : row.lease_owner ≡ some worker

pub other_id :
    (a k : String) (r : SchedulerJobRow) → str_eq a k ≡ false → by_id k r ≡ true → by_id a r ≡ false
other_id a k r ne e = ground (arith, eq_iff a k, eq_iff r.job_id k, eq_iff r.job_id a)

module _ (moment expiry : ℕ) (worker : String) where
  -- A row that has not changed since the query is claimed.
  pub claim_one-claims :
      (token : String) (row : SchedulerJobRow) (jobs : Jobs)
      → Keyed by_id jobs
      → Found jobs row
      → (claim_one moment expiry worker token row jobs).0 ≡ some (claim_of expiry token row)
  unfolding claim_one
  claim_one-claims token row jobs keyed found =
      rw
        (
          row_count_narrow (by_id row.job_id)
              (λ r. state_eq r.state row.state && opt_str_eq r.claim_token row.claim_token) jobs
              (keyed row.job_id) found,
          unchanged_self row,
        )
        refl

  pub claim_one-Keyed :
      (token : String) (row : SchedulerJobRow) (jobs : Jobs)
      → Keyed by_id jobs
      → (k : String) → row_count (by_id k) (claim_one moment expiry worker token row jobs).1 ≤ 1
  unfolding claim_one
  claim_one-Keyed token row jobs keyed k =
      rw
        (row_count-update (by_id k) (unchanged_since row) (start moment expiry worker token row)
          (λ r. refl) jobs)
        (keyed k)

  -- What an id finds after the round: only the claimed row has changed.
  pub scalar-claim_one :
      (token : String) (row : SchedulerJobRow) (jobs : Jobs) (k : String)
      → scalar (by_id k) (claim_one moment expiry worker token row jobs).1
        ≡ elim (scalar (by_id k) jobs) [
          | none ↦ none
          | some r ↦
              some (if unchanged_since row r then start moment expiry worker token row r else r)
        ]
  unfolding claim_one
  scalar-claim_one token row jobs k =
      scalar-update (by_id k) (unchanged_since row) (start moment expiry worker token row)
        (λ r. refl) jobs

  pub claim_one-other :
      (token : String) (row r : SchedulerJobRow) (jobs : Jobs)
      → by_id row.job_id r ≡ false
      → Found jobs r
      → Found (claim_one moment expiry worker token row jobs).1 r
  claim_one-other token row r jobs ne found =
      rw (scalar-claim_one token row jobs r.job_id, found, ne) refl

  module _ (tokens : ℕ → String) where
    -- From a table with unique ids, the loop claims every row that the query returned.
    pub claim_rows-claims :
        (n : ℕ) (rows jobs : Jobs)
        → Keyed by_id rows
        → Keyed by_id jobs
        → All (Found jobs) rows
        → (claim_rows moment expiry worker tokens n rows jobs).0 ≡ claims_of expiry tokens n rows
    unfolding claim_rows
    claim_rows-claims n [] jobs kr kj found = refl
    claim_rows-claims n (row ∷ rows) jobs kr kj found =
        let jobs' = (claim_one moment expiry worker (tokens n) row jobs).1 in
        rw (claim_one-claims (tokens n) row jobs kj found.0) (
          ap (λ cs. claim_of expiry (tokens n) row ∷ cs)
            (claim_rows-claims (suc n) rows jobs'
              (tail-Keyed by_id (λ r. r.job_id) own_id row rows kr)
              (claim_one-Keyed (tokens n) row jobs kj)
              (All-map _ _ rows (λ r (ne, f). claim_one-other (tokens n) row r jobs ne f)
                (All-both _ _ rows
                  (row_count_zero (by_id row.job_id) rows
                    (head-Keyed by_id (λ r. r.job_id) own_id row rows kr))
                  found.1))))

    pub claim_rows-Keyed :
        (n : ℕ) (rows jobs : Jobs)
        → Keyed by_id jobs
        → (k : String)
        → row_count (by_id k) (claim_rows moment expiry worker tokens n rows jobs).1 ≤ 1
    unfolding claim_rows
    claim_rows-Keyed n [] jobs keyed = keyed
    claim_rows-Keyed n (row ∷ rows) jobs keyed =
        claim_rows-Keyed (suc n) rows (claim_one moment expiry worker (tokens n) row jobs).1
          (claim_one-Keyed (tokens n) row jobs keyed)

    -- An id that the query did not return is left alone.
    pub claim_rows-other :
        (n : ℕ) (rows jobs : Jobs) (k : String) {r : SchedulerJobRow}
        → All (λ row. str_eq row.job_id k ≡ false) rows
        → scalar (by_id k) jobs ≡ some r
        → scalar (by_id k) (claim_rows moment expiry worker tokens n rows jobs).1 ≡ some r
    unfolding claim_rows
    claim_rows-other n [] jobs k ne found = found
    claim_rows-other n (row ∷ rows) jobs k {r} ne found =
        claim_rows-other (suc n) rows (claim_one moment expiry worker (tokens n) row jobs).1 k
          {r = r} ne.1
          (rw
            (
              scalar-claim_one (tokens n) row jobs k,
              found,
              other_id row.job_id k r ne.0 (scalar_sound (by_id k) jobs found),
            )
            refl)

    -- Each claim is what the table says of its job when the loop is over.
    pub claim_rows-Holds :
        (n : ℕ) (rows jobs : Jobs)
        → Keyed by_id rows
        → Keyed by_id jobs
        → All (Found jobs) rows
        → All
            (Holds moment expiry worker (claim_rows moment expiry worker tokens n rows jobs).1)
            (claims_of expiry tokens n rows)
    unfolding claim_rows
    claim_rows-Holds n [] jobs kr kj found = tt
    claim_rows-Holds n (row ∷ rows) jobs kr kj found =
        let jobs' = (claim_one moment expiry worker (tokens n) row jobs).1 in
        let missed =
          row_count_zero (by_id row.job_id) rows
            (head-Keyed by_id (λ r. r.job_id) own_id row rows kr) in
        (
          record {
            row = start moment expiry worker (tokens n) row row;
            found = claim_rows-other (suc n) rows jobs' row.job_id missed (
                rw
                  (
                    scalar-claim_one (tokens n) row jobs row.job_id,
                    found.0,
                    own_id row,
                    unchanged_self row,
                  )
                  refl);
            is_running = refl;
            token = refl;
            attempts = refl;
            lease = refl;
            owner = refl;
          },
          claim_rows-Holds (suc n) rows jobs' (tail-Keyed by_id (λ r. r.job_id) own_id row rows kr)
              (claim_one-Keyed (tokens n) row jobs kj)
              (All-map _ _ rows (λ r (ne, f). claim_one-other (tokens n) row r jobs ne f)
                (All-both _ _ rows missed found.1)),
        )
