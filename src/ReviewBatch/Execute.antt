-- ===== src/ReviewBatch/Execute.antt =====
-- execute.go and command.go: the coordinator and its workers. A run is a list of events, any
-- interleaving of the coordinator's and the workers' actions; an event whose guard fails is no step.
pub mod Attempts
pub mod Limits
pub mod Stopped
pub mod Conclude
use software_factory_templat.Base.{
  ℕ, zero, suc, ◌+◌, ◌^◌, Bool, true, false, not, ◌&&◌, ◌||◌, Option, none, some, String, List, [],
  ◌∷◌, ◌++◌, ltb, leb, ◌==◌, if◌then◌else◌, Bytes, length,
}
use software_factory_templat.ReviewBatch.Types.{
  Status, Batch, FileCoverage, planned, complete, partial, failed, skipped,
}
use software_factory_templat.ReviewBatch.Admission.{
  Admission, Denial, canceled, stopped_early, exhausted, reserve, stop,
}
use software_factory_templat.ReviewBatch.Coverage.{Report, update_coverage}

-- The variables of a `runBatch` that is running.
pub record Worker : Type 0 where
  pub index : ℕ
  pub attempts : ℕ
  pub denied : Option Denial

-- `batchOutcome`
pub record Outcome : Type 0 where
  pub index : ℕ
  pub attempts : ℕ
  pub status : Status
  pub failure : Option String
  pub findings : Bytes

-- Where the coordinator is in the condition of its inner loop: before it, after `ctx.Err() == nil`, or
-- after `admission.open()`, which has released its mutex.
pub data Coordinator : Type 0 where
  idle polled cleared : Coordinator

abbrev pub is_resting : Coordinator → Bool
is_resting idle = true
is_resting polled = false
is_resting cleared = false

abbrev pub is_polled : Coordinator → Bool
is_polled idle = false
is_polled polled = true
is_polled cleared = false

abbrev pub is_cleared : Coordinator → Bool
is_cleared idle = false
is_cleared polled = false
is_cleared cleared = true

-- `runBatches`: `pending` is what `next` has not passed, `done` is the channel `completed`.
pub record Run : Type 0 where
  pub admission : Admission
  pub coordinator : Coordinator
  pub canceled : Bool
  pub batches : List Batch
  pub pending : List ℕ
  pub workers : List Worker
  pub done : List Outcome
  pub outcomes : List Outcome

module _ {ℓ} {A : Type ℓ} where
  abbrev pub nth : ℕ → List A → Option A
  nth n [] = none
  nth zero (x ∷ xs) = some x
  nth (suc n) (x ∷ xs) = nth n xs

  abbrev pub update_at : (A → A) → ℕ → List A → List A
  update_at f n [] = []
  update_at f zero (x ∷ xs) = f x ∷ xs
  update_at f (suc n) (x ∷ xs) = x ∷ update_at f n xs

  abbrev pub remove_at : ℕ → List A → List A
  remove_at n [] = []
  remove_at zero (x ∷ xs) = xs
  remove_at (suc n) (x ∷ xs) = x ∷ remove_at n xs

-- The loop over `loadCache`; `load` stands for the cache directory, found findings by batch ID.
module _ (load : Bytes → Option Bytes) where
  abbrev pub cached_batch : Option Bytes → Batch → Batch
  cached_batch none b = b
  cached_batch (some found) b = record b { status = complete; cached = true; findings = found }

  abbrev pub pend : Option Bytes → ℕ → List ℕ → List ℕ
  pend none i rest = i ∷ rest
  pend (some found) i rest = rest

  unfoldable pub load_batches : List Batch → List Batch
  load_batches [] = []
  load_batches (b ∷ bs) = cached_batch (load b.id) b ∷ load_batches bs

  unfoldable pub uncached : ℕ → List Batch → List ℕ
  uncached i [] = []
  uncached i (b ∷ bs) = pend (load b.id) i (uncached (suc i) bs)

  unfoldable pub new_run : Admission → List Batch → Run
  unfolding load_batches uncached
  new_run a bs = record {
    admission = a;
    coordinator = idle;
    canceled = false;
    batches = load_batches bs;
    pending = uncached 0 bs;
    workers = [];
    done = [];
    outcomes = [];
  }

-- `running`: started and not yet received.
abbrev pub running : Run → ℕ
running r = length r.workers + length r.done

abbrev pub new_worker : ℕ → Worker
new_worker i = record { index = i; attempts = 0; denied = none }

abbrev pub fail_batch : String → Batch → Batch
fail_batch e b = record b { status = failed; error = some e }

abbrev pub body_length : (Batch → Bytes) → Option Batch → ℕ
body_length request none = 0
body_length request (some b) = length (request b)

-- `len(body) > 1<<20`
abbrev pub request_limit : ℕ
request_limit = 2 ^ 20

-- One turn of the inner loop for the pending index `i`.
unfoldable pub start : (Batch → Bytes) → ℕ → List ℕ → Run → Run
unfolding stop
start request i rest r =
    if ltb request_limit (body_length request (nth i r.batches))
    then record r {
      pending = rest;
      batches =
          update_at (fail_batch "shared context and batch exceed the request limit") i r.batches;
      admission = stop r.admission;
    }
    else record r { pending = rest; workers = new_worker i ∷ r.workers }

abbrev pub start_next : (Batch → Bytes) → List ℕ → Run → Run
start_next request [] r = r
start_next request (i ∷ rest) r = start request i rest r

abbrev pub has_next : List ℕ → Bool
has_next [] = false
has_next (i ∷ rest) = true

-- The condition of the inner loop up to `ctx.Err() == nil`.
unfoldable pub poll : ℕ → Run → Run
poll parallelism r =
    if is_resting r.coordinator
      && ltb (running r) parallelism
      && has_next r.pending
      && not r.canceled
    then record r { coordinator = polled }
    else r

-- `admission.open()`, under the mutex of the admission.
unfoldable pub check_open : Run → Run
check_open r =
    if is_polled r.coordinator
    then record r { coordinator = if r.admission.stopped then idle else cleared }
    else r

-- The body of the inner loop, whatever has happened since its condition held.
unfoldable pub dispatch : (Batch → Bytes) → Run → Run
unfolding start
dispatch request r =
    if is_cleared r.coordinator
    then start_next request r.pending (record r { coordinator = idle })
    else r

-- `denied = admission.reserve(…)` and `result.attempts++`
abbrev pub attempt_result : Option Denial → Worker → Worker
attempt_result none w = record w { attempts = suc w.attempts; denied = none }
attempt_result (some d) w = record w { denied = some d }

abbrev pub attempt_of : Option Worker → ℕ → Option Denial × Admission → Run → Run
attempt_of none k res r = r
attempt_of (some w) k res r = record r {
  admission = res.1;
  workers = update_at (attempt_result res.0) k r.workers;
}

-- `BeforeAttempt` in the worker at `k`; `expired` is its own deadline.
unfoldable pub attempt : ℕ → Bool → ℕ → ℕ → Run → Run
unfolding reserve
attempt k expired input tokens r =
    attempt_of (nth k r.workers) k (reserve (r.canceled || expired) input tokens r.admission) r

-- `findings.Len() > 2<<20`
abbrev pub findings_limit : ℕ
findings_limit = 2 ^ 21

abbrev pub failure_of : Option Denial → Bool → Status × String
failure_of (some exhausted) ended = (skipped, "run-wide review budget exhausted")
failure_of (some stopped_early) ended =
    (skipped, "review admission stopped after an incomplete batch")
failure_of (some canceled) true = (failed, "review canceled or batch deadline exceeded")
failure_of (some canceled) false = (failed, "review request failed without complete findings")
failure_of none true = (failed, "review canceled or batch deadline exceeded")
failure_of none false = (failed, "review request failed without complete findings")

-- The rest of `runBatch` after the provider's client returned: whether it failed, `size` is
-- `findings.Len()`, and `findings` has the key already replaced.
unfoldable pub outcome : Bool → Bool → ℕ → Bytes → Worker → Outcome
outcome failure ended size findings w =
    if failure || ltb findings_limit size
    then record {
      index = w.index;
      attempts = w.attempts;
      status = (failure_of w.denied ended).0;
      failure = some (failure_of w.denied ended).1;
      findings = [];
    }
    else record {
      index = w.index;
      attempts = w.attempts;
      status = complete;
      failure = none;
      findings = findings;
    }

unfoldable pub finish_of : Option Worker → ℕ → Bool → Bool → ℕ → Bytes → Run → Run
unfolding outcome stop
finish_of none k failure expired size findings r = r
finish_of (some w) k failure expired size findings r = record r {
  admission = if failure || ltb findings_limit size then stop r.admission else r.admission;
  workers = remove_at k r.workers;
  done = r.done ++ outcome failure (r.canceled || expired) size findings w ∷ [];
}

-- The worker at `k` returns.
unfoldable pub finish : ℕ → Bool → Bool → ℕ → Bytes → Run → Run
unfolding finish_of
finish k failure expired size findings r =
    finish_of (nth k r.workers) k failure expired size findings r

abbrev pub apply_outcome : Outcome → Batch → Batch
apply_outcome o b = record b { status = o.status; error = o.failure; findings = o.findings }

abbrev pub collect_from : List Outcome → Run → Run
collect_from [] r = r
collect_from (o ∷ os) r = record r {
  done = os;
  outcomes = r.outcomes ++ o ∷ [];
  batches = update_at (apply_outcome o) o.index r.batches;
}

-- `result := <-completed`, outside of the inner loop.
unfoldable pub collect : Run → Run
collect r = if is_resting r.coordinator then collect_from r.done r else r

pub data Event : Type 0 where
  checked : Event
  opened : Event
  dispatched : Event
  attempted : (worker : ℕ) (expired : Bool) (input tokens : ℕ) → Event
  finished : (worker : ℕ) (failure expired : Bool) (size : ℕ) (findings : Bytes) → Event
  collected : Event
  interrupted : Event

module _ (request : Batch → Bytes) (parallelism : ℕ) where
  unfoldable pub step : Event → Run → Run
  unfolding poll check_open dispatch attempt finish collect
  step checked r = poll parallelism r
  step opened r = check_open r
  step dispatched r = dispatch request r
  step (attempted k expired input tokens) r = attempt k expired input tokens r
  step (finished k failure expired size findings) r = finish k failure expired size findings r
  step collected r = collect r
  step interrupted r = record r { canceled = true }

  unfoldable pub run_batches : List Event → Run → Run
  unfolding step
  run_batches [] r = r
  run_batches (e ∷ es) r = run_batches es (step e r)
