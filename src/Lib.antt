-- ===== src/Lib.antt =====
-- The software factory's Go packages: the configuration rewriter, the batched review, the
-- budget ledger and the loop controller.
--
-- Config (internal/config): a configuration is a text of rows `key: value`. Config/Value is the value
-- grammar and the snapshot reader of readers.go (normalizeValue, GetBytes). Config/Write is
-- rewriteConfig of write.go, one setting at a time. Config/Edit is editplan.go: NewEditPlan indexes the
-- rows of the selected keys, Set edits the index, Bytes renders it once. The refinement of the plan
-- against the rewriter is in Config/Edit/Refine and Config/Edit/Many, on the invariant of
-- Config/Edit/Plan.
--
-- ReviewBatch (internal/reviewbatch): ReviewBatch/Split is splitFile of plan.go, which cuts the hunks
-- of a diff into fragments; ReviewBatch/Plan is makePlan, which groups the fragments of related files
-- and packs them into batches; ReviewBatch/Admission is reviewAdmission of execute.go, the allowances
-- that all workers share; ReviewBatch/Execute is runBatch and runBatches with execute of command.go;
-- ReviewBatch/Coverage is updateCoverage, which tells what the completed batches cover.
--
-- Budget (internal/budget): Budget/Json is decoded JSON, Budget/Numbers the integers and amounts of
-- numbers.go, Budget/Domain the accepted words of config.go and history.go, Budget/History
-- validateHistory with HasActive and HasUnresolved, and Budget/Ledger the owner of a row and PublishPID
-- of lifecycle.go with the write of storage.go; Budget/Finalize is Finalize for a configuration without a
-- cost threshold. Budget/Plan is MakePlan of plan.go and Budget/Admit is admitObserved of lifecycle.go,
-- with the floats, the sums of numbers.go and the answers about owners as parameters.
--
-- Loop (internal/loop): Loop/State is the checkpoint row and what the environment answers,
-- Loop/Turn a step that goes on or ends the run, Loop/Checkpoint save, fresh and finish of
-- manual_run.go, Loop/Check is checkStage, Loop/Invoke is invoke and reconcile of bounded.go with
-- Budget/Observation (observation.go of the budget), Loop/Runes and Loop/Verdict are the texts and
-- parseVerdict of bounded_input.go, and Loop/Bounded is bounded and run. Loop/Protocol is the
-- specification of the evidence as steps, Loop/Holds and Loop/Calm say what a step leaves alone;
-- Loop/Source, Loop/Verified, Loop/Observed, Loop/Contract, Loop/Reviewed and Loop/Rounds follow
-- fresh, checkStage, invoke, parseVerdict, the review and the rounds; Loop/Runs is about whole
-- runs and Loop/Ownership about processes that may still be going on. Loop/History is the
-- validation of the checkpoint file of history.go with Lookup,
-- Loop/Resume is AssessResume of resume.go, Loop/Planned is makeManualPlan of manual.go.
--
-- How the state corresponds. A Go string or slice of bytes is the list of its bytes. An error is its
-- message in Result, and an empty message that means none is an Option. A map is an association list
-- that keeps one row for a key. The pointers of EditPlan.byKey are positions in the list of appended
-- rows. A loop over bytes.Cut at newlines is recursion on the rows that Base/Rows splits the text into.
-- The coordinator and its goroutines are a list of events, any interleaving of them: the condition of
-- the coordinator's inner loop up to its admission check, that check, the body that starts a batch, the
-- receipt of an outcome; a worker's attempt and its return; and a cancellation. The mutex makes the
-- check and a reservation atomic, and other events may fall between the check and the start. An event
-- whose guard fails changes nothing.
--
-- The environment of the loop controller is a record of answers by the number of the call, so that
-- a theorem holds for every sequence of answers, cancellation and failed writes included.
--
-- Bounds. Integers are natural numbers: sizes stay far below 2^63, and where Go subtracts, the
-- model either adds on the other side or subtracts what is known to be smaller. The rounds of
-- split_hunk are bounded by the number of lines, which is enough since each round takes a line;
-- decimal is given the number itself. A bounded run takes one unit of fuel for each round, and the
-- loops over runes one for each byte.
--
-- Parameters: the digest, JSON encoding, the review cache, the body of a request, and what the
-- provider's client answers (failures, findings, sizes and deadlines) are arguments, as are the
-- process number, big integers and floats, and the publication of the state file. In Config,
-- Budget, Loop/History and Loop/Resume the context is never cancelled. The decoder of JSON and of
-- UTF-8, the digest and the encoder of findings are arguments of the loop controller. Loop/Resume
-- takes the comparisons with the requested time as arguments, and does not compute the remaining
-- seconds. Files, locks and publication by rename, the token
-- usage and elapsed times of a review, the diff parser, and the warnings of a completion over a
-- cost threshold are not modelled.
pub mod Base
pub mod Config
pub mod ReviewBatch
pub mod Budget
pub mod Loop
pub mod Examples
