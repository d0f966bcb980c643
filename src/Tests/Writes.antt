-- ===== src/Tests/Writes.antt =====
-- The SQLite writer on concrete tasks.
use kakao_x_termux.Prelude.{ℕ, ◌+◌, ◌≡◌, false, List, [], ◌∷◌, length, if◌then◌else◌, eqb}
use kakao_x_termux.Writer.{fresh, message_processed, WriteOutcome, written, locked}
use kakao_x_termux.Writer.Accounting.{
  WriterStep, enqueues, drains, settles, run, refusals, settled, writer_accounting,
}

-- A database that is locked once.
abbrev locked_once : ℕ → WriteOutcome
locked_once n = if eqb n 0 then locked else written

-- Three tasks for a queue of two, of which the worker takes and writes one.
abbrev steps : List WriterStep
steps =
    enqueues (message_processed "e1")
    ∷ enqueues (message_processed "e2")
    ∷ enqueues (message_processed "e3")
    ∷ drains
    ∷ settles locked_once
    ∷ drains
    ∷ []

writer_accounting_example :
    (run steps (fresh 2 4 false)).stats.submitted + refusals steps (fresh 2 4 false)
    ≡ settled (run steps (fresh 2 4 false))
      + length (run steps (fresh 2 4 false)).queue
      + length (run steps (fresh 2 4 false)).batch
writer_accounting_example = writer_accounting 2 4 false steps
