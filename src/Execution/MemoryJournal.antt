-- ===== src/Execution/MemoryJournal.antt =====
-- The memory log as the journal of the use cases.
use atoha.Eventlog.Memory.{
  Log, begin_attempt, append_all, events_by_attempt, action_by_id, attempt_ids,
}
use atoha.Execution.Ports.{Journal}

abbrev pub memory_journal : Journal
memory_journal = record {
  State = Log;
  begin_attempt = λ ctx action attempt events l.
      let b = begin_attempt ctx action attempt events l in (b.claimed, b.failure, b.log);
  append_all = append_all;
  events_by_attempt = events_by_attempt;
  action_by_id = action_by_id;
  attempt_ids = attempt_ids;
}
