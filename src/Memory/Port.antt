-- ===== src/Memory/Port.antt =====
-- `MemoryStorage` as an implementation of the `Storage` protocol. `now` is what its clock returns
-- at the claim, the only one of these operations that reads it; none of them raises.
use txoutbox.Base.{ℕ, true, some}
use txoutbox.Storage.{Storage}
use txoutbox.Memory.{MemoryStorage, claim, ack, nack, release, dead_letter}

abbrev pub memory_storage : ℕ → Storage MemoryStorage
memory_storage now = record {
  claim = λ batch_size lease worker s.
      let (ms, s') = claim batch_size lease worker now s in (some ms, s');
  ack = λ ids worker s. (true, ack ids worker s);
  nack = λ id worker error retry_at s. (true, nack id worker error retry_at s);
  release = λ ids worker retry_at s. (true, release ids worker retry_at s);
  dead_letter = λ id worker error s. (true, dead_letter id worker error s);
}
