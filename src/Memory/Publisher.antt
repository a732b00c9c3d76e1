-- ===== src/Memory/Publisher.antt =====
-- src/txoutbox/adapters/memory.py: `MemoryPublisher`, and how `_publish_one` of
-- src/txoutbox/relay.py calls it. An exception is the text that the relay makes of it.
use txoutbox.Base.{String, Bool, Option, none, some, List, [], ◌∷◌, ◌++◌, map, if◌then◌else◌}
use txoutbox.Message.{OutboxMessage}

-- `delay` only takes time.
pub record MemoryPublisher : Type 0 where
  pub published : List OutboxMessage
  pub fail : Option (OutboxMessage → Option String)

-- `self.fail is not None and (error := self.fail(message)) is not None`
unfoldable pub refusal : MemoryPublisher → OutboxMessage → Option String
refusal p m = elim p.fail [ none ↦ none | some f ↦ f m ]

-- What it raises, if it raises.
unfoldable pub publish : OutboxMessage → MemoryPublisher → Option String × MemoryPublisher
unfolding refusal
publish m p = elim (refusal p m) [
  | none ↦ (none, record p { published = p.published ++ m ∷ [] })
  | some error ↦ (some error, p)
]

unfoldable pub topics : MemoryPublisher → List String
topics p = map (λ m. m.topic) p.published

-- A publish that `asyncio.timeout` cuts short does not get past the sleep.
unfoldable pub publish_in_time :
    (OutboxMessage → Bool) → OutboxMessage → MemoryPublisher → Option String × MemoryPublisher
unfolding publish
publish_in_time times_out m p = if times_out m then (some "TimeoutError: ", p) else publish m p

unfoldable pub publish_all :
    (OutboxMessage → Bool) → List OutboxMessage → MemoryPublisher → MemoryPublisher
unfolding publish_in_time
publish_all times_out [] p = p
publish_all times_out (m ∷ ms) p = publish_all times_out ms (publish_in_time times_out m p).1
