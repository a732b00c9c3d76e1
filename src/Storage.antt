-- ===== src/Storage.antt =====
-- The `Storage` protocol of src/txoutbox/protocols.py over a state `S`. A call returns the state
-- after it; `none` and `false` stand for a call that raised.
use txoutbox.Base.{ℕ, String, Bool, Option, List}
use txoutbox.Message.{OutboxMessage}

pub record Storage (S : Type 0) : Type 0 where
  pub claim : ℕ → ℕ → String → S → Option (List OutboxMessage) × S
  pub ack : List ℕ → String → S → Bool × S
  pub nack : ℕ → String → String → ℕ → S → Bool × S
  pub release : List ℕ → String → ℕ → S → Bool × S
  pub dead_letter : ℕ → String → String → S → Bool × S
