-- ===== src/Notifyd/Directory.antt =====
-- The name directory: the module `dnd` is not part of the repository, so its sessions are a parameter.
use blitzmail.Common.{ℕ, Bytes, Bool, Option}
use blitzmail.Errors.{Error}

-- How a call of the directory ends: a value, a DNDProtocolError with its text, or another exception.
pub data Outcome {ℓ} (A : Type ℓ) : Type ℓ where
  given : A → Outcome A
  refused : Bytes → Outcome A
  raised : Error → Outcome A

pub record Directory : Type 1 where
  pub Session : Type 0
  -- the function that completes a validation, `resp[1]`
  pub Answer : Type 0
  -- `dnd.DNDSession()` at a reading of the clock; none is a DNDError
  pub connect : ℕ → Option Session
  -- `begin_validate(name, 'uid')`: the challenge and the function that takes the response to it
  pub begin_validate : Session → Bytes → Outcome (Bytes × Answer)
  -- `resp[1](pw, True)`, and the field uid of its result
  pub answer : Answer → Bytes → Outcome Bytes
  -- does `close()` raise a DNDError?
  pub close_fails : Session → Bool
  pub encrypt_challenge : Bytes → Bytes → Bytes
