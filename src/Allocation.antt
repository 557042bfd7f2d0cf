-- ===== src/Allocation.antt =====
-- The retry loop that `WireguardStore.AllocateNextFreeIP` (src/internal/store/wg.go) and
-- `InstanceStore.AllocateNextFreeIP` (src/internal/store/instance.go) both write out, over the
-- highest address of a table and its insertion.
pub mod Laws
pub mod Frame
pub mod Exhaustion
use kws.Prelude.{ℕ, zero, suc, ◌+◌, Bool, Option, none, some, ltb, if◌then◌else◌}
use kws.World.{
  World, Error, serialization, host_exhaustion, M, Result, ok, err, pure, raise, gets, try, ⊤,
  ◌>>=◌, ◌>>◌, Services, call,
}

-- `ip = 2` for an empty table, and `ip += 1` otherwise.
abbrev pub next_ip : Option ℕ → ℕ
next_ip none = 2
next_ip (some top) = top + 1

-- The bound is tested only where a row was found.
abbrev pub over_limit : Option ℕ → ℕ → Bool
over_limit none limit = Bool.false
over_limit (some top) limit = ltb limit (top + 1)

abbrev pub is_conflict : Error → Bool
is_conflict serialization = Bool.true
is_conflict _ = Bool.false

-- What one round works with: the address in the Go variable `ip`, and the error of the closure.
abbrev pub Round : Type 0
Round = ℕ × Result ⊤

module _ (s : Services) (highest : World s.Memory → Option ℕ) (insert : ℕ → M s.Memory ⊤)
    (limit : ℕ) where
  -- After the INSERT, the COMMIT.
  commit_after : ℕ → Result ⊤ → M s.Memory Round
  unfolding call
  commit_after ip (err e) = pure (ip, err e)
  commit_after ip (ok _) = do committed ← try (call s); pure (ip, committed)

  -- After the SELECT, the test of the bound and the INSERT.
  insert_after : ℕ → Option ℕ → Result ⊤ → M s.Memory Round
  unfolding commit_after
  insert_after ip top (err e) = pure (ip, err e)
  insert_after ip top (ok _) =
      if over_limit top limit
      then pure (next_ip top, err host_exhaustion)
      else (do inserted ← try (insert (next_ip top)); commit_after (next_ip top) inserted)

  -- The closure: it keeps the old address if the SELECT fails.
  closure : ℕ → M s.Memory Round
  unfolding insert_after
  closure ip = do selected ← try (call s); top ← gets highest; insert_after ip top selected

  -- Only statements of the transaction ran since `before`: all but the clock is undone.
  abbrev rolled_back : World s.Memory → World s.Memory → World s.Memory
  rolled_back before after = record before { tick = after.tick }

  abbrev settle : World s.Memory → Result Round × World s.Memory → Result Round × World s.Memory
  settle before (ok (ip, ok _), after) = (ok (ip, ok tt), after)
  settle before (ok (ip, err e), after) = (ok (ip, err e), rolled_back before after)
  settle before (err e, after) = (err e, rolled_back before after)

  -- The closure in its transaction: `defer tx.Rollback` undoes it unless it was committed.
  unfoldable pub transact : ℕ → M s.Memory Round
  unfolding closure
  transact ip w = settle w (closure ip w)

  -- What the loop does with the closure's error: `break`, `continue` or `return`.
  unfoldable pub after_round : (ℕ → M s.Memory ℕ) → Round → M s.Memory ℕ
  after_round again (ip, ok _) = pure ip
  after_round again (ip, err e) = elim (is_conflict e) [
    | Bool.true ↦ again ip
    | Bool.false ↦ raise e
  ]

  -- `for i := range maxRetries`; the rounds left, and `ip` from the rounds before. When no round
  -- is left the code falls out of the loop and returns `ip`.
  unfoldable pub allocate_loop : ℕ → ℕ → M s.Memory ℕ
  unfolding after_round
  allocate_loop zero ip = pure ip
  allocate_loop (suc rounds) ip = do
    call s
    round ← transact ip
    after_round (allocate_loop rounds) round
