-- ===== src/Browser/Waiting.antt =====
-- worker/browser.go: waiting for an element.
use remote_hands.Shared.{
  ℕ, zero, suc, ◌+◌, Bool, true, Option, none, some, Text, ltb, if◌then◌else◌, Result, ok, err,
  Error, plain, ℤ, is_positive, to_ℕ,
}
use remote_hands.Action.{pure, fail, ◌>>=◌, ◌>>◌}
use remote_hands.Rod.{Rod}
use remote_hands.Browser.{Method, browse, observe, outcome, wrapped}
use remote_hands.Browser.Selector.{
  find_element, find_by_role, find_with, parse_selector, Strategy, role, ref,
}

-- `remotehandsv1.WaitForState`; `other_state` is a number that it does not name.
pub data WaitForState : Type 0 where
  unspecified_state visible hidden attached detached other_state : WaitForState

-- Of a time in milliseconds that may be missing: the default if it is not positive.
abbrev pub positive_or : ℕ → Option ℤ → ℕ
positive_or default none = default
positive_or default (some z) = if is_positive z then to_ℕ z else default

-- The model's own error: the rounds of the loop were not enough.
abbrev pub out_of_rounds : Error
out_of_rounds = plain "out of rounds"

module _ (rod : Rod) where
  -- What a round of the loop does when its test failed. A cancelled request ends the loop.
  unfoldable pub next_round : ℕ → ℕ → Method rod (Unit {0}) → Method rod (Unit {0})
  next_round deadline interval rest = do
    now ← observe rod rod.now
    (if ltb deadline now
        then fail (plain "timed out after %v")
        else (browse rod (rod.sleep interval) (plain "context canceled") >> rest))

  -- What follows a test.
  unfoldable pub after_test :
      ℕ → ℕ → Method rod (Unit {0}) → Result Error (Unit {0}) → Method rod (Unit {0})
  after_test deadline interval again (ok _) = pure tt
  after_test deadline interval again (err _) = next_round deadline interval again

  -- The loop of pollUntil. A test that succeeds ends it; its error does not matter otherwise.
  unfoldable pub poll_rounds : ℕ → ℕ → ℕ → Method rod (Unit {0}) → Method rod (Unit {0})
  poll_rounds zero deadline interval test = fail out_of_rounds
  poll_rounds (suc rounds) deadline interval test =
      outcome rod test >>= after_test deadline interval (poll_rounds rounds deadline interval test)

  -- pollUntil, in milliseconds. Each round but the last waits for the interval.
  unfoldable pub poll_until : ℕ → ℕ → Method rod (Unit {0}) → Method rod (Unit {0})
  poll_until timeout interval test = do
    start ← observe rod rod.now
    poll_rounds (suc (suc timeout)) (start + timeout) interval test

  abbrev pub ignoring {ℓ} : {A : Type ℓ} → Method rod A → Method rod (Unit {0})
  ignoring method = method >>= λ _. pure tt

  -- The test for an element that is hidden: it is not found, or is not seen to be visible.
  unfoldable pub not_seen : Option Bool → Method rod (Unit {0})
  not_seen (some true) = fail (plain "element %q still visible")
  not_seen _ = pure tt

  unfoldable pub hidden_if : Result Error rod.Element → Method rod (Unit {0})
  hidden_if (err _) = pure tt
  hidden_if (ok el) = observe rod (rod.visible el) >>= not_seen

  unfoldable pub test_hidden : rod.Page → Text → Method rod (Unit {0})
  test_hidden page selector = outcome rod (find_element rod page selector) >>= hidden_if

  -- The test for an element that is gone.
  unfoldable pub detached_if : Result Error rod.Element → Method rod (Unit {0})
  detached_if (err _) = pure tt
  detached_if (ok _) = fail (plain "element %q still attached")

  unfoldable pub test_detached : rod.Page → Text → Method rod (Unit {0})
  test_detached page selector = outcome rod (find_element rod page selector) >>= detached_if

  -- The element is awaited: by Rod itself, or by polling for a role. A reference is tried once, on
  -- the page without the time limit.
  unfoldable pub await_element : rod.Page → ℕ → Strategy → Text → Method rod (Unit {0})
  await_element page timeout role value =
      poll_until timeout 100 (ignoring (find_by_role rod page value))
  await_element page timeout ref value = ignoring (find_with rod page ref value)
  await_element page timeout strategy value =
      ignoring (find_with rod (rod.timeout page timeout) strategy value)

  unfoldable pub await_state : rod.Page → ℕ → WaitForState → Text → Method rod (Unit {0})
  await_state page timeout hidden selector = poll_until timeout 100 (test_hidden page selector)
  await_state page timeout detached selector = poll_until timeout 100 (test_detached page selector)
  await_state page timeout other_state selector = pure tt
  await_state page timeout _ selector =
      let (strategy, value) = parse_selector selector in await_element page timeout strategy value

  -- actionWaitForSelector behind its guard. A missing state is `visible`.
  unfoldable pub wait_for_selector :
      rod.Page → Option ℤ → Option WaitForState → Text → Method rod (Option Text)
  wait_for_selector page timeout_ms state selector = do
    let wanted : WaitForState = elim state [ none ↦ visible | some st ↦ st ]
    wrapped rod (await_state page (positive_or 30000 timeout_ms) wanted selector)
        (plain "wait for selector: %w")
    pure none
