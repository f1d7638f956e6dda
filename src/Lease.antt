-- ===== src/Lease.antt =====
-- internal/lease/lease.go: the heartbeat that keeps a lease alive, and its release. The goroutine
-- of the heartbeat is a step function over what its `select` receives; `S` is the state that
-- renewals and the release change. A duration counts nanoseconds.
pub mod Laws
mod Tests
use runfabric.Prelude.{
  ℕ, ◌/◌, Bool, true, false, Option, none, some, List, [], ◌∷◌, ltb, if◌then◌else◌,
}
use runfabric.Errors.{Error}

abbrev pub second : ℕ
second = 1000000000

unfoldable pub default_interval : ℕ → ℕ
default_interval ttl = let interval = ttl / 3 in if ltb interval second then second else interval

-- What the `select` of the loop takes: the context's end, or a tick.
pub data Signal : Type 0 where
  done tick : Signal

-- The error channel has room for one value, and is closed when the goroutine exits.
pub record Beat (S : Type 0) : Type 0 where
  pub running : Bool
  pub buffered : Option Error
  pub store : S

abbrev pub RenewFunc : Type 0 → Type 0
RenewFunc S = ℕ → S → Option Error × S

module _ {S : Type 0} where
  -- A goroutine without a renewal function closes its channel at once.
  unfoldable pub start_heartbeat : Option (RenewFunc S) → S → Beat S
  start_heartbeat none s = record { running = false; buffered = none; store = s }
  start_heartbeat (some renew) s = record { running = true; buffered = none; store = s }

  -- A renewal that fails is the last one: its error is sent, and the goroutine exits.
  unfoldable pub after_renewal : Option Error × S → Beat S
  after_renewal (none, s) = record { running = true; buffered = none; store = s }
  after_renewal (some e, s) = record { running = false; buffered = some e; store = s }

  unfoldable pub beat : Option (RenewFunc S) → ℕ → Signal → Beat S → Beat S
  unfolding after_renewal
  beat none lease_for signal b = b
  beat (some renew) lease_for done b = if b.running then record b { running = false } else b
  beat (some renew) lease_for tick b =
      if b.running then after_renewal (renew lease_for b.store) else b

  unfoldable pub beats : Option (RenewFunc S) → ℕ → List Signal → Beat S → Beat S
  beats renew lease_for [] b = b
  beats renew lease_for (x ∷ xs) b = beats renew lease_for xs (beat renew lease_for x b)

-- `Managed`: `once` says that the release has run.
pub record Managed (S : Type 0) : Type 0 where
  pub renew : Option (RenewFunc S)
  pub lease_for : ℕ
  pub release_fn : Option (S → Option Error × S)
  pub heartbeat : Beat S
  pub once : Bool
  pub release_err : Option Error

module _ {S : Type 0} where
  unfoldable pub manage : Option (RenewFunc S) → ℕ → Option (S → Option Error × S) → S → Managed S
  unfolding start_heartbeat
  manage renew lease_for release_fn s = record {
    renew = renew;
    lease_for = lease_for;
    release_fn = release_fn;
    heartbeat = start_heartbeat renew s;
    once = false;
    release_err = none;
  }

  -- The heartbeat takes what its `select` receives while the holder works.
  unfoldable pub wait : List Signal → Managed S → Managed S
  wait signals m = record m { heartbeat = beats m.renew m.lease_for signals m.heartbeat }

  -- `m.cancel()`, and the loop that drains the channel until it is closed: `late` are the ticks that
  -- the goroutine still takes before it sees the end of its context.
  unfoldable pub drain : List Signal → Managed S → Beat S
  drain late m =
      let b = beat m.renew m.lease_for done (beats m.renew m.lease_for late m.heartbeat) in
      record b { buffered = none }

  unfoldable pub run_release : Option (S → Option Error × S) → Beat S → Managed S → Managed S
  run_release none b m = record m { heartbeat = b; once = true }
  run_release (some f) b m =
      let (e, s) = f b.store in
      record m { heartbeat = record b { store = s }; once = true; release_err = e }

  -- The body of `once.Do` runs in the first call alone; the receiver may be `nil`.
  unfoldable pub release : List Signal → Option (Managed S) → Option Error × Option (Managed S)
  unfolding run_release drain
  release late none = (none, none)
  release late (some m) =
      let m' = if m.once then m else run_release m.release_fn (drain late m) m in
      (m'.release_err, some m')

-- A receive from the error channel that does not wait.
pub data Receive : Type 0 where
  nothing closed : Receive
  value : Error → Receive

module _ {S : Type 0} where
  -- The value is taken out of the channel.
  unfoldable pub received : Option Error → Managed S → Receive × Managed S
  received (some e) m = (value e, record m { heartbeat = record (m.heartbeat) { buffered = none } })
  received none m = (if m.heartbeat.running then nothing else closed, m)

  unfoldable pub receive : Managed S → Receive × Managed S
  unfolding received
  receive m = received m.heartbeat.buffered m
