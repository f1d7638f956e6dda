-- ===== src/Cluster/Coordinator/Lock.antt =====
-- platform/deploy/controlplane/cluster: what a run does with its lock.
use runfabric.Prelude.{
  ℕ, String, ◌≡◌, refl, ◌∙◌, ap, Bool, true, false, some, List, [], ◌∷◌, if◌then◌else◌, arith, inl,
  inr, Option-cases,
}
use runfabric.Errors.{Error}
use runfabric.Locking.Handle
use runfabric.Locking.Handle.{Handle}
use runfabric.Lease
use runfabric.Lease.{
  Managed, Beat, Signal, done, tick, beat, beats, after_renewal, received, receive, manage,
}
use runfabric.Cluster.Coordinator.{Held, renew_held, release_held, managed_lock, fail_if_lease_lost}

-- The lock of a run while its handle is the one that was acquired and nobody released it.
module _ {L : Type 0} (h : Handle L) where
  pub record IsLive (m : Managed (Held L)) : Type 0 where
    pub renews : m.renew ≡ some renew_held
    pub releases : m.release_fn ≡ some release_held
    pub held : m.once ≡ false
    pub handle : m.heartbeat.store.0 ≡ h

  renewal_handle :
      (lease_for : ℕ) (held : Held L) → (after_renewal (renew_held lease_for held)).store.0 ≡ held.0
  unfolding after_renewal renew_held
  renewal_handle lease_for (g, l) = elim (Option-cases (Handle.renew lease_for g l).0) [
    | inl e ↦ rw (e, after_renewal)
    | inr (x, e) ↦ rw (e, after_renewal)
  ]

  beat_handle :
      (lease_for : ℕ) (x : Signal) (b : Beat (Held L))
      → (beat (some renew_held) lease_for x b).store.0 ≡ b.store.0
  unfolding beat
  beat_handle lease_for done b = ground arith
  beat_handle lease_for tick b = ground (arith, renewal_handle lease_for b.store)

  done_stops :
      (lease_for : ℕ) (b : Beat (Held L))
      → (beat (some renew_held) lease_for done b).running ≡ false
  unfolding beat
  done_stops lease_for b = ground arith

  beats_handle :
      (lease_for : ℕ) (signals : List Signal) (b : Beat (Held L))
      → (beats (some renew_held) lease_for signals b).store.0 ≡ b.store.0
  unfolding beats
  beats_handle lease_for [] b = refl
  beats_handle lease_for (x ∷ xs) b =
      beats_handle lease_for xs (beat (some renew_held) lease_for x b) ∙ beat_handle lease_for x b

  pub managed_lock-IsLive : (lease_for : ℕ) (l : L) → IsLive (managed_lock lease_for (h, l))
  unfolding managed_lock
  managed_lock-IsLive lease_for l = record {
    renews = refl;
    releases = refl;
    held = refl;
    handle = refl;
  }

  pub wait-IsLive :
      (signals : List Signal) (m : Managed (Held L)) → IsLive m → IsLive (Lease.wait signals m)
  unfolding Lease.wait
  wait-IsLive signals m k = record {
    renews = k.renews;
    releases = k.releases;
    held = k.held;
    handle =
        ap (λ f. (beats f m.lease_for signals m.heartbeat).store.0) k.renews
        ∙ beats_handle m.lease_for signals m.heartbeat
        ∙ k.handle;
  }

  pub fail_if_lease_lost-IsLive :
      (text_of : Error → String) (ctx_done : Bool) (service stage : String) (m : Managed (Held L))
      → IsLive m
      → IsLive (fail_if_lease_lost text_of ctx_done service stage m).1
  unfolding fail_if_lease_lost received
  fail_if_lease_lost-IsLive text_of true service stage m k = k
  fail_if_lease_lost-IsLive text_of false service stage m k =
      elim (Option-cases m.heartbeat.buffered) [
        | inl e ↦
            rw (e, received)
              (record {
                renews = k.renews;
                releases = k.releases;
                held = k.held;
                handle = k.handle;
              })
        | inr (x, e) ↦
            rw (e, received)
              (record {
                renews = k.renews;
                releases = k.releases;
                held = k.held;
                handle = k.handle;
              })
      ]

  -- The heartbeat has ended, and the last thing done to the locks is the release of the handle.
  pub record IsGivenBack (m : Managed (Held L)) (l : L) : Type 0 where
    pub once : m.once ≡ true
    pub stopped : m.heartbeat.running ≡ false
    pub last : m.heartbeat.store ≡ (release_held (h, l)).1

  drain_handle :
      (late : List Signal) (m : Managed (Held L))
      → IsLive m
      → ((Lease.drain late m).store.0 ≡ h) × ((Lease.drain late m).running ≡ false)
  unfolding Lease.drain
  drain_handle late m k =
      let b = beats (some renew_held) m.lease_for late m.heartbeat in
      rw k.renews (
        beat_handle m.lease_for done b ∙ beats_handle m.lease_for late m.heartbeat ∙ k.handle,
        done_stops m.lease_for b,
      )

  pub release-IsGivenBack :
      (late : List Signal) (m : Managed (Held L))
      → IsLive m
      → (m' : Managed (Held L)) × (l : L) × ((Lease.release late (some m)).1 ≡ some m')
        × IsGivenBack m' l
  unfolding Lease.release Lease.run_release
  release-IsGivenBack late m k =
      let (same, stopped) = drain_handle late m k in
      let b = Lease.drain late m in
      (
        Lease.run_release (some release_held) b m,
        b.store.1,
        ap (λ o. some (if o then m else Lease.run_release m.release_fn b m)) k.held
            ∙ ap (λ f. some (Lease.run_release f b m)) k.releases,
        record {
          once = refl;
          stopped = stopped;
          last = ap (λ x. (release_held (x, b.store.1)).1) same;
        },
      )
