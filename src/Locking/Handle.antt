-- ===== src/Locking/Handle.antt =====
-- internal/state/types/types.go: the handle of a held lock, over a backend with the state `S`.
-- `LeaseTime` counts nanoseconds since 1970, as the clock and `time.Duration` do.
use runfabric.Prelude.{ℕ, String, ◌=?=◌, Bool, true, false, Option, none, some, if◌then◌else◌}
use runfabric.Errors.{Error}

-- The interfaces `Releaser`, `Renewer` and `OwnedReleaser`.
abbrev Releaser : Type 0 → Type 0
Releaser S = String → String → S → Option Error × S

abbrev Renewer : Type 0 → Type 0
Renewer S = String → String → String → ℕ → S → Option Error × S

abbrev OwnedReleaser : Type 0 → Type 0
OwnedReleaser S = String → String → String → S → Option Error × S

pub record Handle (S : Type 0) : Type 0 where
  pub service : String
  pub stage : String
  pub owner_token : String
  pub held : Bool
  pub r : Releaser S
  pub n : Option (Renewer S)
  pub or : Option (OwnedReleaser S)

module _ {S : Type 0} where
  unfoldable pub new_handle :
      String
      → String
      → String
      → Releaser S
      → Option (Renewer S)
      → Option (OwnedReleaser S)
      → Handle S
  new_handle service stage owner_token r n or = record {
    service = service;
    stage = stage;
    owner_token = owner_token;
    held = true;
    r = r;
    n = n;
    or = or;
  }

  -- `h.or != nil && h.OwnerToken != ""`
  unfoldable pub release_backend : Option (OwnedReleaser S) → Handle S → S → Option Error × S
  release_backend none h s = h.r h.service h.stage s
  release_backend (some owned) h s =
      if h.owner_token =?= ""
      then h.r h.service h.stage s
      else owned h.service h.stage h.owner_token s

  -- The handle is released where the backend returned no error.
  unfoldable pub release_after : Handle S → Option Error × S → Option Error × Handle S × S
  release_after h (some e, s) = (some e, h, s)
  release_after h (none, s) = (none, record h { held = false }, s)

  unfoldable pub release : Handle S → S → Option Error × Handle S × S
  unfolding release_backend release_after
  release h s = if h.held then release_after h (release_backend h.or h s) else (none, h, s)

  unfoldable pub renew : ℕ → Handle S → S → Option Error × S
  renew lease_for h s =
      if h.held
      then (elim h.n [ none ↦ (none, s) | some f ↦ f h.service h.stage h.owner_token lease_for s ])
      else (none, s)
