-- ===== src/Targets/Status.antt =====
-- The status of a target, which the service, the counts and the `WHERE` clause compute each in their way.
use kakao_x_termux.Prelude.{ℕ, ◌≡◌, refl, String, Option, none, some, Bool, true, false, arith}
use kakao_x_termux.Targets.{
  TargetStatus, available, expiring, expired, unknown, all, target_status, classify_target_status,
}
use kakao_x_termux.Targets.Query.{status_clause}

-- Whether the clause of a wanted status takes a target of a given status.
abbrev pub selects : TargetStatus → TargetStatus → Bool
selects all s = true
selects available available = true
selects expiring expiring = true
selects expired expired = true
selects expired unknown = true
selects unknown unknown = true
selects _ _ = false

-- The service and the counts of the repository give each target the same status, and the clause for a
-- wanted status selects exactly the targets of that status, but for EXPIRED, which also selects those
-- of status UNKNOWN.
pub target_status_lem :
    (t : Option String) (at : Option ℕ) (now window : ℕ) (wanted : TargetStatus)
    → (classify_target_status t at now window ≡ target_status t at now window)
      × (status_clause wanted now window t at ≡ selects wanted (target_status t at now window))
unfolding target_status classify_target_status status_clause
target_status_lem none none now window available = (refl, refl)
target_status_lem none none now window expiring = (refl, refl)
target_status_lem none none now window expired = (refl, refl)
target_status_lem none none now window unknown = (refl, refl)
target_status_lem none none now window all = (refl, refl)
target_status_lem none (some at) now window available = (refl, refl)
target_status_lem none (some at) now window expiring = (refl, refl)
target_status_lem none (some at) now window expired = (refl, refl)
target_status_lem none (some at) now window unknown = (refl, refl)
target_status_lem none (some at) now window all = (refl, refl)
target_status_lem (some t) none now window available = (refl, refl)
target_status_lem (some t) none now window expiring = (refl, refl)
target_status_lem (some t) none now window expired = (refl, refl)
target_status_lem (some t) none now window unknown = (refl, refl)
target_status_lem (some t) none now window all = (refl, refl)
target_status_lem (some t) (some at) now window wanted = (refl, ground arith)
