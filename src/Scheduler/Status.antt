-- ===== src/Scheduler/Status.antt =====
-- `NodeStatus::parse` and `NodeStatus::as_str` of src/scheduler/mod.rs. The message of an error, which
-- repeats the text, is left out.
use pidag.Base.{◌≡◌, ◌↔◌, refl, ap, ◌∙◌, subst, Option, none, some, if◌then◌else◌, if-intro}
use pidag.Text.{Text, codes, same, same→eq}
use pidag.Scheduler.{NodeStatus, pending, running, done, failed, blocked}

unfoldable pub parse : Text → Option NodeStatus
parse s =
    if same s (codes "Pending")
    then some pending
    else if same s (codes "Running")
    then some running
    else if same s (codes "Done")
    then some done
    else if same s (codes "Failed")
    then some failed
    else if same s (codes "Blocked")
    then some blocked
    else none

unfoldable pub as_str : NodeStatus → Text
as_str pending = codes "Pending"
as_str running = codes "Running"
as_str done = codes "Done"
as_str failed = codes "Failed"
as_str blocked = codes "Blocked"

parse-as_str : (status : NodeStatus) → parse (as_str status) ≡ some status
unfolding parse as_str same
parse-as_str pending = refl
parse-as_str running = refl
parse-as_str done = refl
parse-as_str failed = refl
parse-as_str blocked = refl

abbrev Reads : Text → Option NodeStatus → Type 0
Reads s none = Unit
Reads s (some status) = s ≡ as_str status

parse-Reads : (s : Text) → Reads s (parse s)
unfolding parse as_str
parse-Reads s = if-intro (Reads s) (same s (codes "Pending")) (same→eq s _) (λ _.
    if-intro (Reads s) (same s (codes "Running")) (same→eq s _) (λ _.
      if-intro (Reads s) (same s (codes "Done")) (same→eq s _) (λ _.
        if-intro (Reads s) (same s (codes "Failed")) (same→eq s _)
          (λ _. if-intro (Reads s) (same s (codes "Blocked")) (same→eq s _) (λ _. tt)))))

-- A stored text parses as a status exactly when it is what that status prints: no other text makes up
-- a status.
pub parse_iff : (s : Text) (status : NodeStatus) → (parse s ≡ some status) ↔ (s ≡ as_str status)
parse_iff s status = (λ h. subst (Reads s) h (parse-Reads s), λ e. ap parse e ∙ parse-as_str status)
