-- ===== src/Scheduler/Dispatch/Added.antt =====
-- The requests that a part of a dispatch adds, and how many of them are in a set of calls.
use pidag.Base.{
  ℕ, zero, suc, ◌+◌, ◌≤◌, ◌≡◌, sym, ap, ◌∙◌, Bool, true, false, List, [], ◌∷◌, ◌++◌, All,
  All-append, arith, if◌then◌else◌,
}
use mathlib.Core.List.{append_assoc}
use pidag.Text.{Text}
use pidag.Dag.{ModelRef}
use pidag.Scheduler.Outside.{Run, Request}
use pidag.Scheduler.Dispatch.Verification.{is_eligible}

-- A set of calls, by the names of their models and the numbers of their attempts.
abbrev pub Calls : Type 0
Calls = Text → ℕ → Bool

abbrev pub one_if : Bool → ℕ
one_if true = 1
one_if false = 0

-- How many of the requests are in the set.
unfoldable pub tally : Calls → List Request → ℕ
tally f [] = 0
tally f (q ∷ qs) = one_if (f q.model q.attempt) + tally f qs

tally-append : (f : Calls) (qs rs : List Request) → tally f (qs ++ rs) ≡ tally f qs + tally f rs
unfolding tally
tally-append f [] rs = omega arith
tally-append f (q ∷ qs) rs = omega (arith, tally-append f qs rs)

-- From `s` to `t` requests are added of which each satisfies `P` and at most `limit` are in the set.
pub record Sent (P : Request → Type 0) (f : Calls) (limit : ℕ) (s t : Run) : Type 0 where
  pub added : List Request
  pub made : t.requests ≡ added ++ s.requests
  pub each : All P added
  pub few : tally f added ≤ limit

-- How many of the calls of a model, from the attempt `attempt` on, are in the set.
unfoldable pub attempts_limit : Calls → Text → (left attempt : ℕ) → ℕ
attempts_limit f model zero attempt = 0
attempts_limit f model (suc left) attempt =
    one_if (f model attempt) + attempts_limit f model left (suc attempt)

-- How many of the calls of the eligible models are in the set, where each model is called once for
-- each attempt.
unfoldable pub models_limit : Calls → Bool → ℕ → List ModelRef → ℕ
models_limit f allow_paid attempts [] = 0
models_limit f allow_paid attempts (m ∷ ms) =
    let rest = models_limit f allow_paid attempts ms in
    if is_eligible allow_paid m then attempts_limit f m.name attempts 1 + rest else rest

module _ (P : Request → Type 0) (f : Calls) where
  pub Sent-same : (limit : ℕ) (s t : Run) → t.requests ≡ s.requests → Sent P f limit s t
  Sent-same limit s t e = record {
    added = [];
    made = e;
    each = tt;
    few = unfold tally in omega arith;
  }

  pub Sent-more : (k l : ℕ) {s t : Run} → k ≤ l → Sent P f k s t → Sent P f l s t
  Sent-more k l h m = record {
    added = m.added;
    made = m.made;
    each = m.each;
    few = omega (arith, m.few);
  }

  pub Sent-trans : (k l : ℕ) {s t u : Run} → Sent P f k s t → Sent P f l t u → Sent P f (k + l) s u
  Sent-trans k l {s} m n = record {
    added = n.added ++ m.added;
    made = n.made ∙ (ap (λ r. n.added ++ r) m.made ∙ sym (append_assoc n.added m.added s.requests));
    each = All-append P n.added m.added n.each m.each;
    few = omega (arith, tally-append f n.added m.added, m.few, n.few);
  }

  pub Sent-from :
      (k : ℕ) (s s' : Run) {t : Run} → s'.requests ≡ s.requests → Sent P f k s' t → Sent P f k s t
  Sent-from k s s' e m = Sent-more (0 + k) k (omega arith) (Sent-trans 0 k (Sent-same 0 s s' e) m)
