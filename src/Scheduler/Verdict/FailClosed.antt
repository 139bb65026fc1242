-- ===== src/Scheduler/Verdict/FailClosed.antt =====
-- A verdict passes only by its leading token, and a quorum counts such verdicts.
use pidag.Base.{
  ℕ, suc, ◌≤◌, ◌<◌, ◌≡◌, ◌↔◌, ◌⊎◌, refl, ap, Bool, true, false, ◌&&◌, some, List, [], ◌∷◌, ◌++◌,
  ltb, leb, if◌then◌else◌, arith, Bool-cases, Option-cases, inl, inr,
}
use pidag.Text.{Text, codes}
use pidag.Text.Search.{strip_prefix, strip_prefix_sound, strip_prefix-append}
use pidag.Text.Trim.{trim, is_alphanumeric}
use pidag.Map.{Map}
use pidag.Dag.{QuorumConfig, Node}
use pidag.Scheduler.{done, failed, NodeState}
use pidag.Scheduler.Verdict.{
  boundary_ok, try_tokens, pass_token, fail_token, parse_critic_verdict, output_of, count_verdicts,
  compute_quorum,
}

-- Nothing follows, or a character that is not alphanumeric.
abbrev pub IsEnded : (ℕ → Bool) → Text → Type 0
IsEnded wide [] = Unit
IsEnded wide (c ∷ cs) = is_alphanumeric wide c ≡ false

boundary_ok_iff :
    (wide : ℕ → Bool) (rest : Text) → (boundary_ok wide rest ≡ true) ↔ IsEnded wide rest
unfolding boundary_ok
boundary_ok_iff wide [] = (λ h. tt, λ h. refl)
boundary_ok_iff wide (c ∷ cs) = (λ h. ground arith, λ h. ground arith)

-- The trimmed reply is the token `PASS`, alone or before a character that is not alphanumeric.
pub record IsPass (wide : ℕ → Bool) (reply : Text) : Type 0 where
  pub rest : Text
  pub token : trim reply ≡ codes "PASS" ++ rest
  pub boundary : IsEnded wide rest

abbrev tokens_after_pass : List (Text × Bool)
tokens_after_pass = (fail_token, false) ∷ []

-- No other token passes.
try_fail_token :
    (wide : ℕ → Bool) (trimmed : Text) → (try_tokens wide trimmed tokens_after_pass).0 ≡ false
unfolding try_tokens
try_fail_token wide trimmed = elim (Option-cases (strip_prefix fail_token trimmed)) [
  | inl e ↦ rw (e, try_tokens)
  | inr (rest, e) ↦ elim (Bool-cases (boundary_ok wide rest)) [
    | inl b ↦ rw (e, try_tokens, b)
    | inr b ↦ rw (e, try_tokens, b)
  ]
]

-- A critic's reply passes exactly when its trimmed text is `PASS` and then ends or goes on with a
-- character that is not alphanumeric. Every other reply fails.
pub parse_critic_verdict_iff :
    (wide : ℕ → Bool) (reply : Text)
    → ((parse_critic_verdict wide reply).0 ≡ true) ↔ IsPass wide reply
unfolding parse_critic_verdict try_tokens
parse_critic_verdict_iff wide reply =
    let trimmed = trim reply in
    let others = try_fail_token wide trimmed in
    elim (Option-cases (strip_prefix pass_token trimmed)) [
      | inl e ↦ (
        λ h. cc (rw (e, try_tokens) at h, others),
        λ p. cc (e, ap (strip_prefix pass_token) p.token, strip_prefix-append pass_token p.rest),
      )
      | inr (rest, e) ↦ elim (Bool-cases (boundary_ok wide rest)) [
        | inl b ↦ (
          λ h. record {
            rest = rest;
            token = strip_prefix_sound pass_token trimmed rest e;
            boundary = (boundary_ok_iff wide rest).0 b;
          },
          λ p. rw (e, try_tokens, b),
        )
        | inr b ↦ (
          λ h. cc (rw (e, try_tokens, b) at h, others),
          λ p. cc (
            e,
            ap (strip_prefix pass_token) p.token,
            strip_prefix-append pass_token p.rest,
            (boundary_ok_iff wide p.rest).1 p.boundary,
            b,
          ),
        )
      ]
    ]

-- The verdict on what the node `id` left.
abbrev pub passes : (ℕ → Bool) → Map NodeState → Text → Bool
passes wide node_state id = (parse_critic_verdict wide (output_of id node_state)).0

abbrev pub count_if {ℓ} : {A : Type ℓ} → (A → Bool) → List A → ℕ
count_if p [] = 0
count_if p (x ∷ xs) = if p x then suc (count_if p xs) else count_if p xs

count_verdicts-eq-count_if :
    (wide : ℕ → Bool) (node_state : Map NodeState) (ids : List Text)
    → (count_verdicts wide node_state ids).0 ≡ count_if (passes wide node_state) ids
unfolding count_verdicts
count_verdicts-eq-count_if wide node_state [] = refl
count_verdicts-eq-count_if wide node_state (id ∷ ids) =
    rw (count_verdicts-eq-count_if wide node_state ids)

compute_quorum-state :
    (wide : ℕ → Bool) (node : Node) (node_state : Map NodeState) (q : QuorumConfig)
    → node.quorum ≡ some q
    → (compute_quorum wide node node_state).state ≡ (
        if ltb 0 q.min_pass && leb q.min_pass (count_if (passes wide node_state) q.of)
        then done
        else failed)
unfolding compute_quorum
compute_quorum-state wide node node_state q e =
    rw (e, count_verdicts-eq-count_if wide node_state q.of)

-- A node with a quorum ends `Done` exactly when the quorum's threshold is not 0 and at least that many of the counted
-- nodes left a passing verdict; otherwise it ends `Failed`.
pub compute_quorum_iff :
    (wide : ℕ → Bool) (node : Node) (node_state : Map NodeState) (q : QuorumConfig)
    → node.quorum ≡ some q
    → (((compute_quorum wide node node_state).state ≡ done)
        ↔ ((0 < q.min_pass) × (q.min_pass ≤ count_if (passes wide node_state) q.of)))
      × (((compute_quorum wide node node_state).state ≡ done)
          ⊎ ((compute_quorum wide node node_state).state ≡ failed))
compute_quorum_iff wide node node_state q e =
    rw (compute_quorum-state wide node node_state q e)
      ((λ h. ground arith, λ h. ground arith), ground arith)
