-- ===== src/Engine/Audit.antt =====
-- No message without the evaluation that it rests on.
use scalper_v.Base.{
  ℕ, ◌≡◌, ◌≢◌, refl, sym, subst, ◌⊎◌, inl, inr, Bool, true, false, Option, none, some, List, [],
  ◌∷◌, All,
}
use scalper_v.Domain.{Side}
use scalper_v.Engine.{
  Signal, BotConfig, execute, reject, passthrough, ScoringResult, EvaluationRow, Message,
  order_request, signal_rejected, shadow_rejected_start, Outcome, insert_failed, dispatched, Env,
  Desk,
}
use scalper_v.Engine.Publish.{
  order_of, rejection_of, shadow_of, send, publish_order_request, publish_signal_rejected,
  publish_shadow_rejected_start, dispatch, persist, evaluation,
}
use scalper_v.Engine.Handler.{admit, handle, handle_all}
use scalper_v.Engine.View.{Kept, admit-View}

-- An evaluation that decides for a message: of its signal, and for an order request not a rejection,
-- for the others a rejection.
abbrev pub DecidesFor : Message → EvaluationRow → Type 0
DecidesFor (order_request o) r = (o.signal_id ≡ r.signal_id) × (r.decision ≢ reject)
DecidesFor (signal_rejected m) r = (m.signal_id ≡ r.signal_id) × (r.decision ≡ reject)
DecidesFor (shadow_rejected_start m) r = (m.signal_id ≡ r.signal_id) × (r.decision ≡ reject)

pub Backed : List EvaluationRow → Message → Type 0
Backed [] m = ⊥
Backed (r ∷ rs) m = DecidesFor m r ⊎ Backed rs m

-- Every message that was published has an evaluation in the table that decides for it.
abbrev pub IsAudited : Desk → Type 0
IsAudited d = All (Backed d.evaluations) d.published

Backed-still :
    (r : EvaluationRow) (rs : List EvaluationRow) (ms : List Message)
    → All (Backed rs) ms
    → All (Backed (r ∷ rs)) ms
unfolding Backed
Backed-still r rs [] a = tt
Backed-still r rs (m ∷ ms) a = (inr a.0, Backed-still r rs ms a.1)

send-IsAudited :
    (sent : Bool) (m : Message) (d : Desk)
    → Backed d.evaluations m
    → IsAudited d
    → IsAudited (send sent m d)
send-IsAudited true m d b a = (b, a)
send-IsAudited false m d b a = a

send-evaluations :
    (sent : Bool) (m : Message) (d : Desk) → (send sent m d).evaluations ≡ d.evaluations
send-evaluations true m d = refl
send-evaluations false m d = refl

-- What a call leaves is audited.
abbrev Leaves : Desk × Outcome → Type 0
Leaves (d, o) = IsAudited d

abbrev with_evaluation : Env → ℕ → ScoringResult → Desk → Desk
with_evaluation env id r d = record d { evaluations = evaluation env id r ∷ d.evaluations }

dispatch-IsAudited :
    (env : Env) (bot : BotConfig) (s : Signal) (side : Side) (id : ℕ) (r : ScoringResult) (d : Desk)
    → IsAudited (with_evaluation env id r d)
    → IsAudited (dispatch env bot s side id r (with_evaluation env id r d))
unfolding dispatch publish_order_request publish_signal_rejected publish_shadow_rejected_start
    shadow_of Backed
dispatch-IsAudited env bot s side id r d a =
    let d' = with_evaluation env id r d in
    elim r.decision
        as (λ x.
          r.decision ≡ x
          → IsAudited (elim x [
            | execute ↦ publish_order_request env bot s side id r d'
            | passthrough ↦ publish_order_request env bot s side id r d'
            | reject ↦
                publish_shadow_rejected_start env bot s id
                  (publish_signal_rejected env bot s id r d')
          ])) [
            | execute ↦ λ h.
                send-IsAudited env.publishes_order (order_request (order_of env bot s side id r)) d'
                  (inl (refl, λ k. cc)) a
            | passthrough ↦ λ h.
                send-IsAudited env.publishes_order (order_request (order_of env bot s side id r)) d'
                  (inl (refl, λ k. cc)) a
            | reject ↦ λ h.
                send-IsAudited env.publishes_shadow (shadow_rejected_start (shadow_of env bot s id))
                  (publish_signal_rejected env bot s id r d')
                  (subst (λ rows. Backed rows (shadow_rejected_start (shadow_of env bot s id)))
                    (sym (
                      send-evaluations env.publishes_rejection
                        (signal_rejected (rejection_of env bot s id r)) d'))
                    (inl (refl, h)))
                  (send-IsAudited env.publishes_rejection
                    (signal_rejected (rejection_of env bot s id r)) d' (inl (refl, h)) a)
          ]
      refl

persist-IsAudited :
    (env : Env) (bot : BotConfig) (s : Signal) (side : Side) (id : ℕ) (r : ScoringResult) (d : Desk)
    → IsAudited d
    → Leaves (persist env bot s side id r d)
unfolding persist
persist-IsAudited env bot s side id r d a =
    elim env.inserts
      as (λ b. Leaves (elim b [
        | false ↦ (d, insert_failed)
        | true ↦ (dispatch env bot s side id r (with_evaluation env id r d), dispatched)
      ])) [
        | false ↦ a
        | true ↦
            dispatch-IsAudited env bot s side id r d
              (Backed-still (evaluation env id r) d.evaluations d.published a)
      ]

Kept-IsAudited :
    (env : Env) (bot : BotConfig) (s : Signal) (d : Desk) (left : Desk × Outcome)
    → Kept env bot s d left
    → IsAudited d
    → IsAudited left.0
Kept-IsAudited env bot s d left k a = rw (k.1, k.2) a

handle-IsAudited :
    (env : Env) (bot : BotConfig) (o : Option Signal) (d : Desk)
    → IsAudited d
    → IsAudited (handle env bot o d).0
unfolding handle
handle-IsAudited env bot none d a = a
handle-IsAudited env bot (some s) d a = elim (admit-View env bot s d) [
  | inl k ↦ Kept-IsAudited env bot s d (admit env bot s d) k a
  | inr (admits, inl k) ↦ Kept-IsAudited env bot s d (admit env bot s d) k a
  | inr (admits, inr (side, e, passed, id, r, left)) ↦
      subst Leaves (sym left)
        (persist-IsAudited env bot s side id r (record d { latch = passed.latch }) a)
]

-- If every message published so far has an evaluation in the table that is of its signal and decided
-- for it (for an order request no rejection, for the two other messages a rejection), this still holds
-- after any signals in any environments, whichever inserts and publishes fail.
pub handle_all-IsAudited :
    (bot : BotConfig) (es : List (Env × Option Signal)) (d : Desk)
    → IsAudited d
    → IsAudited (handle_all bot es d)
unfolding handle_all
handle_all-IsAudited bot [] d a = a
handle_all-IsAudited bot ((env, s) ∷ es) d a =
    handle_all-IsAudited bot es (handle env bot s d).0 (handle-IsAudited env bot s d a)
