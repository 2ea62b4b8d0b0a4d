-- ===== src/Mqtt/Service/Results.antt =====
-- The remembered results of mqtt/service.py, and the outcomes of `apply`.
use jebao_flow_engine.Base.{
  ℕ, ◌≤◌, ◌≡◌, refl, sym, ap, ◌∙◌, false, not, ◌&&◌, arith, ltb, leb, Option-cases, ◌⊎◌, inl, inr,
  none, some, [], ◌∷◌, ◌++◌, String, eq_iff, eq_refl, length,
}
use jebao_flow_engine.Base.Dict.{Dict, lookup}
use jebao_flow_engine.Base.Result.{
  ok, ok-injective, if-cases, >>=-eq-ok, require, require-eq-ok, key_error,
}
use jebao_flow_engine.Config.{AppConfig, is_observer}
use jebao_flow_engine.Floats.{Floats}
use jebao_flow_engine.Groups.{holds_of}
use jebao_flow_engine.Mqtt.Models.{GroupCommand, GroupCommandResult, GroupStatePayload}
use jebao_flow_engine.Mqtt.Service.{
  Service, remove, push_last, drop_oldest, remember, groups, is_emergency_stop,
  max_deduplication_entries,
}
use jebao_flow_engine.Mqtt.Service.Commands.{
  merge, commit, reject, is_clear, apply_change, apply_group, apply,
}
use jebao_flow_engine.Patterns.Interface.{Calculator}

module _ {ℓ} {V : Type ℓ} where
  pub length-drop_oldest : (limit : ℕ) (d : Dict V) → length (drop_oldest limit d) ≤ limit
  unfolding drop_oldest
  length-drop_oldest limit [] = omega arith
  length-drop_oldest limit (entry ∷ d) = ground (arith, length-drop_oldest limit d)

  lookup-push :
      (key : String) (value : V) (d : Dict V)
      → lookup key (remove key d ++ ((key, value) ∷ [])) ≡ some value
  unfolding lookup remove
  lookup-push key value [] = rw eq_refl refl
  lookup-push key value ((k, v) ∷ d) = ground (arith, eq_iff k key, lookup-push key value d)

  pub lookup-drop_oldest-push_last :
      (limit : ℕ) (key : String) (value : V) (d : Dict V)
      → 1 ≤ limit
      → lookup key (drop_oldest limit (push_last key value d)) ≡ some value
  unfolding lookup remove drop_oldest push_last
  lookup-drop_oldest-push_last limit key value [] h = ground (arith, eq_refl key)
  lookup-drop_oldest-push_last limit key value ((k, v) ∷ d) h =
      ground (arith, lookup-drop_oldest-push_last limit key value d h, lookup-push key value d)

module _ {Float : Type 0} where
  pub lookup-remember :
      (r : GroupCommandResult) (s : Service Float)
      → lookup r.request_id (remember r s).results ≡ some r
  unfolding remember
  lookup-remember r s =
      lookup-drop_oldest-push_last max_deduplication_entries r.request_id r s.results (omega arith)

  pub length-remember :
      (r : GroupCommandResult) (s : Service Float) → length (remember r s).results ≤ 512
  unfolding remember
  length-remember r s =
      length-drop_oldest max_deduplication_entries (push_last r.request_id r s.results)

module _ (F : Floats) (C : Calculator F) (config : AppConfig F.Float) (clock : ℕ → F.Float) where
  open F use {Float}

  -- The command repeats a remembered one.
  unfoldable pub IsReplayed :
      GroupCommand Float → Service Float → Service Float → GroupCommandResult → Type 0
  IsReplayed c s t r = (lookup c.request_id s.results ≡ some r) × (t ≡ s)

  -- The command is rejected: only the result is remembered.
  unfoldable pub IsRejected :
      GroupCommand Float → Service Float → Service Float → GroupCommandResult → Type 0
  IsRejected c s t r = (t ≡ remember r s) × (r.request_id ≡ c.request_id) × (r.accepted ≡ false)

  -- The command passes all the guards.
  unfoldable pub IsApplied :
      String → GroupCommand Float → Service Float → Service Float → GroupCommandResult → Type 0
  IsApplied group_id c s t r =
      (current : GroupStatePayload Float) × (lookup group_id s.states ≡ some current)
      × (is_observer config.runtime.mode ≡ false)
      × ((is_emergency_stop current.status && not (is_clear c.action)) ≡ false)
      × (ltb (merge c current).max_power (merge c current).min_power ≡ false)
      × (((merge c current).enabled
            && not (
                leb (merge c current).min_power (merge c current).power
                && leb (merge c current).power (merge c current).max_power))
          ≡ false)
      × (apply_change F C config clock group_id c (commit c current (merge c current)) s
          ≡ ok (t, r))

  reject-IsRejected :
      (group_id : String) (revision : ℕ) (c : GroupCommand Float) (reason : String)
      (s t : Service Float) (r : GroupCommandResult)
      → ok (reject group_id revision c reason s) ≡ ok (t, r)
      → IsRejected c s t r
  unfolding reject IsRejected
  reject-IsRejected group_id revision c reason s t r h =
      let same = ok-injective h in
      let same_r = ap (λ p. p.1) same in
      (
        sym (ap (λ p. p.0) same) ∙ ap (λ x. remember x s) same_r,
        sym (ap (λ x. x.request_id) same_r),
        sym (ap (λ x. x.accepted) same_r),
      )

  apply_group-cases :
      (group_id : String) (c : GroupCommand Float) (current : GroupStatePayload Float)
      (s t : Service Float) (r : GroupCommandResult)
      → lookup group_id s.states ≡ some current
      → is_observer config.runtime.mode ≡ false
      → apply_group F C config clock group_id c current s ≡ ok (t, r)
      → IsRejected c s t r ⊎ IsApplied group_id c s t r
  unfolding apply_group IsApplied
  apply_group-cases group_id c current s t r known mode h =
      elim (if-cases (not (holds_of C.supports c.pattern)) _ _ h) [
        | inl (_, a) ↦ inl (reject-IsRejected _ _ c _ s t r a)
        | inr (_, h1) ↦
            elim (if-cases (is_emergency_stop current.status && not (is_clear c.action)) _ _ h1) [
              | inl (_, a) ↦ inl (reject-IsRejected _ _ c _ s t r a)
              | inr (lock, h2) ↦
                  elim (if-cases (ltb (merge c current).max_power (merge c current).min_power) _ _
                    h2) [
                      | inl (_, a) ↦ inl (reject-IsRejected _ _ c _ s t r a)
                      | inr (order, h3) ↦
                          elim (if-cases
                            ((merge c current).enabled
                              && not (
                                  leb (merge c current).min_power (merge c current).power
                                  && leb (merge c current).power (merge c current).max_power))
                            _ _ h3) [
                              | inl (_, a) ↦ inl (reject-IsRejected _ _ c _ s t r a)
                              | inr (range, done) ↦
                                  inr (current, known, mode, lock, order, range, done)
                            ]
                    ]
            ]
      ]

  apply_new-cases :
      (group_id : String) (c : GroupCommand Float) (s t : Service Float) (r : GroupCommandResult)
      → lookup c.request_id s.results ≡ none
      → apply F C config clock group_id c s ≡ ok (t, r)
      → IsRejected c s t r ⊎ IsApplied group_id c s t r
  unfolding apply
  apply_new-cases group_id c s t r fresh h =
      elim (Option-cases (lookup group_id (groups F C config))) [
        | inl e ↦ inl (reject-IsRejected _ _ c _ s t r (rw (apply, fresh, e) at h))
        | inr (g, e) ↦
            let (current, known, rest) =
              >>=-eq-ok (require key_error (lookup group_id s.states)) _
                (rw (apply, fresh, e) at h) in
            let found = require-eq-ok key_error (lookup group_id s.states) known in
            elim (if-cases (is_observer config.runtime.mode) _ _ rest) [
              | inl (_, a) ↦ inl (reject-IsRejected _ _ c _ s t r a)
              | inr (mode, a) ↦ apply_group-cases group_id c current s t r found mode a
            ]
      ]

  pub apply-cases :
      (group_id : String) (c : GroupCommand Float) (s t : Service Float) (r : GroupCommandResult)
      → apply F C config clock group_id c s ≡ ok (t, r)
      → IsReplayed c s t r ⊎ (IsRejected c s t r ⊎ IsApplied group_id c s t r)
  unfolding apply IsReplayed
  apply-cases group_id c s t r h = elim (Option-cases (lookup c.request_id s.results)) [
    | inl fresh ↦ inr (apply_new-cases group_id c s t r fresh h)
    | inr (previous, e) ↦
        let same = ok-injective (rw (apply, e) at h) in
        inl (e ∙ ap some (ap (λ p. p.1) same), sym (ap (λ p. p.0) same))
  ]
