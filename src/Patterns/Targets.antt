-- ===== src/Patterns/Targets.antt =====
-- The targets of the members of a group, against limits.
use jebao_flow_engine.Base.{
  ℕ, ◌≤◌, ◌≡◌, refl, sym, ap, subst, ◌∙◌, Bool, true, false, ◌&&◌, arith, if◌then◌else◌, Bool-cases,
  inl, inr, none, some, is_some, List, [], ◌∷◌, String, str_eq, leb, All,
}
use jebao_flow_engine.Base.Dict.{Dict, lookup, insert, lookup-insert, lookup-insert_self}
use jebao_flow_engine.Base.Result.{
  Result, ok, err, Returns, ensure-eq-ok, >>=-eq-ok, ok-injective, value_error,
}
use jebao_flow_engine.Floats.{Floats, FloatLaws}
use jebao_flow_engine.Groups.{GroupMember}
use jebao_flow_engine.Patterns.Shared.{or_default, member_target, for_members}
use jebao_flow_engine.Protocol.Models.{DeviceTarget, device_target}
use jebao_flow_engine.Safety.{PowerLimits, power_limits}
use jebao_flow_engine.Safety.Bounds.{clamp_enabled_power_bounds}
use mathlib.Core.Option.{none-ne-some}

-- A target is off with power 0, or on with a power between the limits. It is off in a group that is.
unfoldable pub IsWithin : Bool → PowerLimits → DeviceTarget → Type 0
IsWithin on limits target =
    (on ≡ false → target.enabled ≡ false)
    × (target.enabled ≡ false → target.power ≡ 0)
    × (target.enabled ≡ true
        → (limits.min_power ≤ target.power) × (target.power ≤ limits.max_power))

-- All the targets of a dict are.
unfoldable pub AllWithin : Bool → PowerLimits → Dict DeviceTarget → Type 0
unfolding IsWithin
AllWithin on limits targets =
    (device : String) (target : DeviceTarget)
    → lookup device targets ≡ some target
    → IsWithin on limits target

-- Each member has a target.
unfoldable pub Covers : {Float : Type 0} → List (GroupMember Float) → Dict DeviceTarget → Type 0
Covers members targets = All (λ m. is_some (lookup m.device targets) ≡ true) members

-- A calculation returns targets within the limits, for all the members.
unfoldable pub IsBounded :
    {Float : Type 0}
    → Bool
    → PowerLimits
    → List (GroupMember Float)
    → Result (Dict DeviceTarget)
    → Type 0
IsBounded on limits members r =
    (targets : Dict DeviceTarget) × (r ≡ ok targets)
    × AllWithin on limits targets
    × Covers members targets

insert-AllWithin :
    (on : Bool) (limits : PowerLimits) (device : String) (target : DeviceTarget)
    (targets : Dict DeviceTarget)
    → IsWithin on limits target
    → AllWithin on limits targets
    → AllWithin on limits (insert device target targets)
unfolding AllWithin
insert-AllWithin on limits device target targets h rest other t found =
    let at = sym (lookup-insert device other target targets) ∙ found in
    elim (Bool-cases (str_eq device other)) [
      | inl e ↦
          subst (λ x. IsWithin on limits x)
            (ap (or_default target)
              (subst (λ b. (if b then some target else lookup other targets) ≡ some t) e at))
            h
      | inr e ↦
          rest other t
            (subst (λ b. (if b then some target else lookup other targets) ≡ some t) e at)
    ]

insert-Covers :
    {Float : Type 0} (members : List (GroupMember Float)) (device : String) (target : DeviceTarget)
    (targets : Dict DeviceTarget)
    → Covers members targets
    → Covers members (insert device target targets)
unfolding Covers
insert-Covers [] device target targets h = tt
insert-Covers (m ∷ members) device target targets h =
    (rw lookup-insert (ground (arith, h.0)), insert-Covers members device target targets h.1)

min_of : Result PowerLimits → ℕ
min_of (ok l) = l.min_power
min_of (err e) = 0

max_of : Result PowerLimits → ℕ
max_of (ok l) = l.max_power
max_of (err e) = 0

pub power_limits-eq_ok :
    (lo hi : ℕ) (limits : PowerLimits)
    → power_limits lo hi ≡ ok limits
    → (limits.min_power ≤ limits.max_power) × (limits.max_power ≤ 100)
unfolding power_limits min_of max_of
power_limits-eq_ok lo hi limits h =
    let (a, h1) = ensure-eq-ok (leb lo 100) value_error _ h in
    let (b, h2) = ensure-eq-ok (leb hi 100) value_error _ h1 in
    let (c, h3) = ensure-eq-ok (leb lo hi) value_error _ h2 in
    let lo_is = ap (λ r. min_of r) h3 in
    let hi_is = ap (λ r. max_of r) h3 in ground (arith, lo_is, hi_is, a, b, c)

at_most_100 :
    (on : Bool) (p lo hi : ℕ)
    → hi ≤ 100
    → (on ≡ false → p ≡ 0)
    → (on ≡ true → (lo ≤ p) × (p ≤ hi))
    → leb p 100 ≡ true
at_most_100 true p lo hi h off within = let (a, b) = within refl in ground arith
at_most_100 false p lo hi h off within = let a = off refl in ground arith

module _ (F : Floats) (L : FloatLaws F) where
  open F use {Float, of_nat}

  member_target-IsWithin :
      (value : Float) (member : GroupMember Float) (limits : PowerLimits) (on : Bool)
      → limits.min_power ≤ limits.max_power
      → limits.max_power ≤ 100
      → (target : DeviceTarget) × (member_target F value member limits on ≡ ok target)
        × IsWithin on limits target
  unfolding member_target IsWithin device_target
  member_target-IsWithin value member limits on h hi =
      let (p, done, off, within) =
        clamp_enabled_power_bounds F L (F.mul value member.gain) limits (on && member.enabled) h
          hi in
      let is_on = on && member.enabled in
      let fits = at_most_100 is_on p limits.min_power limits.max_power hi off within in
      (
        record { enabled = is_on; power = p; mode = none; frequency = none },
        rw (done, fits),
        (λ e. ap (λ b. b && member.enabled) e, off, within),
      )

  pub for_members-Returns :
      (request : GroupMember Float → Result Float) (limits : PowerLimits) (on : Bool)
      → limits.min_power ≤ limits.max_power
      → limits.max_power ≤ 100
      → ((m : GroupMember Float) → Returns (request m))
      → (members : List (GroupMember Float)) (targets : Dict DeviceTarget)
      → Returns (for_members F request limits on members targets)
  unfolding for_members
  for_members-Returns request limits on h hi asks [] targets = (targets, refl)
  for_members-Returns request limits on h hi asks (m ∷ members) targets =
      let (x, asked) = asks m in
      let (target, done, _) = member_target-IsWithin x m limits on h hi in
      let (result, rest) =
        for_members-Returns request limits on h hi asks members (insert m.device target targets) in
      (result, rw (asked, done, rest))

  for_members-AllWithin :
      (request : GroupMember Float → Result Float) (limits : PowerLimits) (on : Bool)
      → limits.min_power ≤ limits.max_power
      → limits.max_power ≤ 100
      → (members : List (GroupMember Float)) (targets result : Dict DeviceTarget)
      → for_members F request limits on members targets ≡ ok result
      → AllWithin on limits targets
      → (seen : List (GroupMember Float)) → Covers seen targets
      → AllWithin on limits result × Covers members result × Covers seen result
  unfolding for_members Covers
  for_members-AllWithin request limits on h hi [] targets result run w seen c =
      let same = ok-injective run in
      (subst (λ d. AllWithin on limits d) same w, tt, subst (λ d. Covers seen d) same c)
  for_members-AllWithin request limits on h hi (m ∷ members) targets result run w seen c =
      let (x, _, h1) = >>=-eq-ok (request m) _ run in
      let (target, made, h2) = >>=-eq-ok (member_target F x m limits on) _ h1 in
      let (expected, done, within) = member_target-IsWithin x m limits on h hi in
      let fits = subst (λ t. IsWithin on limits t) (ok-injective (sym done ∙ made)) within in
      let next = insert m.device target targets in
      let here = ap is_some (lookup-insert_self m.device target targets) in
      let (all_within, covered, kept) =
        for_members-AllWithin request limits on h hi members next result h2
          (insert-AllWithin on limits m.device target targets fits w) (m ∷ seen)
          (here, insert-Covers seen m.device target targets c) in
      (all_within, (kept.0, covered), kept.1)

  pub for_members-eq_ok :
      (request : GroupMember Float → Result Float) (limits : PowerLimits) (on : Bool)
      (members : List (GroupMember Float)) (targets : Dict DeviceTarget)
      → limits.min_power ≤ limits.max_power
      → limits.max_power ≤ 100
      → for_members F request limits on members [] ≡ ok targets
      → AllWithin on limits targets × Covers members targets
  unfolding AllWithin Covers lookup
  for_members-eq_ok request limits on members targets h hi run =
      let (w, c, _) =
        for_members-AllWithin request limits on h hi members [] targets run
          (λ device target found. absurd (none-ne-some target found)) [] tt in
      (w, c)
