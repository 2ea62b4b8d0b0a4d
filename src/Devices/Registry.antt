-- ===== src/Devices/Registry.antt =====
-- devices/registry.py: the devices by their ids.
use jebao_flow_engine.Base.{
  ℕ, ◌+◌, ◌≡◌, refl, sym, Option, none, some, List, [], ◌∷◌, String, str_eq, is_some, length, map,
  if◌then◌else◌, Option-cases, Bool-cases, inl, inr, ◌⊎◌, arith,
}
use jebao_flow_engine.Base.Dict.{Dict, lookup, insert, lookup-insert}
use jebao_flow_engine.Base.Result.{Result, ok, err, require, value_error, key_error}
use mathlib.Core.Option.{none-ne-some}
use mathlib.Core.Path.{fun_ext}

-- `D` is the type of the devices, with their property `device_id`.
module _ {D : Type 0} (device_id : D → String) where
  unfoldable pub add : D → Dict D → Result (Dict D)
  add device devices =
      if is_some (lookup (device_id device) devices)
      then err value_error
      else ok (insert (device_id device) device devices)

  -- The registry as a function from ids to devices, and a change of such a function.
  abbrev pub view : Dict D → String → Option D
  view devices id = lookup id devices

  abbrev pub update : (String → Option D) → String → D → String → Option D
  update f id device other = if str_eq id other then some device else f other

  length-insert :
      (id : String) (device : D) (devices : Dict D)
      → lookup id devices ≡ none
      → length (insert id device devices) ≡ length devices + 1
  unfolding lookup insert
  length-insert id device [] h = ground arith
  length-insert id device ((k, v) ∷ devices) h = elim (Bool-cases (str_eq k id)) [
    | inl same ↦ absurd (none-ne-some v (sym (rw same at h)))
    | inr apart ↦ rw apart (ground (arith, length-insert id device devices (rw apart at h)))
  ]

  -- `add` implements a partial function from ids to devices that never replaces a value: with a new id it changes the
  -- function at this id alone, and the number of devices grows by one; with a known id it raises `ValueError`.
  pub add_refines :
      (device : D) (devices : Dict D)
      → ((view devices (device_id device) ≡ none)
          × ((added : Dict D) × (add device devices ≡ ok added)
              × (view added ≡ update (view devices) (device_id device) device)
              × (length added ≡ length devices + 1)))
        ⊎ ((old : D) × (view devices (device_id device) ≡ some old)
            × (add device devices ≡ err value_error))
  unfolding add
  add_refines device devices = elim (Option-cases (lookup (device_id device) devices)) [
    | inr (old, found) ↦ inr (old, found, rw found refl)
    | inl missing ↦ inl (
      missing,
      (
        insert (device_id device) device devices,
        rw missing refl,
        fun_ext (λ other. lookup-insert (device_id device) other device devices),
        length-insert (device_id device) device devices missing,
      ),
    )
  ]

module _ {D : Type 0} where
  unfoldable pub get : String → Dict D → Result D
  get id devices = require key_error (lookup id devices)

  -- `__iter__` and `__len__`
  unfoldable pub iter : Dict D → List D
  iter devices = map (λ (entry : String × D). entry.1) devices

  unfoldable pub len : Dict D → ℕ
  len devices = length devices
