-- ===== src/Devices/Factory.antt =====
-- devices/factory.py: adapters from the configuration.
use jebao_flow_engine.Base.{
  Bool, true, false, not, ◌&&◌, String, Option, some, ◌≡◌, refl, sym, ap, ◌⊎◌, inl, inr, ◌∙◌,
  str_eq, leb, ◌||◌,
}
use jebao_flow_engine.Base.Int.{ℤ}
use jebao_flow_engine.Base.Result.{
  Result, ok, ensure-eq-ok, require, ◌>>=◌, >>=-eq-ok, ok-injective, value_error,
}
use jebao_flow_engine.Config.{DeviceConfig, RuntimeConfig}
use jebao_flow_engine.Devices.Lan.{LanDevice}
use jebao_flow_engine.Devices.Lan.Locked.{IsKept, Reaches, Reaches-IsIdle}
use jebao_flow_engine.Devices.Lan.States.{LanOptions, Numerals, lan_device}
use jebao_flow_engine.Devices.RawSession.{RawSession, Loop}
use jebao_flow_engine.Protocol.Profiles.{get_product_schema}

abbrev options_of : DeviceConfig → Bool → LanOptions
options_of config allow_hardware_writes = record {
  power_limits = some config.limits;
  power_step = 1;
  minimum_command_interval_ms = config.control.minimum_command_interval_ms;
  readback_delay_ms = config.control.readback_delay_ms;
  readback_attempts = config.control.readback_attempts;
  allow_hardware_writes = allow_hardware_writes;
}

and-false : (allowed dry : Bool) → (allowed ≡ false) ⊎ (dry ≡ true) → (allowed && not dry) ≡ false
and-false false dry h = refl
and-false true true h = refl
and-false true false (inl h) = h
and-false true false (inr h) = sym h

module _ {S : Type 0} (session_factory : String → S) where
  unfoldable pub create_lan_device : DeviceConfig → RuntimeConfig → Result (LanDevice S)
  unfolding lan_device
  create_lan_device config runtime = do
    address ← require value_error config.address
    product_key ← require value_error config.product_key
    lan_device session_factory config.id address product_key
        (options_of config (config.control.allow_hardware_writes && not runtime.dry_run))

  unfoldable pub create_read_only_lan_device : DeviceConfig → String → String → Result (LanDevice S)
  unfolding lan_device
  create_read_only_lan_device config address product_key =
      lan_device session_factory config.id address product_key (options_of config false)

  lan_device-allow_hardware_writes :
      (device_id address product_key : String) (options : LanOptions) (d : LanDevice S)
      → lan_device session_factory device_id address product_key options ≡ ok d
      → d.allow_hardware_writes ≡ options.allow_hardware_writes
  unfolding lan_device
  lan_device-allow_hardware_writes device_id address product_key options d h =
      let (_, h1) = ensure-eq-ok (not (str_eq device_id "" || str_eq address "")) value_error _ h in
      let (_, h2) =
        ensure-eq-ok (leb 1 options.power_step && leb options.power_step 100) value_error _ h1 in
      let (_, h3) = ensure-eq-ok (leb 100 options.minimum_command_interval_ms) value_error _ h2 in
      let (_, h4) = ensure-eq-ok (leb 1 options.readback_attempts) value_error _ h3 in
      let (schema, _, h5) = >>=-eq-ok (get_product_schema product_key) _ h4 in
      ap (λ (x : LanDevice S). x.allow_hardware_writes) (sym (ok-injective h5))

  module _ (numerals : Numerals) (float_text : String → Option ℤ) (session : RawSession S)
      (loop : Loop S) where
    -- An adapter of `create_read_only_lan_device` only reads, whatever the configuration says: along every run of its
    -- operations, what the connecting, disconnecting and reading calls of its session keep is kept.
    pub create_read_only_lan_device-reads :
        (P : S → Type 0) (config : DeviceConfig) (address product_key : String) (d e : LanDevice S)
        → IsKept session P
        → create_read_only_lan_device config address product_key ≡ ok d
        → P d.session
        → Reaches numerals float_text session loop d e
        → P e.session
    unfolding create_read_only_lan_device
    create_read_only_lan_device-reads P config address product_key d e kept made start run =
        (Reaches-IsIdle numerals float_text session loop P kept d e run (
          lan_device-allow_hardware_writes config.id address product_key (options_of config false) d
              made,
          start,
        )).1

    -- An adapter of `create_lan_device` only reads if its configuration does not allow hardware writes, or if the runtime
    -- is a dry run: along every run of its operations, what the connecting, disconnecting and reading calls of its
    -- session keep is kept.
    pub create_lan_device-reads :
        (P : S → Type 0) (config : DeviceConfig) (runtime : RuntimeConfig) (d e : LanDevice S)
        → IsKept session P
        → create_lan_device config runtime ≡ ok d
        → (config.control.allow_hardware_writes ≡ false) ⊎ (runtime.dry_run ≡ true)
        → P d.session
        → Reaches numerals float_text session loop d e
        → P e.session
    unfolding create_lan_device
    create_lan_device-reads P config runtime d e kept made safe start run =
        let (address, _, h1) = >>=-eq-ok (require value_error config.address) _ made in
        let (product_key, _, h2) = >>=-eq-ok (require value_error config.product_key) _ h1 in
        let flag =
          lan_device-allow_hardware_writes config.id address product_key
            (options_of config (config.control.allow_hardware_writes && not runtime.dry_run)) d
            h2 in
        (Reaches-IsIdle numerals float_text session loop P kept d e run
          (flag ∙ and-false config.control.allow_hardware_writes runtime.dry_run safe, start)).1
