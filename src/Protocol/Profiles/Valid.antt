-- ===== src/Protocol/Profiles/Valid.antt =====
-- The schemas of protocol/profiles.py against the checks of protocol/schema.py.
use jebao_flow_engine.Base.{
  ◌≡◌, ◌≢◌, refl, sym, ap, subst, ◌∙◌, Bool, true, false, ◌&&◌, Bool-cases, Option-cases, inl, inr,
  some, List, [], ◌∷◌, String, str_eq, eq_iff, all, All,
}
use mathlib.Core.Bool.{false≢true}
use mathlib.Core.Option.{none-ne-some, some-injective}
use jebao_flow_engine.Base.Dict.{Dict, lookup, insert}
use jebao_flow_engine.Base.Result.{Error, Result, ok, err, ok-injective}
use jebao_flow_engine.Protocol.Profiles.{
  dc_pump_pro, dosing_pump, local_wavemaker, aquarium_pump, local_wavemaker_pro, index_schemas,
  known_schemas, get_product_schema,
}
use jebao_flow_engine.Protocol.Schema.{Datapoint, ProductSchema, check_datapoint, check_schema}
use jebao_flow_engine.Protocol.Schema.Decoding.{is_decodable, IsDecodable}

-- A schema that passes its checks, with datapoints that pass theirs and that `decode_status` can decode.
unfoldable pub IsValid : ProductSchema → Type 0
IsValid s = (check_schema s ≡ ok tt) × All (IsDecodable s) s.attributes

and-true : (a b : Bool) → (a && b) ≡ true → (a ≡ true) × (b ≡ true)
and-true true b h = (refl, h)
and-true false b h = cc

passes : Result (Unit {0}) → Bool
passes (ok u) = true
passes (err e) = false

passes-eq-ok : (r : Result (Unit {0})) → passes r ≡ true → r ≡ ok tt
unfolding passes
passes-eq-ok (ok u) h = refl
passes-eq-ok (err e) h = cc

abbrev is_fine : Datapoint → Bool
is_fine d = is_decodable d && passes (check_datapoint d)

all-IsDecodable :
    (s : ProductSchema) (attributes : List Datapoint)
    → all is_fine attributes ≡ true
    → All (IsDecodable s) attributes
unfolding IsDecodable
all-IsDecodable s [] h = tt
all-IsDecodable s (d ∷ rest) h =
    let (here, more) = and-true (is_fine d) (all is_fine rest) h in
    let (decodable, passed) = and-true (is_decodable d) (passes (check_datapoint d)) here in
    ((decodable, passes-eq-ok (check_datapoint d) passed), all-IsDecodable s rest more)

IsValid-intro :
    (s : ProductSchema) → check_schema s ≡ ok tt → all is_fine s.attributes ≡ true → IsValid s
unfolding IsValid
IsValid-intro s checked fine = (checked, all-IsDecodable s s.attributes fine)

dc_pump_pro-IsValid : IsValid dc_pump_pro
unfolding dc_pump_pro check_schema check_datapoint passes
dc_pump_pro-IsValid = IsValid-intro dc_pump_pro refl refl

dosing_pump-IsValid : IsValid dosing_pump
unfolding dosing_pump check_schema check_datapoint passes
dosing_pump-IsValid = IsValid-intro dosing_pump refl refl

local_wavemaker-IsValid : IsValid local_wavemaker
unfolding local_wavemaker check_schema check_datapoint passes
local_wavemaker-IsValid = IsValid-intro local_wavemaker refl refl

aquarium_pump-IsValid : IsValid aquarium_pump
unfolding aquarium_pump check_schema check_datapoint passes
aquarium_pump-IsValid = IsValid-intro aquarium_pump refl refl

local_wavemaker_pro-IsValid : IsValid local_wavemaker_pro
unfolding local_wavemaker_pro check_schema check_datapoint passes
local_wavemaker_pro-IsValid = IsValid-intro local_wavemaker_pro refl refl

-- Each entry of a dict of schemas has its key, and is valid.
AreValid : Dict ProductSchema → Type 0
AreValid d = All (λ e. (e.1.product_key ≡ e.0) × IsValid e.1) d

insert-AreValid :
    (s : ProductSchema) (d : Dict ProductSchema)
    → IsValid s
    → AreValid d
    → AreValid (insert s.product_key s d)
unfolding AreValid insert
insert-AreValid s [] valid h = ((refl, valid), tt)
insert-AreValid s ((k, v) ∷ d) valid h = elim (Bool-cases (str_eq k s.product_key)) [
  | inl same ↦ rw same ((sym ((eq_iff k s.product_key).0 same), valid), h.1)
  | inr apart ↦ rw apart (h.0, insert-AreValid s d valid h.1)
]

index_schemas-AreValid :
    (schemas : List ProductSchema) (d : Dict ProductSchema)
    → All IsValid schemas
    → AreValid d
    → AreValid (index_schemas schemas d)
unfolding index_schemas
index_schemas-AreValid [] d valid h = h
index_schemas-AreValid (s ∷ schemas) d valid h =
    index_schemas-AreValid schemas _ valid.1 (insert-AreValid s d valid.0 h)

known_schemas-AreValid : AreValid known_schemas
unfolding known_schemas AreValid
known_schemas-AreValid =
    index_schemas-AreValid
      (dc_pump_pro ∷ dosing_pump ∷ local_wavemaker ∷ aquarium_pump ∷ local_wavemaker_pro ∷ []) []
      (
        dc_pump_pro-IsValid,
        (
          dosing_pump-IsValid,
          (local_wavemaker-IsValid, (aquarium_pump-IsValid, (local_wavemaker_pro-IsValid, tt))),
        ),
      )
      tt

lookup-AreValid :
    (d : Dict ProductSchema) (product_key : String) (s : ProductSchema)
    → AreValid d
    → lookup product_key d ≡ some s
    → (s.product_key ≡ product_key) × IsValid s
unfolding AreValid lookup
lookup-AreValid [] product_key s h found = absurd (none-ne-some s found)
lookup-AreValid ((k, v) ∷ d) product_key s h found = elim (Bool-cases (str_eq k product_key)) [
  | inl same ↦
      let is_v = some-injective v s (rw same at found) in
      subst (λ x. (x.product_key ≡ product_key) × IsValid x) is_v
        (h.0.0 ∙ (eq_iff k product_key).0 same, h.0.1)
  | inr apart ↦ lookup-AreValid d product_key s h.1 (rw apart at found)
]

err-ne-ok : {A : Type 0} {e : Error} {a : A} → err e ≢ ok a
err-ne-ok h = false≢true (ap (λ r. elim r [ ok x ↦ true | err y ↦ false ]) h)

-- A schema that `get_product_schema` returns has the product key that was asked for and passes the checks of
-- `ProductSchema`. Its datapoints pass theirs, and those in whole bytes are numbers or binary.
pub get_product_schema-IsValid :
    (product_key : String) (s : ProductSchema)
    → get_product_schema product_key ≡ ok s
    → (s.product_key ≡ product_key) × IsValid s
unfolding get_product_schema
get_product_schema-IsValid product_key s h =
    elim (Option-cases (lookup product_key known_schemas)) [
      | inl missing ↦ absurd (err-ne-ok (rw (get_product_schema, missing) at h))
      | inr (found, e) ↦
          lookup-AreValid known_schemas product_key s known_schemas-AreValid
            (e ∙ ap some (ok-injective (rw (get_product_schema, e) at h)))
    ]
