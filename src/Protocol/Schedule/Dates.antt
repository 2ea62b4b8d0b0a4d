-- ===== src/Protocol/Schedule/Dates.antt =====
-- The device's clock: the constructor of `datetime` and `_decode_device_local_time`.
use jebao_flow_engine.Base.{
  ℕ, ◌+◌, ◌*◌, ◌≤◌, ◌<◌, ◌≡◌, refl, false, not, Option, none, some, [], ◌∷◌, ◌++◌, arith, ◌⊎◌, inl,
  inr, ◌&&◌, leb, ◌==◌, Bool-cases, slice, length, sym, ◌∙◌, ap, subst, length-take, length-drop,
  drop,
}
use jebao_flow_engine.Base.Bytes.{Bytes}
use jebao_flow_engine.Base.Result.{ok, err, value_error}
use jebao_flow_engine.Protocol.Models.{LocalTime}
use jebao_flow_engine.Protocol.Schedule.{
  ScheduleSpec, days_in_month, datetime, read_datetime, is_unused, caught, decode_device_local_time,
  clock_time,
}
use mathlib.Core.Option.{none-ne-some, some-injective}
use mathlib.Core.Bool.{true≢false}

-- A day of the calendar and a time of the day.
pub record IsDatetime (y m d hh mm ss : ℕ) : Type 0 where
  pub year_in : (1 ≤ y) × (y ≤ 9999)
  pub month_in : (1 ≤ m) × (m ≤ 12)
  pub day_in : (1 ≤ d) × (d ≤ days_in_month y m)
  pub time_in : (hh < 24) × (mm < 60) × (ss < 60)

abbrev pub local_time : ℕ → ℕ → ℕ → ℕ → ℕ → ℕ → LocalTime
local_time y m d hh mm ss = record {
  year = y;
  month = m;
  day = d;
  hour = hh;
  minute = mm;
  second = ss;
}

pub datetime_accepts :
    (y m d hh mm ss : ℕ)
    → (IsDatetime y m d hh mm ss × (datetime y m d hh mm ss ≡ ok (local_time y m d hh mm ss)))
      ⊎ ((¬ IsDatetime y m d hh mm ss) × (datetime y m d hh mm ss ≡ err value_error))
unfolding datetime
datetime_accepts y m d hh mm ss = elim (Bool-cases (leb 1 y && leb y 9999)) [
  | inr e ↦ inr (λ h. ground (arith, h.year_in), rw e refl)
  | inl e1 ↦ elim (Bool-cases (leb 1 m && leb m 12)) [
    | inr e ↦ inr (λ h. ground (arith, h.month_in), rw (e1, e) refl)
    | inl e2 ↦ elim (Bool-cases (leb 1 d && leb d (days_in_month y m))) [
      | inr e ↦ inr (λ h. ground (arith, h.day_in), rw (e1, e2, e) refl)
      | inl e3 ↦ elim (Bool-cases (leb hh 23 && leb mm 59 && leb ss 59)) [
        | inr e ↦ inr (λ h. ground (arith, h.time_in), rw (e1, e2, e3, e) refl)
        | inl e4 ↦ inl (
          record {
            year_in = ground arith;
            month_in = ground arith;
            day_in = ground arith;
            time_in = ground arith;
          },
          rw (e1, e2, e3, e4) refl,
        )
      ]
    ]
  ]
]

-- The bytes of the date and of the time, for a clock that shows a time.
pub record IsClockOf (ymd hms : Bytes) (t : LocalTime) : Type 0 where
  pub century : ℕ
  pub year_of_century : ℕ
  pub date_bytes : ymd ≡ century ∷ year_of_century ∷ t.month ∷ t.day ∷ []
  pub time_bytes : hms ≡ 0 ∷ t.hour ∷ t.minute ∷ t.second ∷ []
  pub year_is : t.year ≡ century * 100 + year_of_century
  pub is_datetime : IsDatetime t.year t.month t.day t.hour t.minute t.second

-- A time that is shown is the clock's; a clock that is used and shows a possible time is shown.
abbrev IsRight : Bytes → Bytes → Option LocalTime → Type 0
IsRight ymd hms time =
    ((t : LocalTime) → time ≡ some t → IsClockOf ymd hms t)
    × ((t : LocalTime) → is_unused (ymd ++ hms) ≡ false → IsClockOf ymd hms t → time ≡ some t)

length-four :
    (xs : Bytes) → length xs ≡ 4 → (a : ℕ) × (b : ℕ) × (c : ℕ) × (d : ℕ) × (xs ≡ a ∷ b ∷ c ∷ d ∷ [])
length-four (a ∷ b ∷ c ∷ d ∷ []) h = (a, b, c, d, refl)
length-four _ h = absurd (omega (arith, h))

head-eq : (a b : ℕ) (xs ys : Bytes) → a ∷ xs ≡ b ∷ ys → (a ≡ b) × (xs ≡ ys)
head-eq a b xs ys h = (cc, cc)

-- Bytes that a clock's time determines.
same_clock :
    (c y m d z hh mm ss : ℕ) (t : LocalTime)
    → IsClockOf (c ∷ y ∷ m ∷ d ∷ []) (z ∷ hh ∷ mm ∷ ss ∷ []) t
    → (z ≡ 0) × (local_time (c * 100 + y) m d hh mm ss ≡ t)
same_clock c y m d z hh mm ss t k =
    let (e0, r0) = head-eq _ _ _ _ k.date_bytes in
    let (e1, r1) = head-eq _ _ _ _ r0 in
    let (e2, r2) = head-eq _ _ _ _ r1 in
    let (e3, _) = head-eq _ _ _ _ r2 in
    let (f0, s0) = head-eq _ _ _ _ k.time_bytes in
    let (f1, s1) = head-eq _ _ _ _ s0 in
    let (f2, s2) = head-eq _ _ _ _ s1 in
    let (f3, _) = head-eq _ _ _ _ s2 in
    let years : c * 100 + y ≡ t.year = omega (arith, e0, e1, k.year_is) in
    (f0, λ i. local_time (years i) (e2 i) (e3 i) (f1 i) (f2 i) (f3 i))

slice-four : (raw : Bytes) (start : ℕ) → start + 4 ≤ length raw → length (slice raw start 4) ≡ 4
slice-four raw start fits = omega (arith, length-take 4 (drop start raw), length-drop start raw)

clock_time_lem :
    (c y m d z hh mm ss : ℕ)
    → (time : Option LocalTime) × (clock_time (c ∷ y ∷ m ∷ d ∷ []) (z ∷ hh ∷ mm ∷ ss ∷ [])
        ≡ ok time)
      × IsRight (c ∷ y ∷ m ∷ d ∷ []) (z ∷ hh ∷ mm ∷ ss ∷ []) time
unfolding clock_time caught read_datetime
clock_time_lem c y m d z hh mm ss =
    let ymd = c ∷ y ∷ m ∷ d ∷ [] in
    let hms = z ∷ hh ∷ mm ∷ ss ∷ [] in
    elim (Bool-cases (is_unused (ymd ++ hms))) [
      | inl unused ↦ (
        none,
        rw unused refl,
        (λ t e. absurd (none-ne-some t e), λ t used k. absurd (true≢false (sym unused ∙ used))),
      )
      | inr used ↦ elim (Bool-cases (not (z == 0))) [
        | inl odd ↦ (
          none,
          rw (used, odd) refl,
          (
            λ t e. absurd (none-ne-some t e),
            λ t _ k. ground (arith, (same_clock c y m d z hh mm ss t k).0),
          ),
        )
        | inr even ↦ elim (datetime_accepts (c * 100 + y) m d hh mm ss) [
          | inl (real, made) ↦ (
            some (local_time (c * 100 + y) m d hh mm ss),
            rw (used, even, made) refl,
            (
              λ t e. subst (IsClockOf ymd hms) (some-injective _ _ e) (record {
                century = c;
                year_of_century = y;
                date_bytes = refl;
                time_bytes = ap (λ n. n ∷ hh ∷ mm ∷ ss ∷ []) (ground (arith, even));
                year_is = refl;
                is_datetime = real;
              }),
              λ t _ k. ap some (same_clock c y m d z hh mm ss t k).1,
            ),
          )
          | inr (unreal, failed) ↦ (
            none,
            rw (used, even, failed) refl,
            (
              λ t e. absurd (none-ne-some t e),
              λ t _ k. absurd (
                  unreal (
                    subst
                      (λ (u : LocalTime). IsDatetime u.year u.month u.day u.hour u.minute u.second)
                      (sym (same_clock c y m d z hh mm ss t k).1) k.is_datetime)),
            ),
          )
        ]
      ]
    ]

-- `_decode_device_local_time` on a buffer that holds the clock: it raises nothing. A time that it returns is the clock's,
-- with a day of the calendar and a time of the day; and a clock that is used and shows such a time is returned.
pub decode_device_local_time_lem :
    (raw : Bytes) (spec : ScheduleSpec)
    → spec.ymd_offset + 4 ≤ length raw
    → spec.hms_offset + 4 ≤ length raw
    → (time : Option LocalTime) × (decode_device_local_time raw spec ≡ ok time)
      × IsRight (slice raw spec.ymd_offset 4) (slice raw spec.hms_offset 4) time
unfolding decode_device_local_time
decode_device_local_time_lem raw spec date_fits time_fits =
    let ymd = slice raw spec.ymd_offset 4 in
    let hms = slice raw spec.hms_offset 4 in
    let (c, y, m, d, dates) = length-four ymd (slice-four raw spec.ymd_offset date_fits) in
    let (z, hh, mm, ss, times) = length-four hms (slice-four raw spec.hms_offset time_fits) in
    rw (dates, times) (clock_time_lem c y m d z hh mm ss)
